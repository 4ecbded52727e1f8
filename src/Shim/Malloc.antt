-- ===== src/Shim/Malloc.antt =====
-- `malloc` and `calloc`, with pointers that are patched.
use poireau.Prelude.{
  ℕ, suc, ◌+◌, ◌-◌, ◌*◌, ◌%◌, ◌^◌, ◌≤◌, ◌<◌, ◌≡◌, refl, true, false, some, leb, arith, List, ◌∷◌,
  inl, inr,
}
use poireau.Word.{sub64, two64}
use poireau.Exec.{done}
use poireau.Exec.Returns
use poireau.Exec.Returns.{Returns, normally}
use poireau.Kernel.{Kernel, KernelLaws}
use poireau.Probe.{Probe}
use poireau.Sample.{Entropy, Doubles, Sampler, SampleState, sample_request}
use poireau.Sample.Draw.{IsSeeded}
use poireau.Sample.Reset.{redraw, at_threshold-IsSeeded, sample_request_reset-redraw}
use poireau.TrackedAlloc.{Tracker, probe}
use poireau.TrackedAlloc.Invariant.{IsValid}
use poireau.TrackedAlloc.Get.{Answer, tracked_alloc_get-IsValid}
use poireau.Shim.{
  Host, Target, Process, traced_get, malloc, calloc, sampled_malloc, sampled_calloc, base_malloc,
  base_calloc,
}
use poireau.Shim.Lift.{tracking-Returns}
use poireau.Shim.Free.{probe-IsValid}
use poireau.Shim.Init.{passed}

-- The answer of the allocator is as good after the tracepoint.
probe-Answer :
    (k : Kernel) (t u : Tracker k) (request : ℕ) (r : ℕ × ℕ) (probes : List Probe)
    → Answer k t request r u
    → Answer k t request r (record u { probes = probes })
probe-Answer k t u request (p, id) probes (v, inl x) = (
  probe-IsValid k probes v,
  inl (record {
    null = x.null;
    no_id = x.no_id;
    counter = x.counter;
    memory = x.memory;
    view_after = x.view_after;
  }),
)
probe-Answer k t u request (p, id) probes (v, inr x) = (
  probe-IsValid k probes v,
  inr (record {
    next_id = x.next_id;
    counter = x.counter;
    aligned = x.aligned;
    not_null = x.not_null;
    below = x.below;
    unused = x.unused;
    gap = x.gap;
    fresh = x.fresh;
    view_after = x.view_after;
  }),
)

-- An allocation with its tracepoint, which is the latest one.
abbrev pub Traced :
    (k : Kernel) → (ℕ → ℕ → Probe) → Tracker k → (request ret : ℕ) → Tracker k → Type 0
Traced k tracepoint t request ret u =
    (id : ℕ) × Answer k t request (ret, id) u
    × ((earlier : List Probe) × (u.probes ≡ tracepoint id ret ∷ earlier))

pub traced_get-Traced :
    (k : Kernel) (laws : KernelLaws k) (tracepoint : ℕ → ℕ → Probe) (request : ℕ) (t : Tracker k)
    → IsValid k t
    → 0 < request
    → t.alloc_id_counter + 1 < 2 ^ 64
    → Returns (Traced k tracepoint t request) (traced_get k tracepoint request t)
unfolding traced_get
traced_get-Traced k laws tracepoint request t v pos room =
    Returns.bind (tracked_alloc_get-IsValid k laws request t v pos room) λ (ret, id) u answer.
      normally (id, probe-Answer k t u request (ret, id) _ answer, (u.probes, refl))

module _ (k : Kernel) (e : Entropy) (d : Doubles) (h : Host k) (rounds : ℕ) (p : Process k e) where
  abbrev left : ℕ
  left = p.sampler.state.bytes_until_next_sample

  -- With a patched `base_malloc`, a request below the threshold goes to the underlying `malloc`,
  -- and lowers the threshold.
  pub malloc_regular :
      (fuel request : ℕ)
      → request < left
      → left < 2 ^ 64
      → p.loader.base_malloc ≡ Target.real
      → malloc k e d h rounds (suc fuel) request p ≡ (
          let r = h.malloc request p.tracker.os in
          done r.0
            (record (passed k e d h rounds p request) { tracker = record p.tracker { os = r.1 } }))
  unfolding malloc base_malloc sample_request
  malloc_regular fuel request less fits patched =
      let regular : leb left request ≡ false = ground arith in
      let lowered : sub64 left request ≡ left - request = ground arith in
      rw (regular, lowered, patched)

  -- With a patched `base_calloc`, a `calloc` whose product is below the threshold asks the
  -- underlying `calloc` for one object of all the bytes, and lowers the threshold.
  pub calloc_regular :
      (fuel num size : ℕ)
      → num * size < left
      → left < 2 ^ 64
      → p.loader.base_calloc ≡ Target.real
      → calloc k e d h rounds (suc fuel) num size p ≡ (
          let r = h.calloc 1 (num * size) p.tracker.os in
          done r.0 (record (passed k e d h rounds p (num * size)) {
            tracker = record p.tracker { os = r.1 };
          }))
  unfolding calloc base_calloc sample_request
  calloc_regular fuel num size less fits patched =
      let small : leb two64 (num * size) ≡ false = ground arith in
      let exact : num * size % two64 ≡ num * size = omega arith in
      let regular : leb left (num * size) ≡ false = ground arith in
      let lowered : sub64 left (num * size) ≡ left - num * size = ground arith in
      rw (small, exact, regular, lowered, patched, exact)

  -- The sampler with a seeded generator, after the draw of the threshold in `st`.
  abbrev pub resampled : SampleState → Process k e
  resampled st = record p { sampler = record p.sampler { state = st } }

  -- With a seeded generator and a redraw that succeeds, `calloc` of more bytes than a word counts
  -- returns NULL with the tracepoint `calloc_overflow`, and allocates nothing.
  pub calloc_overflow :
      (fuel num size : ℕ) (st : SampleState)
      → 2 ^ 64 ≤ num * size
      → IsSeeded p.sampler.state
      → redraw e d rounds rounds p.sampler.state ≡ some st
      → calloc k e d h rounds (suc fuel) num size p
        ≡ done 0 (record (resampled st) {
          tracker = record p.tracker { probes = Probe.calloc_overflow num size ∷ p.tracker.probes };
        })
  unfolding calloc sampled_calloc probe
  calloc_overflow fuel num size st big seeded found =
      let over : leb two64 (num * size) ≡ true = ground arith in
      rw (over, sample_request_reset-redraw e d rounds p.sampler seeded, found)

  -- The state in which a sampled request redraws the threshold.
  abbrev charged : ℕ → SampleState
  charged request = record p.sampler.state { bytes_until_next_sample = sub64 left request }

module _ (k : Kernel) (laws : KernelLaws k) (e : Entropy) (d : Doubles) (h : Host k) (rounds : ℕ)
    (p : Process k e) (v : IsValid k p.tracker) where
  -- With a valid tracker whose counter is not at its end, a seeded generator and a redraw that
  -- succeeds, `malloc` of at least one byte that reaches the threshold returns the answer of the
  -- tracking allocator, a live tracked pointer or NULL, in a valid tracker, with the tracepoint
  -- `malloc` as the latest one, and the next threshold is the one redrawn.
  pub malloc_sampled :
      (fuel request : ℕ) (st : SampleState)
      → left k e d h rounds p ≤ request
      → 0 < request
      → p.tracker.alloc_id_counter + 1 < 2 ^ 64
      → IsSeeded p.sampler.state
      → redraw e d rounds rounds (charged k e d h rounds p request) ≡ some st
      → Returns
          (λ ret q.
            Traced k (λ id ret. Probe.malloc id ret request) p.tracker request ret q.tracker
            × (q.sampler.state ≡ st))
          (malloc k e d h rounds (suc fuel) request p)
  unfolding malloc sampled_malloc sample_request
  malloc_sampled fuel request st reached pos room seeded found =
      let sampled : leb (left k e d h rounds p) request ≡ true = ground arith in
      let m : Sampler e = record p.sampler { state = charged k e d h rounds p request } in
      let drawn = sample_request_reset-redraw e d rounds m (charged-IsSeeded seeded) in
      rw (sampled, drawn, found)
        (tracking-Returns k e d h rounds (resampled k e d h rounds p st)
          (traced_get k (λ id ret. Probe.malloc id ret request) request)
          (traced_get-Traced k laws (λ id ret. Probe.malloc id ret request) request p.tracker v pos
            room)
          λ ret t traced. (traced, refl))
    where
      charged-IsSeeded : IsSeeded p.sampler.state → IsSeeded (charged k e d h rounds p request)
      charged-IsSeeded s = at_threshold-IsSeeded e d p.sampler.state _ s

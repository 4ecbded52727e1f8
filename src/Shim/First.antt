-- ===== src/Shim/First.antt =====
-- The first calls: of a thread, whose generator is all zero, and of the process, whose `base_`
-- pointers are not patched yet.
use poireau.Prelude.{
  ap, refl, ◌∙◌, if◌then◌else◌, ℕ, suc, ◌-◌, ◌*◌, ◌%◌, ◌^◌, ◌<◌, ◌≡◌, ◌||◌, true, false, some, leb,
  arith,
}
use poireau.Word.{sub64, two64}
use poireau.Exec.{done, Exec, and_then, pure}
use poireau.Shim.Malloc.{malloc_regular}
use poireau.Kernel.{Kernel}
use poireau.Sample.{Entropy, Doubles, Sampler, SampleState, all_zero, seed, sample_request}
use poireau.Sample.Draw.{IsSeeded, draw}
use poireau.Sample.Reset.{threshold, at_threshold, sample_request_reset-fresh}
use poireau.Shim.{
  Host, Target, Process, init_shim, malloc, calloc, realloc, sampled_malloc, sampled_calloc,
  sampled_realloc, base_malloc,
}
use poireau.Shim.Init.{passed, patched, DlsymLaws, looked, init_shim-looked}

module _ (k : Kernel) (e : Entropy) (d : Doubles) (h : Host k) (rounds : ℕ) (p : Process k e) where
  -- What `sample_request` leaves of a zero-initialised state: the count has wrapped around.
  abbrev pub wrapped : ℕ → Sampler e
  wrapped request = record p.sampler { state = at_threshold e d p.sampler.state (sub64 0 request) }

  -- The process with a seeded generator that has drawn its first threshold from `b`.
  abbrev pub started : Sampler e → SampleState → ℕ → Process k e
  started m st b = record p { sampler = record m { state = at_threshold e d st (threshold e d b) } }

  -- In a thread whose generator is all zero and whose threshold is 0, if the seeding succeeds and
  -- a first number is drawn, `malloc`, `calloc` and `realloc` of the same number of bytes start
  -- again, with the seeded generator and the threshold drawn from that number; nothing else
  -- changes.
  pub first_request_again :
      (fuel request ptr num size b : ℕ) (m : Sampler e) (st : SampleState)
      → p.sampler.state.bytes_until_next_sample ≡ 0
      → all_zero p.sampler.state ≡ true
      → seed e (suc rounds) (wrapped request) ≡ done tt m
      → IsSeeded m.state
      → draw (suc rounds) m.state ≡ some (b, st)
      → num * size ≡ request
      → request < 2 ^ 64
      → (malloc k e d h (suc rounds) (suc fuel) request p
          ≡ malloc k e d h (suc rounds) fuel request (started m st b))
        × (calloc k e d h (suc rounds) (suc fuel) num size p
            ≡ calloc k e d h (suc rounds) fuel num size (started m st b))
        × (realloc k e d h (suc rounds) (suc fuel) ptr request p
            ≡ realloc k e d h (suc rounds) fuel ptr request (started m st b))
  unfolding malloc calloc realloc sampled_malloc sampled_calloc sampled_realloc sample_request
  first_request_again fuel request ptr num size b m st none_left zeroed seeds seeded drawn product
        fits =
      let small : leb two64 (num * size) ≡ false = ground arith in
      let exact : num * size % two64 ≡ request = omega arith in
      let sampled : leb 0 request ≡ true = ground arith in
      let reset =
        sample_request_reset-fresh e d rounds (wrapped request) m b st zeroed seeds seeded drawn in
      (
        rw (none_left, sampled, reset),
        rw (small, exact, none_left, sampled, reset),
        rw (none_left, sampled, reset),
      )

module _ (k : Kernel) (e : Entropy) (d : Doubles) (h : Host k) (rounds : ℕ) where
  -- `dummy_malloc` starts `malloc` again where `init_shim` ends.
  base_malloc-unpatched :
      (again : ℕ → Exec (Process k e) ℕ) (request : ℕ) (p q : Process k e)
      → p.loader.base_malloc ≡ Target.dummy
      → init_shim k e d h rounds p ≡ done true q
      → base_malloc k e d h rounds again request p ≡ again request q
  unfolding base_malloc
  base_malloc-unpatched again request p q unpatched run =
      simp unpatched (ap (λ o. and_then o (λ ok. if ok then again request else pure 0)) run)

module _ (k : Kernel) (e : Entropy) (d : Doubles) (h : Host k) (rounds : ℕ) (p : Process k e) where
  -- Before the `base_` pointers are patched, a `malloc` of a request below the threshold counts
  -- the request, then makes the four lookups, which patch all pointers, and enters `malloc`
  -- again, which counts the request a second time and, if it is below the threshold that the
  -- lookups left, goes to the underlying `malloc`. It is assumed that `dlsym` finds the
  -- functions, and leaves the flags and the pointers alone once the thread has started; it may
  -- change all else, the threshold too.
  pub malloc_unpatched :
      (fuel request : ℕ)
      → DlsymLaws k e h
      → request < p.sampler.state.bytes_until_next_sample
      → p.sampler.state.bytes_until_next_sample < 2 ^ 64
      → p.loader.base_malloc ≡ Target.dummy
      → p.loader.is_started ≡ false
      → p.loader.is_done ≡ false
      → let q = looked k e d h rounds (passed k e d h rounds p request) in
        request < q.sampler.state.bytes_until_next_sample
        → q.sampler.state.bytes_until_next_sample < 2 ^ 64
        → malloc k e d h rounds (suc (suc fuel)) request p ≡ (
            let r = h.malloc request q.tracker.os in
            done r.0 (record (passed k e d h rounds q request) {
              tracker = record q.tracker { os = r.1 };
              loader = patched;
            }))
  unfolding malloc sample_request
  malloc_unpatched fuel request laws less fits unpatched fresh undone less_again fits_again =
      let left = p.sampler.state.bytes_until_next_sample in
      let first : leb left request ≡ false = ground arith in
      let lowered : sub64 left request ≡ left - request = ground arith in
      let p1 = passed k e d h rounds p request in
      let go : (p1.loader.is_done || p1.loader.is_started) ≡ false = ground arith in
      rw (first, lowered)
        (base_malloc-unpatched k e d h rounds (malloc k e d h rounds (suc fuel)) request p1
            (looked k e d h rounds p1) unpatched (init_shim-looked k e d h rounds p1 laws go)
          ∙ malloc_regular k e d h rounds (looked k e d h rounds p1) fuel request less_again
              fits_again refl)

-- ===== src/Shim/ToTracked.antt =====
-- `realloc` of a regular allocation that is sampled: it becomes a tracked one.
use poireau.Prelude.{
  ℕ, suc, ◌+◌, ◌^◌, ◌≤◌, ◌<◌, ◌≡◌, refl, sym, ap, Bool, true, false, none, some, leb, ◌==◌, arith,
  List, inl, inr,
}
use mathlib.Core.Path.{subst}
use poireau.Word.{sub64}
use poireau.Exec.{Exec, done, pure, ◌>>◌}
use poireau.Exec.Returns
use poireau.Exec.Returns.{Returns, normally}
use poireau.Kernel.{Kernel, KernelLaws}
use poireau.Probe.{Probe}
use poireau.Sample.{Entropy, Doubles, SampleState, sample_request}
use poireau.Sample.Draw.{IsSeeded}
use poireau.Sample.Reset.{redraw, at_threshold, at_threshold-IsSeeded, sample_request_reset-redraw}
use poireau.TrackedAlloc.{Tracker, tracked_alloc_p, tracked_alloc_get, probe}
use poireau.TrackedAlloc.Pages.{pages}
use poireau.TrackedAlloc.Invariant.{view, IsValid}
use poireau.TrackedAlloc.Get.{Gets, tracked_alloc_get-IsValid}
use poireau.TrackedAlloc.Lookup.{tracked_alloc_p-view}
use poireau.Shim.{
  Host, Target, Process, realloc, sampled_realloc, move_to_tracked, safe_copy, base_free,
}
use poireau.Shim.Free.{probe-IsValid}
use poireau.Shim.Lift.{tracking_then, tracking-bind}
use poireau.Shim.Malloc.{resampled}
use poireau.Shim.Reading.{ReadLaws, Copied}
use poireau.Shim.Prefix.{safe_copy-Copied}
use poireau.Shim.MoveIn.{Owns, FreeLaws, IsReadable, Enters, can_read, moved-Enters}

module _ (k : Kernel) (laws : KernelLaws k) (e : Entropy) (d : Doubles) (h : Host k)
    (heap : ℕ → Bool) (read_laws : ReadLaws k h) (free_laws : FreeLaws k h heap) (rounds : ℕ) where
  abbrev Moved : (ptr request m : ℕ) → Process k e → ℕ → Process k e → Type 0
  Moved ptr request m p r q = Enters k ptr request m r p.tracker q.tracker × (q.sampler ≡ p.sampler)

  -- The copy and the release, behind a successful `tracked_alloc_get`.
  copy_and_free :
      (frees : ℕ → Exec (Process k e) (Unit {0})) (p : Process k e) (u : Tracker k)
      (probes : List Probe) (ptr request m ret id : ℕ)
      → IsValid k p.tracker
      → IsValid k u
      → Owns k heap p.tracker
      → 0 < request
      → ptr < 2 ^ 47
      → IsReadable k ptr request m p.tracker
      → Gets k request ret id p.tracker u
      → p.loader.base_free ≡ Target.real
      → Returns (Moved ptr request m p) (
          (do
            safe_copy k e d h rounds (suc request) ret ptr request
            base_free k e d h rounds frees ptr
            pure ret)
            (record p { tracker = record u { probes = probes } }))
  unfolding base_free
  copy_and_free frees p u probes ptr request m ret id valid_t valid_u owned pos below source g
        patched =
      let p1 : Process k e = record p { tracker = record u { probes = probes } } in
      Returns.bind
        (safe_copy-Copied k e d h read_laws rounds ret ptr request m (pages request) p1 (
          can_read k heap p.tracker u valid_t valid_u owned ptr request m ret id pos below source
            g))
        λ _ q ((os, same), filled).
          subst
            (λ w.
              Returns (Moved ptr request m p) ((do base_free k e d h rounds frees ptr; pure ret) w))
            (sym same)
            (rw patched (
              normally (
                moved-Enters k heap p.tracker u valid_t valid_u owned ptr request m ret id pos below
                    source g h free_laws os probes
                    (subst (λ w. Copied k ret ptr m (pages request) u.os w.tracker.os) same filled),
                refl,
              )))

  move-Enters :
      (frees : ℕ → Exec (Process k e) (Unit {0})) (p : Process k e) (ptr request m : ℕ)
      → IsValid k p.tracker
      → Owns k heap p.tracker
      → 0 < request
      → ptr < 2 ^ 47
      → IsReadable k ptr request m p.tracker
      → p.tracker.alloc_id_counter + 1 < 2 ^ 64
      → p.loader.base_free ≡ Target.real
      → Returns (Moved ptr request m p) (move_to_tracked k e d h rounds frees ptr request p)
  unfolding move_to_tracked probe
  move-Enters frees p ptr request m v owned pos below source room patched =
      tracking-bind k e d h rounds _ p (tracked_alloc_get k request)
        (tracked_alloc_get-IsValid k laws request p.tracker v pos room)
        λ (ret, id) u (valid, answer). elim answer [
          | inl refuses ↦
              let null : (ret == 0) ≡ true = ground (arith, refuses.null) in
              rw null (
                normally (
                  (probe-IsValid k _ valid, inl (refl, refuses.view_after, refuses.memory.byte)),
                  refl,
                ))
          | inr gets ↦
              let found : (ret == 0) ≡ false = ground (arith, gets.not_null) in
              rw found (
                copy_and_free frees p u _ ptr request m ret id v valid owned pos below source gets
                  patched)
        ]

  -- With a valid tracker whose counter is not at its end, a seeded generator, a redraw that
  -- succeeds, a patched `base_free`, the laws of `process_vm_readv` and of the underlying `free`,
  -- and an underlying allocator whose memory is mapped and holds no tracked allocation, `realloc`
  -- to at least one byte that reaches the threshold, of a pointer below 2 ^ 47 that is not NULL
  -- and no live tracked allocation, and whose first m bytes, to the end of a page or of the
  -- request, can be read, returns to a valid tracker, with the threshold redrawn: either NULL,
  -- and the live allocations and all bytes are as before, or a new tracked allocation of the
  -- request that begins with these m bytes, and all other live allocations stay, with their
  -- bytes.
  pub realloc_to_tracked :
      (fuel ptr request m : ℕ) (st : SampleState) (p : Process k e)
      → IsValid k p.tracker
      → Owns k heap p.tracker
      → p.sampler.state.bytes_until_next_sample ≤ request
      → 0 < request
      → 0 < ptr
      → ptr < 2 ^ 47
      → view k p.tracker ptr ≡ none
      → IsReadable k ptr request m p.tracker
      → p.tracker.alloc_id_counter + 1 < 2 ^ 64
      → p.loader.base_free ≡ Target.real
      → IsSeeded p.sampler.state
      → redraw e d rounds rounds
          (at_threshold e d p.sampler.state (sub64 p.sampler.state.bytes_until_next_sample request))
        ≡ some st
      → Returns
          (λ ret q. Enters k ptr request m ret p.tracker q.tracker × (q.sampler.state ≡ st))
          (realloc k e d h rounds (suc fuel) ptr request p)
  unfolding realloc sampled_realloc sample_request
  realloc_to_tracked fuel ptr request m st p v owned reached pos not_null below untracked source
        room patched seeded found =
      let entry : tracked_alloc_p k ptr p.tracker ≡ done false p.tracker =
        rw (tracked_alloc_p-view k p.tracker ptr v below, untracked) in
      let some_ptr : (ptr == 0) ≡ false = ground arith in
      let sampled : leb p.sampler.state.bytes_until_next_sample request ≡ true = ground arith in
      let st0 =
        at_threshold e d p.sampler.state (sub64 p.sampler.state.bytes_until_next_sample request) in
      let drawn =
        sample_request_reset-redraw e d rounds (record p.sampler { state = st0 })
          (at_threshold-IsSeeded e d p.sampler.state _ seeded) in
      let p' = resampled k e d h rounds p st in
      rw (sampled, drawn, found, some_ptr)
        (subst (Returns _)
          (sym (tracking_then k e d h rounds _ p' (tracked_alloc_p k ptr) false p.tracker entry))
          (Returns.weaken (move-Enters _ p' ptr request m v owned pos below source room patched)
            λ ret q (enters, same). (enters, ap (λ s. s.state) same)))

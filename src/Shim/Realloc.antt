-- ===== src/Shim/Realloc.antt =====
-- `realloc`: whom it asks.
use poireau.Prelude.{
  ℕ, suc, ◌-◌, ◌^◌, ◌<◌, ◌≡◌, ◌+◌, ◌≤◌, some, ap, true, false, none, leb, ◌==◌, arith, ◌∙◌,
}
use poireau.Word.{sub64}
use mathlib.Core.Path.{subst, sym}
use poireau.Exec.{done}
use poireau.Exec.Returns
use poireau.Exec.Returns.{Returns}
use poireau.Kernel.{Kernel, KernelLaws}
use poireau.Sample.{Entropy, Doubles, Sampler, SampleState, sample_request}
use poireau.Sample.Draw.{IsSeeded}
use poireau.Sample.Reset.{redraw, at_threshold, at_threshold-IsSeeded, sample_request_reset-redraw}
use poireau.TrackedAlloc.{TrackedAllocInfo, tracked_alloc_p}
use poireau.TrackedAlloc.Invariant.{view, IsValid}
use poireau.TrackedAlloc.Lookup.{tracked_alloc_p-view, view-IsLive}
use poireau.TrackedAlloc.Put.{live_below, live_sized}
use poireau.Shim.{Host, Target, Process, base_realloc, sampled_realloc, realloc}
use poireau.Shim.Malloc.{resampled}
use poireau.Shim.Contents.{CopyLaws, Reallocates}
use poireau.Shim.Move.{sampled_realloc_from_tracked-Reallocates}
use poireau.Shim.Lift.{tracking_then}
use poireau.Shim.Init.{passed}

module _ (k : Kernel) (e : Entropy) (d : Doubles) (h : Host k) (rounds : ℕ) (p : Process k e)
    (v : IsValid k p.tracker) where
  abbrev left : ℕ
  left = p.sampler.state.bytes_until_next_sample

  -- With a valid tracker and a patched `base_realloc`, a `realloc` below the threshold of a
  -- pointer that is no live tracked allocation, NULL included, goes to the underlying `realloc`,
  -- and lowers the threshold.
  pub realloc_regular :
      (fuel ptr request : ℕ)
      → request < left
      → left < 2 ^ 64
      → ptr < 2 ^ 47
      → view k p.tracker ptr ≡ none
      → p.loader.base_realloc ≡ Target.real
      → realloc k e d h rounds (suc fuel) ptr request p ≡ (
          let r = h.realloc ptr request p.tracker.os in
          done r.0
            (record (passed k e d h rounds p request) { tracker = record p.tracker { os = r.1 } }))
  unfolding realloc base_realloc sample_request
  realloc_regular fuel ptr request less fits below untracked patched =
      let regular : leb left request ≡ false = ground arith in
      let lowered : sub64 left request ≡ left - request = ground arith in
      let no_entry : tracked_alloc_p k ptr p.tracker ≡ done false p.tracker =
        rw (tracked_alloc_p-view k p.tracker ptr v below, untracked) in
      rw (regular, lowered)
        (tracking_then k e d h rounds _ (passed k e d h rounds p request) (tracked_alloc_p k ptr)
            false p.tracker no_entry
          ∙ rw patched)

module _ (k : Kernel) (laws : KernelLaws k) (e : Entropy) (d : Doubles) (h : Host k)
    (copy : CopyLaws k h) (rounds : ℕ) (p : Process k e) (v : IsValid k p.tracker) where
  -- With a valid tracker whose counter is not at its end, a seeded generator, a redraw that
  -- succeeds and the laws of `memcpy`, `realloc` of a live tracked allocation to at least one
  -- byte that reaches the threshold returns to a valid tracker, with the threshold redrawn:
  -- either NULL, and all allocations and the bytes of this one are as before, or an allocation of
  -- the new size whose first bytes, up to the smaller size, are the old ones; then the old
  -- pointer, unless it is the same, is live no more, and all others stay.
  pub realloc_tracked :
      (fuel ptr request : ℕ) (info : TrackedAllocInfo) (st : SampleState)
      → left k e d h rounds p v ≤ request
      → view k p.tracker ptr ≡ some info
      → 0 < request
      → request < 2 ^ 64
      → p.tracker.alloc_id_counter + 1 < 2 ^ 64
      → IsSeeded p.sampler.state
      → redraw e d rounds rounds
          (at_threshold e d p.sampler.state (sub64 p.sampler.state.bytes_until_next_sample request))
        ≡ some st
      → Returns
          (λ ret q. Reallocates k ptr ret request info p.tracker q.tracker × (q.sampler.state ≡ st))
          (realloc k e d h rounds (suc fuel) ptr request p)
  unfolding realloc sampled_realloc sample_request
  realloc_tracked fuel ptr request info st reached tracked pos fits room seeded found =
      let live = view-IsLive k p.tracker ptr info tracked in
      let below : ptr < 2 ^ 47 =
        omega
          (arith, live_below k p.tracker v ptr info live, live_sized k p.tracker v ptr info live) in
      let entry : tracked_alloc_p k ptr p.tracker ≡ done true p.tracker =
        rw (tracked_alloc_p-view k p.tracker ptr v below, tracked) in
      let not_null : (ptr == 0) ≡ false = ground (arith, live.not_null) in
      let sampled : leb (left k e d h rounds p v) request ≡ true = ground arith in
      let st0 =
        at_threshold e d p.sampler.state (sub64 p.sampler.state.bytes_until_next_sample request) in
      let m : Sampler e = record p.sampler { state = st0 } in
      let drawn =
        sample_request_reset-redraw e d rounds m
          (at_threshold-IsSeeded e d p.sampler.state _ seeded) in
      let p' = resampled k e d h rounds p st in
      rw (sampled, drawn, found, not_null)
        (subst (Returns _)
          (sym (tracking_then k e d h rounds _ p' (tracked_alloc_p k ptr) true p.tracker entry))
          (Returns.weaken
            (sampled_realloc_from_tracked-Reallocates k laws e d h copy rounds p' v ptr request info
              tracked pos fits room)
            λ ret q (moves, same). (moves, ap (λ s. s.state) same)))

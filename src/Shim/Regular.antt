-- ===== src/Shim/Regular.antt =====
-- `realloc` of a tracked allocation that is not sampled again: it becomes a regular one.
use poireau.Prelude.{
  ℕ, suc, ◌+◌, ◌-◌, ◌^◌, ◌<◌, ◌≡◌, refl, sym, Bool, true, false, some, leb, ◌==◌, arith, inl, inr,
  ℕ-cases,
}
use mathlib.Core.Path.{subst}
use poireau.Word.{sub64}
use poireau.Exec.{done}
use poireau.Exec.Returns.{Returns, normally}
use poireau.Kernel.{Kernel, KernelLaws}
use poireau.Sample.{Entropy, Doubles, sample_request}
use poireau.TrackedAlloc.{
  TrackedAllocInfo, tracked_alloc_p, tracked_alloc_info, tracked_alloc_put, probe,
}
use poireau.TrackedAlloc.Invariant.{view, IsValid}
use poireau.TrackedAlloc.Lookup.{view-IsLive, tracked_alloc_p-view, tracked_alloc_info-live}
use poireau.TrackedAlloc.Put.{live_below, live_sized}
use poireau.Shim.{Host, Target, Process, realloc, sampled_realloc_to_regular}
use poireau.Shim.Contents.{CopyLaws}
use poireau.Shim.Lift.{tracking_then, tracking-bind}
use poireau.Shim.Init.{passed}
use poireau.Shim.Malloc.{malloc_regular}
use poireau.Shim.Release.{
  HeapLaws, Outside, BecomesRegular, allocated-IsValid, null-BecomesRegular, put-Regular,
}

module _ (k : Kernel) (laws : KernelLaws k) (e : Entropy) (d : Doubles) (h : Host k)
    (heap : k.State → ℕ → Bool) (hosts : HeapLaws k h heap) (copy : CopyLaws k h) (rounds : ℕ)
    (p : Process k e) (v : IsValid k p.tracker) (outside : Outside k heap p.tracker) where
  abbrev left : ℕ
  left = p.sampler.state.bytes_until_next_sample

  -- The answer, and the bytes counted, twice.
  abbrev pub Regular : (ptr request : ℕ) → TrackedAllocInfo → ℕ → Process k e → Type 0
  Regular ptr request info ret q =
      (ret ≡ (h.malloc request p.tracker.os).0)
      × IsValid k q.tracker
      × BecomesRegular k ptr ret request info p.tracker q.tracker
      × (q.sampler.state.bytes_until_next_sample ≡ left - (request + request))

  -- With a valid tracker whose allocations lie outside the memory of the underlying allocator,
  -- the laws of `memcpy` and of the underlying `malloc`, and a patched `base_malloc`, `realloc`
  -- of a live tracked allocation with twice the request below the threshold returns what the
  -- underlying `malloc` answers, to a valid tracker: NULL, and all allocations and the bytes of
  -- this one are as before, or a block whose first bytes, up to the smaller size, are the old
  -- ones, and then the old pointer is live no more and all others stay. The threshold is lowered
  -- by twice the request.
  pub realloc_to_regular :
      (fuel ptr request : ℕ) (info : TrackedAllocInfo)
      → request + request < left
      → left < 2 ^ 64
      → p.loader.base_malloc ≡ Target.real
      → view k p.tracker ptr ≡ some info
      → Returns (Regular ptr request info) (realloc k e d h rounds (suc fuel) ptr request p)
  unfolding realloc sampled_realloc_to_regular sample_request probe
  realloc_to_regular fuel ptr request info less fits patched tracked =
      let live = view-IsLive k p.tracker ptr info tracked in
      let below : ptr < 2 ^ 47 =
        omega
          (arith, live_below k p.tracker v ptr info live, live_sized k p.tracker v ptr info live) in
      let first : leb left request ≡ false = ground arith in
      let lowered : sub64 left request ≡ left - request = ground arith in
      let twice : left - request - request ≡ left - (request + request) = omega arith in
      let entry : tracked_alloc_p k ptr p.tracker ≡ done true p.tracker =
        rw (tracked_alloc_p-view k p.tracker ptr v below, tracked) in
      let p1 = passed k e d h rounds p request in
      let found = tracked_alloc_info-live k p.tracker ptr info below live in
      let run = malloc_regular k e d h rounds p1 fuel request (omega arith) (omega arith) patched in
      rw (first, lowered)
        (subst (Returns _)
          (sym (tracking_then k e d h rounds _ p1 (tracked_alloc_p k ptr) true p.tracker entry))
          (subst (Returns _)
            (sym
              (tracking_then k e d h rounds _ p1 (tracked_alloc_info k ptr) info p.tracker found))
            (rw run (elim (ℕ-cases (h.malloc request p.tracker.os).0 0) [
              | inl null ↦
                  let test : ((h.malloc request p.tracker.os).0 == 0) ≡ true = ground arith in
                  rw test (
                    normally (
                      refl,
                      allocated-IsValid k h heap hosts copy p.tracker v outside ptr request info
                          tracked _,
                      null-BecomesRegular k h heap hosts copy p.tracker v outside ptr request info
                          tracked _ null,
                      twice,
                    ))
              | inr block ↦
                  let test : ((h.malloc request p.tracker.os).0 == 0) ≡ false = ground arith in
                  rw test (
                    tracking-bind k e d h rounds _ _ (tracked_alloc_put k ptr)
                      (put-Regular k h heap hosts copy p.tracker v outside ptr request info tracked
                        _ laws block)
                      λ _ q (valid, regular). normally (refl, valid, regular, twice))
            ]))))

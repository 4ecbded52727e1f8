-- ===== src/Shim/Move.antt =====
-- `realloc` of a tracked allocation that stays tracked: in place, or by a copy.
use poireau.Prelude.{
  ℕ, ◌+◌, ◌^◌, ◌<◌, ◌≡◌, ◌≢◌, refl, sym, ◌∙◌, true, false, some, ◌==◌, ◌||◌, arith, List, [], inl,
  inr, Bool-cases,
}
use mathlib.Core.Path.{subst}
use poireau.Exec.Returns
use poireau.Exec.Returns.{Returns, normally}
use poireau.Kernel.{Kernel, KernelLaws}
use poireau.Probe.{Probe}
use poireau.Sample.{Entropy, Doubles}
use poireau.TrackedAlloc.{
  Tracker, TrackedAllocInfo, tracked_alloc_info, tracked_alloc_resize, tracked_alloc_get,
  tracked_alloc_put, probe,
}
use poireau.TrackedAlloc.Invariant.{view, IsValid}
use poireau.TrackedAlloc.Get.{allocation, Gets, tracked_alloc_get-IsValid}
use poireau.TrackedAlloc.Lookup.{view-IsLive, tracked_alloc_info-live}
use poireau.TrackedAlloc.Resize.{Resizes, tracked_alloc_resize-Resizes}
use poireau.TrackedAlloc.Put.{Puts, tracked_alloc_put-Puts, live_below, live_sized}
use poireau.Shim.{Host, Process, sampled_realloc_from_tracked}
use poireau.Shim.Lift.{tracking_then, tracking-bind}
use poireau.Shim.Contents.{
  CopyLaws, CanCopy, Preserved, Moves, Reallocates, contents-IsValid, live_mapped, count, in_place,
  not_grown, chunks_disjoint,
}

module _ (k : Kernel) (h : Host k) (copy : CopyLaws k h) (t u w : Tracker k)
    (ptr request ret id : ℕ) (info : TrackedAllocInfo) (probes : List Probe) (valid_u : IsValid k u)
    (valid_w : IsValid k w) (tracked : view k u ptr ≡ some info) (pos : 0 < request)
    (g : Gets k request ret id u w) where
  abbrev n : ℕ
  n = count k info request

  -- After the copy into the new chunk.
  abbrev filled : Tracker k
  filled = record w { os = h.memcpy ret ptr n w.os; probes = probes }

  pub elsewhere : ret ≢ ptr
  elsewhere same = let old = tracked in let none_there = g.unused in absurd (cc)

  still_tracked : view k w ptr ≡ some info
  still_tracked = ground (arith, g.view_after ptr, elsewhere)

  newly_tracked : view k w ret ≡ some (allocation k id request)
  newly_tracked = ground (arith, g.view_after ret)

  can_copy : CanCopy k ret ptr n w.os
  can_copy = record {
    readable = λ i inside. live_mapped k w ptr info i valid_w still_tracked (ground arith);
    writable = λ i inside.
        live_mapped k w ret (allocation k id request) i valid_w newly_tracked (ground arith);
    disjoint = chunks_disjoint k u w ptr request ret id info valid_u tracked g pos;
  }

  filled-IsValid : IsValid k filled
  filled-IsValid = contents-IsValid k _ probes (λ x. copy.mapped ret ptr n w.os x can_copy) valid_w

  filled_tracked : view k filled ptr ≡ some info
  filled_tracked = still_tracked

  put-Moves :
      (q : Tracker k)
      → ((x : ℕ) → view k u x ≡ view k t x)
      → Preserved k ptr ptr info.size t u
      → IsValid k q
      → Puts k ptr info filled q
      → Moves k ptr ret id request info t q
  put-Moves q same_view same_bytes valid_q put = record {
    not_null = g.not_null;
    view_after = λ x. ground (arith, put.view_after x, g.view_after x, same_view x, elsewhere);
    contents = λ i inside.
        let kept : k.mapped q.os (ret + i) ≡ true =
          live_mapped k q ret (allocation k id request) i valid_q
            (ground (arith, put.view_after ret, newly_tracked, elsewhere)) (ground arith) in
        let old : k.mapped u.os (ptr + i) ≡ true =
          live_mapped k u ptr info i valid_u tracked (ground arith) in
        put.gone.byte (ret + i) kept
        ∙ copy.copied ret ptr n w.os i can_copy inside
        ∙ g.fresh.byte (ptr + i) old
        ∙ same_bytes i (ground arith);
  }

  -- The release of the old chunk ends the move.
  pub put-Reallocates :
      KernelLaws k
      → ((x : ℕ) → view k u x ≡ view k t x)
      → Preserved k ptr ptr info.size t u
      → Returns (λ _ q. Reallocates k ptr ret request info t q) (tracked_alloc_put k ptr filled)
  put-Reallocates laws same_view same_bytes =
      Returns.weaken (tracked_alloc_put-Puts k laws filled ptr info filled-IsValid filled_tracked)
        λ _ q (valid_q, put). (valid_q, inr (id, put-Moves q same_view same_bytes valid_q put))

module _ (k : Kernel) (laws : KernelLaws k) (e : Entropy) (d : Doubles) (h : Host k)
    (copy : CopyLaws k h) (rounds : ℕ) (p : Process k e) (v : IsValid k p.tracker) where
  -- With a valid tracker whose counter is not at its end and the laws of `memcpy`,
  -- `sampled_realloc_from_tracked` of a live allocation to at least one byte returns to a valid
  -- tracker, without a change of the sampler: either NULL, and all allocations and the bytes of
  -- this one are as before, or an allocation of the new size whose first bytes, up to the smaller
  -- size, are the old ones; then the old pointer, unless it is the same, is live no more, and all
  -- others stay.
  pub sampled_realloc_from_tracked-Reallocates :
      (ptr request : ℕ) (info : TrackedAllocInfo)
      → view k p.tracker ptr ≡ some info
      → 0 < request
      → request < 2 ^ 64
      → p.tracker.alloc_id_counter + 1 < 2 ^ 64
      → Returns
          (λ ret q.
            Reallocates k ptr ret request info p.tracker q.tracker × (q.sampler ≡ p.sampler))
          (sampled_realloc_from_tracked k e d h rounds ptr request p)
  unfolding sampled_realloc_from_tracked probe
  sampled_realloc_from_tracked-Reallocates ptr request info tracked pos fits room =
      let live = view-IsLive k p.tracker ptr info tracked in
      let below : ptr < 2 ^ 47 =
        omega
          (arith, live_below k p.tracker v ptr info live, live_sized k p.tracker v ptr info live) in
      subst (Returns _)
        (sym (
          tracking_then k e d h rounds _ p (tracked_alloc_info k ptr) info p.tracker
            (tracked_alloc_info-live k p.tracker ptr info below live)))
        (tracking-bind k e d h rounds _ p (tracked_alloc_resize k ptr request)
          (tracked_alloc_resize-Resizes k laws p.tracker ptr info request v tracked pos fits)
          λ r u (valid_u, resized). elim (Bool-cases r) [
            | inl grown ↦
                let r_true = subst (λ b. Resizes k ptr info request b p.tracker u) grown resized in
                let stays : (ptr == 0 || ptr == ptr) ≡ true = ground arith in
                rw (grown, stays)
                  (normally
                    (in_place k p.tracker u ptr request info _ valid_u tracked r_true, refl))
            | inr refused ↦
                let r_false =
                  subst (λ b. Resizes k ptr info request b p.tracker u) refused resized in
                let (same_view, same_bytes) =
                  not_grown k p.tracker u ptr request info valid_u tracked r_false in
                rw refused (
                  tracking-bind k e d h rounds _ _ (tracked_alloc_get k request)
                    (tracked_alloc_get-IsValid k laws request u valid_u pos
                      (ground (arith, resized.counter)))
                    λ (ret, id) w (valid_w, answer). elim answer [
                      | inl refuses ↦
                          let null : (ret == 0 || ret == ptr) ≡ true =
                            ground (arith, refuses.null) in
                          rw null (
                            normally (
                              (
                                contents-IsValid k w.os _ (λ x. refl) valid_w,
                                inl (record {
                                  null = refuses.null;
                                  view_after = λ q. refuses.view_after q ∙ same_view q;
                                  contents = λ i inside.
                                      refuses.memory.byte (ptr + i) ∙ same_bytes i inside;
                                }),
                              ),
                              refl,
                            ))
                      | inr gets ↦
                          let tracked_u = same_view ptr ∙ tracked in
                          let apart =
                            elsewhere k h copy p.tracker u w ptr request ret id info [] valid_u
                              valid_w tracked_u pos gets in
                          let moved : (ret == 0 || ret == ptr) ≡ false =
                            ground (arith, gets.not_null, apart) in
                          rw moved (
                            tracking-bind k e d h rounds _ _ (tracked_alloc_put k ptr)
                              (put-Reallocates k h copy p.tracker u w ptr request ret id info _
                                valid_u valid_w tracked_u pos gets laws same_view same_bytes)
                              λ _ q moves. normally (moves, refl))
                    ])
          ])

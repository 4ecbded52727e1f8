-- ===== src/Shim/Service/Frees.antt =====
-- `free` as a part of any history of calls.
use poireau.Prelude.{
  ℕ, suc, ◌^◌, ◌<◌, ◌≡◌, ◌⊎◌, inl, inr, true, false, none, some, sym, arith, Bool-cases,
}
use mathlib.Core.Path.{subst}
use poireau.Exec.{done}
use poireau.Exec.Returns.{Returns, normally}
use poireau.Kernel.{Kernel, KernelLaws}
use poireau.Sample.{Entropy, Doubles}
use poireau.TrackedAlloc.{Tracker, TrackedAllocInfo, tracked_alloc_p}
use poireau.TrackedAlloc.Invariant.{view}
use poireau.TrackedAlloc.Lookup.{tracked_alloc_p-view, view-IsLive}
use poireau.TrackedAlloc.Put.{live_below, live_sized}
use poireau.Shim.{Host, Process, free, sampled_free, traced_put}
use poireau.Shim.Free.{traced_put-Puts}
use poireau.Shim.Lift.{tracking_then, tracking-Returns}
use poireau.Shim.Service.{Bookkeeping, Ledger, Sound, HostLaws, IsRegular, IsTracked, IsFit, Frees}
use poireau.Shim.Service.Steps.{Since-refl, host-Since}
use poireau.Shim.Service.Tracked.{put-Since}
use poireau.Shim.Service.Given.{all-Owned, block_untracked}
use poireau.Shim.Service.Patched.{base_free-real}

module _ {k : Kernel} {own : Bookkeeping k} {l : Ledger} {t : Tracker k}
    (sound : Sound k own l t) where
  -- A pointer of the underlying allocator is none of the tracked ones.
  pub regular_untracked : (ptr : ℕ) → IsRegular k own l ptr → view k t ptr ≡ none
  regular_untracked ptr (inl null) = ground arith
  regular_untracked ptr (inr given) = block_untracked sound ptr given

  pub regular_low : (ptr : ℕ) → IsRegular k own l ptr → ptr < 2 ^ 47
  regular_low ptr (inl null) = omega arith
  regular_low ptr (inr given) = (sound.block_low ptr given).1

  pub tracked_low : (ptr : ℕ) → (info : TrackedAllocInfo) → view k t ptr ≡ some info → ptr < 2 ^ 47
  tracked_low ptr info tracked =
      let live = view-IsLive k t ptr info tracked in
      omega
        (arith, live_below k t sound.valid ptr info live, live_sized k t sound.valid ptr info live)

  pub lookup_regular : (ptr : ℕ) → IsRegular k own l ptr → tracked_alloc_p k ptr t ≡ done false t
  lookup_regular ptr regular = rw (
    tracked_alloc_p-view k t ptr sound.valid (regular_low ptr regular),
    regular_untracked ptr regular,
  )

  pub lookup_tracked :
      (ptr : ℕ) (info : TrackedAllocInfo)
      → view k t ptr ≡ some info
      → tracked_alloc_p k ptr t ≡ done true t
  lookup_tracked ptr info tracked =
      rw (tracked_alloc_p-view k t ptr sound.valid (tracked_low ptr info tracked), tracked)

  tracked_no_block :
      (ptr : ℕ) (info : TrackedAllocInfo) → view k t ptr ≡ some info → l.block ptr ≡ false
  tracked_no_block ptr info tracked = elim (Bool-cases (l.block ptr)) [
    | inr free ↦ free
    | inl given ↦ let none_there = block_untracked sound ptr given in absurd (cc)
  ]

module _ (k : Kernel) (own : Bookkeeping k) (laws : KernelLaws k) (e : Entropy) (d : Doubles)
    (h : Host k) (hosts : HostLaws k own h) (rounds : ℕ) (l : Ledger) where
  -- With those laws and from such a process, `free` of NULL, of a block or of a tracked
  -- allocation returns: the pointer is neither tracked nor a block any more, nothing else is
  -- lost, and the process is such a process again.
  pub free-Frees :
      (fuel ptr : ℕ) (p : Process k e)
      → Sound k own l p.tracker
      → IsFit k own e p
      → IsRegular k own l ptr ⊎ IsTracked k own p.tracker ptr
      → Returns (λ _ q. Frees k own e ptr l p.tracker q) (free k e d h rounds (suc fuel) ptr p)
  unfolding free sampled_free
  free-Frees fuel ptr p sound fit (inl regular) =
      let (l', changes, answers, gone) = hosts.free ptr l p.tracker.os (all-Owned sound) regular in
      subst (Returns _)
        (sym (
          tracking_then k e d h rounds _ p (tracked_alloc_p k ptr) false p.tracker
            (lookup_regular sound ptr regular)))
        (rw (base_free-real k e d h rounds (free k e d h rounds fuel) ptr p fit.ready.free) (
          normally (
            l',
            (
              host-Since k own ptr l l p.tracker p.tracker (Since-refl k own ptr l p.tracker sound)
                  l' _ p.tracker.probes changes answers.others,
              record { ready = fit.ready; seeded = fit.seeded },
            ),
            regular_untracked sound ptr regular,
            gone,
          )))
  free-Frees fuel ptr p sound fit (inr (info, tracked)) =
      subst (Returns _)
        (sym (
          tracking_then k e d h rounds _ p (tracked_alloc_p k ptr) true p.tracker
            (lookup_tracked sound ptr info tracked)))
        (tracking-Returns k e d h rounds p (traced_put k ptr)
          (traced_put-Puts k laws p.tracker ptr info sound.valid
            (tracked_low sound ptr info tracked) tracked)
          λ _ u (valid, put). (
            l,
            (
              put-Since k own ptr l l p.tracker p.tracker u (Since-refl k own ptr l p.tracker sound)
                  valid info tracked put,
              record { ready = fit.ready; seeded = fit.seeded },
            ),
            ground (arith, put.view_after ptr),
            tracked_no_block sound ptr info tracked,
          ))

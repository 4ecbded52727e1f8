-- ===== src/TrackedAlloc/Empty.antt =====
-- Allocations of no bytes, which the release path does not support: `aligned_munmap` then asks for
-- an empty `munmap`, which the kernel refuses, and the assertion on its result fails.
use poireau.Prelude.{
  ℕ, ◌-◌, ◌%◌, ◌^◌, ◌<◌, ◌≡◌, refl, true, false, some, arith, ◌==◌, bit_and, ltb, ap,
}
use poireau.Word.Align.{gigabyte_low}
use poireau.Exec.{Failure, failed}
use poireau.Exec.Returns
use poireau.Exec.Returns.{Returns, normally}
use poireau.Kernel.{Kernel, KernelLaws}
use poireau.TrackedAlloc.{
  Tracker, TrackedAllocInfo, table_size, tracking_alignment, tracked_alloc_put,
  tracked_alloc_resize, aligned_munmap, munmap_checked, store_size,
}
use poireau.TrackedAlloc.Pages.{round_to_page-eq-pages}
use poireau.TrackedAlloc.Invariant.{slot, view, IsValid}
use poireau.TrackedAlloc.Lookup.{IsLive, view-IsLive, tracked_alloc_info-live}
use poireau.TrackedAlloc.Put.{put_run, live_below, live_aligned, live_sized, live_named}
use poireau.TrackedAlloc.Resize.{resize_mapping-Trimmed}
use poireau.TrackedAlloc.Stores.{update_self}

module _ (k : Kernel) (laws : KernelLaws k) where
  aligned_munmap_empty :
      (p : ℕ) (t : Tracker k)
      → p % 2 ^ 30 ≡ 0
      → 0 < p
      → aligned_munmap k p 0 tracking_alignment t ≡ failed Failure.assertion
  unfolding aligned_munmap munmap_checked
  aligned_munmap_empty p t a b =
      let aligned : bit_and p (2 ^ 30 - 1) ≡ 0 = rw gigabyte_low a in
      let found : (p == 0) ≡ false = ground arith in
      rw (aligned, found, round_to_page-eq-pages 0 (omega arith), laws.munmap_empty p t.os)

  -- Giving back an entry of size 0 fails an assertion.
  put_empty :
      (t : Tracker k) (p id : ℕ)
      → IsLive k t p (record { id = id; size = 0 })
      → p < 2 ^ 47
      → p % 2 ^ 30 ≡ 0
      → 0 < id
      → tracked_alloc_put k p t ≡ failed Failure.assertion
  put_empty t p id live below aligned pos =
      rw (put_run k t p _ live below pos) (aligned_munmap_empty p _ aligned live.not_null)

  -- A live allocation of a valid tracker can be resized to 0 bytes, and giving it back afterwards
  -- fails an assertion.
  pub tracked_alloc_resize_zero-put :
      (t : Tracker k) (p : ℕ) (info : TrackedAllocInfo)
      → IsValid k t
      → view k t p ≡ some info
      → Returns
          (λ r u. (r ≡ true) × (tracked_alloc_put k p u ≡ failed Failure.assertion))
          (tracked_alloc_resize k p 0 t)
  unfolding tracked_alloc_resize store_size
  tracked_alloc_resize_zero-put t p info v h =
      let live = view-IsLive k t p info h in
      let below = live_below k t v p info live in
      let sized = live_sized k t v p info live in
      let pos = live_named k t v p info live in
      let mod1 = live_aligned k t v p info live in
      let aligned : p % 4096 ≡ 0 = omega arith in
      let e : (0 == info.size) ≡ false = ground arith in
      let inside : ltb (slot p) table_size ≡ true = ground arith in
      rw (tracked_alloc_info-live k t p info (omega arith) live) (
        rw e (
          Returns.bind
            (resize_mapping-Trimmed k laws t p info.size 0 aligned sized below (omega arith)
              (omega arith))
            λ r u (answer, cut, kept).
              let yes_it : r ≡ true = ground arith in
              rw yes_it (
                rw inside (
                  normally (
                    refl,
                    put_empty _ p (u.info_table (slot p)).id
                        (record {
                          not_null = live.not_null;
                          entry = ground (arith, live.entry, ap (λ f. f (slot p)) kept.table);
                          info_at = update_self u.info_table (slot p) _;
                        })
                        (omega arith) mod1
                        (ground (arith, live.info_at, ap (λ f. f (slot p)) kept.info)),
                  )))))

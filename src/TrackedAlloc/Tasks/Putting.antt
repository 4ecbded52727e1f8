-- ===== src/TrackedAlloc/Tasks/Putting.antt =====
-- The operations of `tracked_alloc_put`.
use poireau.Prelude.{ℕ, ◌≡◌, inl, inr, true, false, ◌==◌, arith, refl}
use poireau.Exec.Returns
use poireau.Exec.Returns.{Returns, normally}
use poireau.Kernel.{Kernel, KernelLaws}
use poireau.TrackedAlloc.{Tracker}
use poireau.TrackedAlloc.Pages.{pages}
use poireau.TrackedAlloc.Mapping.{aligned_munmap-Unmapping}
use poireau.TrackedAlloc.Invariant.{slot}
use poireau.TrackedAlloc.Tasks.{
  put_start, put_prev, put_entry, put_id, put_size, put_no_id, put_no_size, put_gone, advance,
}
use poireau.TrackedAlloc.Tasks.Own.{Own, Succeeds, slot_inside, loads, unmaps, writes, exchanges}

module _ (k : Kernel) where
  pub put_start-Succeeds :
      (t : Tracker k) (p : ℕ) → Own k t (put_start p) → Succeeds k t (put_start p)
  unfolding advance
  put_start-Succeeds t p o =
      rw (slot_inside p (omega (arith, o.locals.0)))
        (normally (loads k o (o.locals, o.locals.2) refl refl refl (ground arith)))

  pub put_prev-Succeeds :
      (t : Tracker k) (p prev : ℕ) → Own k t (put_prev p prev) → Succeeds k t (put_prev p prev)
  unfolding advance
  put_prev-Succeeds t p prev o =
      let found : (t.tracked_alloc_table (slot p) == p) ≡ true = ground (arith, o.locals.0.2) in
      rw (slot_inside p (omega (arith, o.locals.0.0)), found)
        (normally (loads k o o.locals refl refl refl (ground arith)))

  pub put_entry-Succeeds :
      (t : Tracker k) (p prev : ℕ) → Own k t (put_entry p prev) → Succeeds k t (put_entry p prev)
  unfolding advance
  put_entry-Succeeds t p prev o =
      rw (slot_inside p (omega (arith, o.locals.0.0)))
        (normally (loads k o (o.locals.0, o.locals.1, o.locals.0.1) refl refl refl (ground arith)))

  pub put_id-Succeeds :
      (t : Tracker k) (p prev id : ℕ) → Own k t (put_id p prev id) → Succeeds k t (put_id p prev id)
  unfolding advance
  put_id-Succeeds t p prev id o = rw (slot_inside p (omega (arith, o.locals.0.0))) (
      normally (
        loads k o (o.locals.0.0, o.locals.1, o.locals.2, o.locals.0.2) refl refl refl
          (ground arith)))

  pub put_size-Succeeds :
      (t : Tracker k) (p prev id size : ℕ)
      → Own k t (put_size p prev id size)
      → Succeeds k t (put_size p prev id size)
  unfolding advance
  put_size-Succeeds t p prev id size o =
      let (place, same, pos, listed) = o.locals in
      let found : (prev == p) ≡ true = ground arith in
      let named : (id == 0) ≡ false = ground arith in
      rw (found, named, slot_inside p (omega (arith, place)))
        (normally (writes k o _ (place, listed) refl refl refl (ground arith)))

  pub put_no_id-Succeeds :
      (t : Tracker k) (p size : ℕ) → Own k t (put_no_id p size) → Succeeds k t (put_no_id p size)
  unfolding advance
  put_no_id-Succeeds t p size o =
      rw (slot_inside p (omega (arith, o.locals.0)))
        (normally (writes k o _ o.locals refl refl refl (ground arith)))

  pub put_no_size-Succeeds :
      (t : Tracker k) (p size : ℕ)
      → Own k t (put_no_size p size)
      → Succeeds k t (put_no_size p size)
  unfolding advance
  put_no_size-Succeeds t p size o =
      let (place, listed) = o.locals in
      let found : (t.tracked_alloc_table (slot p) == p) ≡ true = ground (arith, listed) in
      rw (slot_inside p (omega (arith, place)), found)
        (normally
          (exchanges k o 0 place refl refl place.0 (inr refl) refl (inl refl) (ground arith)))

module _ (k : Kernel) (laws : KernelLaws k) where
  pub put_gone-Succeeds :
      (t : Tracker k) (p size : ℕ) → Own k t (put_gone p size) → Succeeds k t (put_gone p size)
  unfolding advance
  put_gone-Succeeds t p size o =
      let (aligned, not_null, sized, below) = o.locals in
      Returns.bind (aligned_munmap-Unmapping k laws p size t aligned not_null sized below)
        λ _ u (gone, same). normally (
          unmaps k o p (pages size) gone same tt (λ x cut. cut)
            (λ x none_left. absurd (ground arith)) refl (ground arith))

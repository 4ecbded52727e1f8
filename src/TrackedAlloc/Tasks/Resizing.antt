-- ===== src/TrackedAlloc/Tasks/Resizing.antt =====
-- The operations of `tracked_alloc_resize`.
use poireau.Prelude.{
  ℕ, ◌+◌, ◌-◌, ◌≡◌, inl, inr, true, false, leb, ◌==◌, arith, ℕ-cases, Bool-cases, refl, ap,
}
use poireau.Exec.Returns
use poireau.Exec.Returns.{Returns, normally}
use poireau.Kernel.{Kernel, KernelLaws}
use poireau.TrackedAlloc.{Tracker}
use poireau.TrackedAlloc.Pages.{pages}
use poireau.TrackedAlloc.Invariant.{slot}
use poireau.TrackedAlloc.Resize.{resize_mapping-Trimmed}
use poireau.TrackedAlloc.Tasks.{
  resize_start, resize_entry, resize_id, resize_size, resize_mapped, advance,
}
use poireau.TrackedAlloc.Tasks.Own.{Own, Succeeds, slot_inside, loads, unmaps, writes}

module _ (k : Kernel) where
  pub resize_start-Succeeds :
      (t : Tracker k) (p id request : ℕ)
      → Own k t (resize_start p id request)
      → Succeeds k t (resize_start p id request)
  unfolding advance
  resize_start-Succeeds t p id request o =
      let found : (t.tracked_alloc_table (slot p) == p) ≡ true = ground (arith, o.locals.0.2) in
      rw (slot_inside p (omega (arith, o.locals.0.0)), found)
        (normally (loads k o o.locals refl refl refl (ground arith)))

  pub resize_entry-Succeeds :
      (t : Tracker k) (p id request : ℕ)
      → Own k t (resize_entry p id request)
      → Succeeds k t (resize_entry p id request)
  unfolding advance
  resize_entry-Succeeds t p id request o =
      rw (slot_inside p (omega (arith, o.locals.0.0)))
        (normally (loads k o o.locals refl refl refl (ground arith)))

  pub resize_id-Succeeds :
      (t : Tracker k) (p id request : ℕ)
      → Own k t (resize_id p id request)
      → Succeeds k t (resize_id p id request)
  unfolding advance
  resize_id-Succeeds t p id request o =
      let (listed, named, pos, fits) = o.locals in
      rw (slot_inside p (omega (arith, listed.0)))
        (normally (loads k o (listed, named, pos, fits, refl) refl refl refl (ground arith)))

  pub resize_mapped-Succeeds :
      (t : Tracker k) (p id request : ℕ)
      → Own k t (resize_mapped p id request)
      → Succeeds k t (resize_mapped p id request)
  unfolding advance
  resize_mapped-Succeeds t p id request o =
      let (place, pos, named, listed) = o.locals in
      rw (slot_inside p (omega (arith, place))) (
        normally (
          writes k o _ ((ground arith, ground arith, ground arith), ground arith) refl
            (ground arith) refl (ground arith)))

module _ (k : Kernel) (laws : KernelLaws k) where
  pub resize_size-Succeeds :
      (t : Tracker k) (p id request size : ℕ)
      → Own k t (resize_size p id request size)
      → Succeeds k t (resize_size p id request size)
  unfolding advance
  resize_size-Succeeds t p id request size o =
      let (listed, named, pos, fits, loaded) = o.locals in
      let (aligned, not_null, sized, below) = listed.0 in
      elim (ℕ-cases request size) [
        | inl same ↦
            let test : (request == size) ≡ true = ground arith in
            rw test (normally (loads k o (listed, named) refl refl refl (ground arith)))
        | inr other ↦
            let test : (request == size) ≡ false = ground arith in
            rw test (
              Returns.bind
                (resize_mapping-Trimmed k laws t p size request (omega arith) (omega arith)
                  (rw loaded below) fits other)
                λ r u (answer, cut, kept).
                  let table = ap (λ f. f (slot p)) kept.table in
                  let info = ap (λ f. f (slot p)) kept.info in
                  elim (Bool-cases (leb (pages request) (pages size))) [
                    | inl fewer ↦
                        rw (answer, fewer)
                          (normally (
                            unmaps k o (p + pages request) (pages size - pages request) cut kept
                              (
                                (aligned, not_null, pos, ground arith),
                                ground arith,
                                ground arith,
                                ground arith,
                              )
                              (λ x inside. ground arith) (λ x rest. ground arith) refl
                              (ground arith)))
                    | inr more ↦
                        rw (answer, more)
                          (normally (
                            unmaps k o (p + pages request) (pages size - pages request) cut kept
                              ((ground arith, ground arith, ground arith), ground arith)
                              (λ x inside. ground arith) (λ x rest. ground arith) refl
                              (ground arith)))
                  ])
      ]

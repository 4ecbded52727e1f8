-- ===== src/TrackedAlloc/Invariant.antt =====
-- What the two tables mean: the abstract map from pointers to live allocations, and the invariant
-- of the tracker.
use poireau.Prelude.{
  ℕ, ◌+◌, ◌*◌, ◌/◌, ◌^◌, ◌≤◌, ◌<◌, ◌≡◌, ◌≢◌, true, false, Option, none, some, ◌==◌, within,
  if◌then◌else◌,
}
use poireau.Kernel.{Kernel}
use poireau.TrackedAlloc.{Tracker, TrackedAllocInfo}
use poireau.TrackedAlloc.Pages.{pages}

abbrev pub slot : ℕ → ℕ
slot p = p / 2 ^ 30

module _ (k : Kernel) where
  -- The allocation that starts at `p`, if there is one.
  abbrev pub view : Tracker k → ℕ → Option TrackedAllocInfo
  view t p =
      if p == 0
      then none
      else if t.tracked_alloc_table (slot p) == p
      then some (t.info_table (slot p))
      else none

  -- The number of bytes of the pages of slot `i`, and the end of its mapping.
  abbrev pub footprint : Tracker k → ℕ → ℕ
  footprint t i = pages (t.info_table i).size

  -- `i` and `j` name slots, and a slot is live if its entry is not 0.
  pub record IsValid (t : Tracker k) : Type 0 where
    pub counter_pos : 0 < t.alloc_id_counter
    pub counter_fits : t.alloc_id_counter < 2 ^ 64
    pub entry : (i : ℕ) → t.tracked_alloc_table i ≢ 0 → t.tracked_alloc_table i ≡ i * 2 ^ 30
    pub below :
        (i : ℕ) → t.tracked_alloc_table i ≢ 0 → t.tracked_alloc_table i + footprint t i ≤ 2 ^ 47
    pub sized : (i : ℕ) → t.tracked_alloc_table i ≢ 0 → 0 < (t.info_table i).size
    pub named : (i : ℕ) → t.tracked_alloc_table i ≢ 0 → 0 < (t.info_table i).id
    pub issued : (i : ℕ) → (t.info_table i).id < t.alloc_id_counter
    pub dead : (i : ℕ) → t.tracked_alloc_table i ≡ 0 → (t.info_table i).id ≡ 0
    pub distinct :
        (i j : ℕ) → 0 < (t.info_table i).id → (t.info_table i).id ≡ (t.info_table j).id → i ≡ j
    pub mapped :
        (i x : ℕ)
        → t.tracked_alloc_table i ≢ 0
        → within (t.tracked_alloc_table i) (footprint t i) x ≡ true
        → k.mapped t.os x ≡ true
    pub apart :
        (i j x : ℕ)
        → t.tracked_alloc_table i ≢ 0
        → t.tracked_alloc_table j ≢ 0
        → i ≢ j
        → within (t.tracked_alloc_table i) (footprint t i) x ≡ true
        → within (t.tracked_alloc_table j) (footprint t j) x ≡ false

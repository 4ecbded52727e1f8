-- ===== src/TrackedAlloc/Lookup.antt =====
-- `tracked_alloc_p` and `tracked_alloc_info`: reading the tables.
use poireau.Prelude.{ℕ, ◌^◌, ◌<◌, ◌≡◌, Bool, true, false, Option, none, some, arith, ◌==◌, ltb}
use poireau.Exec.{done}
use poireau.Kernel.{Kernel}
use poireau.TrackedAlloc.{
  Tracker, TrackedAllocInfo, table_size, tracked_alloc_p, tracked_alloc_info,
}
use poireau.TrackedAlloc.Invariant.{slot, view, IsValid}

abbrev pub is_some {ℓ} : {A : Type ℓ} → Option A → Bool
is_some none = false
is_some (some _) = true

module _ (k : Kernel) (t : Tracker k) where
  -- In a valid tracker, `tracked_alloc_p` on any address below 2 ^ 47 says exactly whether the
  -- address starts a live allocation, without a fault, and changes nothing.
  pub tracked_alloc_p-view :
      (p : ℕ) → IsValid k t → p < 2 ^ 47 → tracked_alloc_p k p t ≡ done (is_some (view k t p)) t
  unfolding tracked_alloc_p
  tracked_alloc_p-view p v h = ground (arith, v.entry (slot p))

  -- What a live pointer says of its entry.
  pub record IsLive (p : ℕ) (info : TrackedAllocInfo) : Type 0 where
    pub not_null : 0 < p
    pub entry : t.tracked_alloc_table (slot p) ≡ p
    pub info_at : t.info_table (slot p) ≡ info

  pub view-IsLive : (p : ℕ) (info : TrackedAllocInfo) → view k t p ≡ some info → IsLive p info
  view-IsLive p info h = record {
    not_null = ground arith;
    entry = ground arith;
    info_at = ground arith;
  }

  pub tracked_alloc_info-live :
      (p : ℕ) (info : TrackedAllocInfo)
      → p < 2 ^ 47
      → IsLive p info
      → tracked_alloc_info k p t ≡ done info t
  unfolding tracked_alloc_info
  tracked_alloc_info-live p info h live =
      let inside : ltb (slot p) table_size ≡ true = ground arith in
      let same : (p == p) ≡ true = ground arith in rw (inside, live.entry, same, live.info_at)

-- ===== src/Shim/MoveIn.antt =====
-- A regular allocation that becomes a tracked one: the memory before, in between and afterwards.
use poireau.Prelude.{
  ℕ, ◌+◌, ◌-◌, ◌%◌, ◌^◌, ◌≤◌, ◌<◌, ◌≡◌, ◌≢◌, ◌⊎◌, ◌∙◌, Bool, true, false, some, leb, ltb, ◌==◌,
  if◌then◌else◌, arith, List, inl, inr, within, Bool-cases, ℕ-cases,
}
use poireau.Kernel.{Kernel}
use poireau.Probe.{Probe}
use poireau.TrackedAlloc.{Tracker, TrackedAllocInfo}
use poireau.TrackedAlloc.Pages.{pages}
use poireau.TrackedAlloc.Invariant.{slot, view, footprint, IsValid}
use poireau.TrackedAlloc.Get.{allocation, Gets}
use poireau.Shim.{Host}
use poireau.Shim.Contents.{live_mapped}
use poireau.Shim.Release.{kept-IsValid}
use poireau.Shim.Reading.{CanRead, Copied}

module _ (k : Kernel) where
  -- The memory of the underlying allocator, which is mapped and has no tracked allocation in it.
  pub record Owns (heap : ℕ → Bool) (t : Tracker k) : Type 0 where
    pub mapped : (x : ℕ) → heap x ≡ true → k.mapped t.os x ≡ true
    pub untracked :
        (q i : ℕ) (info : TrackedAllocInfo)
        → view k t q ≡ some info
        → i < pages info.size
        → heap (q + i) ≡ false

  -- The underlying `free` changes nothing else.
  pub record FreeLaws (h : Host k) (heap : ℕ → Bool) : Type 0 where
    pub mapped :
        (ptr : ℕ) (s : k.State) (x : ℕ) → heap x ≡ false → k.mapped (h.free ptr s) x ≡ k.mapped s x
    pub byte :
        (ptr : ℕ) (s : k.State) (x : ℕ) → heap x ≡ false → k.byte (h.free ptr s) x ≡ k.byte s x

  -- The first `m` bytes at `ptr` can be read, to the end of a page or of the request.
  pub record IsReadable (ptr request m : ℕ) (t : Tracker k) : Type 0 where
    pub some_bytes : 0 < m
    pub within_request : m ≤ request
    pub boundary : (m ≡ request) ⊎ ((ptr + m) % 4096 ≡ 0)
    pub source : (i : ℕ) → i < m → k.mapped t.os (ptr + i) ≡ true

  -- A new allocation at `ret`, with the first `m` bytes of `ptr`, beside all others.
  pub record MovesIn (ptr ret id request m : ℕ) (before after : Tracker k) : Type 0 where
    pub view_after :
        (q : ℕ)
        → view k after q ≡ (if ret == q then some (allocation k id request) else view k before q)
    pub contents : (i : ℕ) → i < m → k.byte after.os (ret + i) ≡ k.byte before.os (ptr + i)
    pub others :
        (q i : ℕ) (info : TrackedAllocInfo)
        → view k before q ≡ some info
        → i < pages info.size
        → k.byte after.os (q + i) ≡ k.byte before.os (q + i)

  -- NULL, and all is as it was; or the new allocation.
  abbrev pub Enters : (ptr request m ret : ℕ) → (before after : Tracker k) → Type 0
  Enters ptr request m ret before after =
      IsValid k after
      × (((ret ≡ 0)
            × ((q : ℕ) → view k after q ≡ view k before q)
            × ((x : ℕ) → k.byte after.os x ≡ k.byte before.os x))
          ⊎ ((0 < ret) × ((id : ℕ) × MovesIn ptr ret id request m before after)))

module _ (k : Kernel) (heap : ℕ → Bool) (t u : Tracker k) (valid_t : IsValid k t)
    (valid_u : IsValid k u) (owned : Owns k heap t) (ptr request m ret id : ℕ) (pos : 0 < request)
    (below : ptr < 2 ^ 47) (source : IsReadable k ptr request m t)
    (g : Gets k request ret id t u) where
  -- The chunk is behind an address that is not mapped, and the source is.
  in_front_or_behind :
      (ret + pages request ≤ ptr) ⊎ ((ptr + m < ret) × (k.mapped u.os (ret - 1) ≡ false))
  in_front_or_behind = elim (Bool-cases (leb (ret + pages request) ptr)) [
    | inl behind ↦ inl (ground arith)
    | inr not_behind ↦
        let here : ptr + 0 ≡ ptr = omega arith in
        let first : k.mapped t.os ptr ≡ true = rw here at (source.source 0 source.some_bytes) in
        let outside : ptr < ret = ground (arith, g.fresh.free ptr) in
        let gap_after : k.mapped u.os (ret - 1) ≡ false =
          ground (arith, g.fresh.mapped (ret - 1), g.gap) in
        elim (Bool-cases (ltb (ptr + m) ret)) [
          | inl clear ↦ inr (ground arith, gap_after)
          | inr across ↦
              let j = ret - 1 - ptr in
              let at : ptr + j ≡ ret - 1 = omega arith in
              let there : k.mapped t.os (ret - 1) ≡ true =
                rw at at (source.source j (ground arith)) in
              let gap = g.gap in absurd (ground arith)
        ]
  ]

  pub can_read : CanRead k ret ptr request m (pages request) u.os
  can_read = record {
    dst_below = omega (arith, g.below);
    src_below = omega (arith, g.below);
    enough = omega arith;
    page = omega arith;
    prefix = source.within_request;
    boundary = source.boundary;
    source = λ i inside. ground (arith, g.fresh.mapped (ptr + i), source.source i inside);
    writable = λ i inside. ground (arith, g.fresh.mapped (ret + i));
    disjoint = in_front_or_behind;
  }

  -- The chunk has no byte of the underlying allocator's.
  chunk_untracked : (i : ℕ) → i < pages request → heap (ret + i) ≡ false
  chunk_untracked i inside = ground (arith, owned.mapped (ret + i), g.fresh.free (ret + i))

  untracked_after :
      (q i : ℕ) (info : TrackedAllocInfo)
      → view k u q ≡ some info
      → i < pages info.size
      → heap (q + i) ≡ false
  untracked_after q i info tracked inside = elim (ℕ-cases ret q) [
    | inl same ↦
        let new : some (allocation k id request) ≡ some info = ground (arith, g.view_after q) in
        let size : request ≡ info.size = ground (arith, new) in
        rw (← same) (chunk_untracked i (ground arith))
    | inr other ↦ owned.untracked q i info (ground (arith, g.view_after q)) inside
  ]

  slot_untracked :
      (i x : ℕ)
      → u.tracked_alloc_table i ≢ 0
      → within (u.tracked_alloc_table i) (footprint k u i) x ≡ true
      → heap x ≡ false
  slot_untracked i x live inside =
      let q = u.tracked_alloc_table i in
      let at_slot : slot q ≡ i = omega (arith, valid_u.entry i live) in
      let tracked : view k u q ≡ some (u.info_table i) = rw at_slot (ground arith) in
      let at : q + (x - q) ≡ x = ground arith in
      rw at at (untracked_after q (x - q) (u.info_table i) tracked (ground arith))

  module _ (h : Host k) (free_laws : FreeLaws k h heap) (os : k.State) (probes : List Probe)
      (filled : Copied k ret ptr m (pages request) u.os os) where
    -- After the copy and the release of the regular allocation.
    abbrev pub moved : Tracker k
    moved = record u { os = h.free ptr os; probes = probes }

    moved-IsValid : IsValid k moved
    moved-IsValid =
        kept-IsValid k _ probes
          (λ i x live inside.
            free_laws.mapped ptr os x (slot_untracked i x live inside)
            ∙ filled.mapped x
            ∙ valid_u.mapped i x live inside)
          valid_u

    moved-MovesIn : MovesIn k ptr ret id request m t moved
    moved-MovesIn = record {
      view_after = g.view_after;
      contents = λ i inside.
          free_laws.byte ptr os (ret + i) (chunk_untracked i (omega (arith, source.within_request)))
          ∙ filled.bytes i inside
          ∙ g.fresh.byte (ptr + i) (source.source i inside);
      others = λ q i info tracked inside.
          let live : k.mapped t.os (q + i) ≡ true =
            live_mapped k t q info i valid_t tracked inside in
          free_laws.byte ptr os (q + i) (owned.untracked q i info tracked inside)
          ∙ filled.outside (q + i) (ground (arith, g.fresh.free (q + i)))
          ∙ g.fresh.byte (q + i) live;
    }

    pub moved-Enters : Enters k ptr request m ret t moved
    moved-Enters = (moved-IsValid, inr (g.not_null, (id, moved-MovesIn)))

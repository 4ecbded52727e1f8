-- ===== src/TrackedAlloc/Get.antt =====
-- `tracked_alloc_get`: a new allocation.
use poireau.Prelude.{
  ℕ, ◌+◌, ◌-◌, ◌%◌, ◌^◌, ◌≤◌, ◌<◌, ◌≡◌, ◌≢◌, ◌⊎◌, inl, inr, refl, true, false, none, some, List,
  arith, ◌==◌, if◌then◌else◌, ltb, ℕ-cases, update, within,
}
use mathlib.Core.Path.{subst, sym}
use poireau.Exec.{done, pure}
use poireau.Exec.Returns
use poireau.Exec.Returns.{Returns, normally}
use poireau.Kernel.{Kernel, KernelLaws, SameMemory, FreshMapping}
use poireau.TrackedAlloc.{Tracker, TrackedAllocInfo, table_size, tracked_alloc_get, publish}
use poireau.Word.{add64}
use poireau.Probe.{Probe}
use poireau.TrackedAlloc.Pages.{pages}
use poireau.TrackedAlloc.Mapping.{Placed, Placed-tables, SameTables-eq, aligned_mmap-Placed}
use poireau.TrackedAlloc.Invariant.{slot, view, footprint, IsValid}
use poireau.TrackedAlloc.Stores.{store_both}

module _ (k : Kernel) where
  abbrev pub allocation : ℕ → ℕ → TrackedAllocInfo
  allocation id size = record { id = id; size = size }

  -- `t` over the kernel state `os`, with the next identifier given to `p`.
  abbrev enter : Tracker k → k.State → List Probe → (p size : ℕ) → Tracker k
  enter t os probes p size = record {
    os = os;
    alloc_id_counter = t.alloc_id_counter + 1;
    tracked_alloc_table = update t.tracked_alloc_table (slot p) p;
    info_table = update t.info_table (slot p) (allocation t.alloc_id_counter size);
    probes = probes;
  }

  -- `tracked_alloc_get` returned NULL: only an identifier is used up.
  pub record Refuses (p id : ℕ) (before after : Tracker k) : Type 0 where
    pub null : p ≡ 0
    pub no_id : id ≡ 0
    pub counter : after.alloc_id_counter ≡ before.alloc_id_counter + 1
    pub memory : SameMemory k before.os after.os
    pub view_after : (q : ℕ) → view k after q ≡ view k before q

  -- `tracked_alloc_get` gave out `p` under the next identifier.
  pub record Gets (request p id : ℕ) (before after : Tracker k) : Type 0 where
    pub next_id : id ≡ before.alloc_id_counter
    pub counter : after.alloc_id_counter ≡ before.alloc_id_counter + 1
    pub aligned : p % 2 ^ 30 ≡ 0
    pub not_null : 0 < p
    pub below : p + pages request ≤ 2 ^ 47
    pub gap : k.mapped before.os (p - 1) ≡ false
    pub unused : view k before p ≡ none
    pub fresh : FreshMapping k p (pages request) before.os after.os
    pub view_after :
        (q : ℕ)
        → view k after q ≡ (if p == q then some (allocation id request) else view k before q)

  -- A pointer with its identifier, in a valid tracker, or a refusal.
  abbrev pub Answer : Tracker k → (request : ℕ) → ℕ × ℕ → Tracker k → Type 0
  Answer t request (p, id) u = IsValid k u × (Refuses p id t u ⊎ Gets request p id t u)

module _ (k : Kernel) (t : Tracker k) (v : IsValid k t) (os : k.State) (probes : List Probe)
    (p size : ℕ) (pos : 0 < size) (aligned : p % 2 ^ 30 ≡ 0) (not_null : 0 < p)
    (below : p + pages size ≤ 2 ^ 47) (fresh : FreshMapping k p (pages size) t.os os) where
  -- A live slot is mapped, so the fresh chunk has no byte in common with it.
  disjoint :
      (i x : ℕ)
      → t.tracked_alloc_table i ≢ 0
      → within (t.tracked_alloc_table i) (footprint k t i) x ≡ true
      → within p (pages size) x ≡ false
  disjoint i x live h = ground (arith, v.mapped i x live h, fresh.free x)

  unused_slot : t.tracked_alloc_table (slot p) ≡ 0
  unused_slot = elim (ℕ-cases (t.tracked_alloc_table (slot p)) 0) [
    | inl e ↦ e
    | inr live ↦
        absurd
          (ground (arith, disjoint (slot p) p live, v.entry (slot p) live, v.sized (slot p) live))
  ]

  enter-IsValid : (t.alloc_id_counter + 1 < 2 ^ 64) → IsValid k (enter k t os probes p size)
  enter-IsValid room = record {
    counter_pos = omega arith;
    counter_fits = room;
    entry = λ i. ground (arith, v.entry i);
    below = λ i. ground (arith, v.below i);
    sized = λ i. ground (arith, v.sized i);
    named = λ i. ground (arith, v.named i, v.counter_pos);
    issued = λ i. ground (arith, v.issued i);
    dead = λ i. ground (arith, v.dead i);
    distinct = λ i j. ground (arith, v.distinct i j, v.issued i, v.issued j);
    mapped = λ i x. ground (arith, v.mapped i x, fresh.mapped x);
    apart = λ i j x. ground (arith, v.apart i j x, disjoint i x, disjoint j x);
  }

  enter-Gets :
      k.mapped t.os (p - 1) ≡ false
      → Gets k size p t.alloc_id_counter t (enter k t os probes p size)
  enter-Gets free_before = record {
    next_id = refl;
    counter = refl;
    aligned = aligned;
    not_null = not_null;
    below = below;
    gap = free_before;
    unused = ground (arith, unused_slot);
    fresh = fresh;
    view_after = λ q. ground (arith, unused_slot, v.entry (slot q));
  }

  -- What `publish` does with the fresh chunk.
  publish_run :
      publish k p t.alloc_id_counter size
        (record t { os = os; alloc_id_counter = t.alloc_id_counter + 1; probes = probes })
      ≡ done (p, t.alloc_id_counter) (enter k t os probes p size)
  unfolding publish
  publish_run =
      let inside : ltb (slot p) table_size ≡ true = ground arith in
      let in_range : slot p < table_size = omega arith in
      rw (store_both k (slot p) t.alloc_id_counter size _ _ in_range) (rw (inside, unused_slot))

module _ (k : Kernel) (t : Tracker k) (v : IsValid k t) where
  -- A refusal uses up an identifier.
  refuse-IsValid :
      (os : k.State) (probes : List Probe)
      → SameMemory k t.os os
      → t.alloc_id_counter + 1 < 2 ^ 64
      → IsValid k (record t { os = os; alloc_id_counter = t.alloc_id_counter + 1; probes = probes })
  refuse-IsValid os probes same room = record {
    counter_pos = omega arith;
    counter_fits = room;
    entry = v.entry;
    below = v.below;
    sized = v.sized;
    named = v.named;
    issued = λ i. ground (arith, v.issued i);
    dead = v.dead;
    distinct = v.distinct;
    mapped = λ i x live h. rw same.mapped (v.mapped i x live h);
    apart = v.apart;
  }

  Answer-Placed :
      (request p : ℕ) (os : k.State) (probes : List Probe)
      → 0 < request
      → t.alloc_id_counter + 1 < 2 ^ 64
      → let start : Tracker k = record t { alloc_id_counter = t.alloc_id_counter + 1 } in
        let u : Tracker k = record start { os = os; probes = probes } in
        Placed k request p start u
        → Returns
            (Answer k t request)
            ((if p == 0 then pure (0, 0) else publish k p t.alloc_id_counter request) u)
  Answer-Placed request p os probes pos room (inl (null, same, _)) = rw null (
      normally (
        refuse-IsValid os probes same room,
        inl (record {
          null = refl;
          no_id = refl;
          counter = refl;
          memory = same;
          view_after = λ q. refl;
        }),
      ))
  Answer-Placed request p os probes pos room (inr c) =
      let found : (p == 0) ≡ false = ground (arith, c.not_null) in
      let run = publish_run k t v os probes p request pos c.aligned c.not_null c.below c.fresh in
      rw (found, run)
        (normally (
          enter-IsValid k t v os probes p request pos c.aligned c.not_null c.below c.fresh room,
          inr (enter-Gets k t v os probes p request pos c.aligned c.not_null c.below c.fresh c.gap),
        ))

module _ (k : Kernel) (laws : KernelLaws k) where
  -- From a valid tracker whose counter is not at its end, `tracked_alloc_get` of at least one
  -- byte always returns to a valid tracker: either NULL, and the memory and the live allocations
  -- are as before, or a multiple of 1 GB with the next identifier, over pages that were free
  -- before and are zero, behind an address that was free too, and it becomes the one new live
  -- allocation.
  pub tracked_alloc_get-IsValid :
      (request : ℕ) (t : Tracker k) (v : IsValid k t)
      → 0 < request
      → t.alloc_id_counter + 1 < 2 ^ 64
      → Returns (Answer k t request) (tracked_alloc_get k request t)
  unfolding tracked_alloc_get
  tracked_alloc_get-IsValid request t v pos room =
      let id = t.alloc_id_counter in
      let next : add64 id 1 ≡ id + 1 = omega arith in
      let start : Tracker k = record t { alloc_id_counter = id + 1 } in
      rw next (
        Returns.bind (aligned_mmap-Placed k laws id request start) λ p u placed.
          let e = SameTables-eq k (Placed-tables k request p placed) in
          subst
            (λ w.
              Returns (Answer k t request)
                ((if p == 0 then pure (0, 0) else publish k p id request) w))
            (sym e)
            (Answer-Placed k t v request p u.os u.probes pos room
              (subst (λ w. Placed k request p start w) e placed)))

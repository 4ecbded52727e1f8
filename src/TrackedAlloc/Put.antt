-- ===== src/TrackedAlloc/Put.antt =====
-- `tracked_alloc_put`: a live allocation is given back; anything else stops the process.
use poireau.Prelude.{
  ℕ, ◌+◌, ◌%◌, ◌^◌, ◌≤◌, ◌<◌, ◌≡◌, ◌≢◌, refl, true, false, none, some, List, arith, ◌==◌,
  if◌then◌else◌, ltb, update, sym,
}
use mathlib.Core.Path.{subst}
use poireau.Probe.{Probe}
use poireau.Exec.{Failure, failed}
use poireau.Exec.Returns
use poireau.Exec.Returns.{Returns, normally}
use poireau.Kernel.{Kernel, KernelLaws, Unmapping}
use poireau.TrackedAlloc.{
  Tracker, TrackedAllocInfo, table_size, tracking_alignment, tracked_alloc_put, tracked_alloc_info,
  retire, aligned_munmap,
}
use poireau.TrackedAlloc.Pages.{pages}
use poireau.TrackedAlloc.Mapping.{SameTables-eq, aligned_munmap-Unmapping}
use poireau.TrackedAlloc.Invariant.{slot, view, footprint, IsValid}
use poireau.TrackedAlloc.Lookup.{IsLive, view-IsLive, tracked_alloc_info-live}
use poireau.TrackedAlloc.Stores.{store_both}

module _ (k : Kernel) where
  -- `p` was given back: its pages are gone and it is no live pointer any more.
  pub record Puts (p : ℕ) (info : TrackedAllocInfo) (before after : Tracker k) : Type 0 where
    pub gone : Unmapping k p (pages info.size) before.os after.os
    pub counter : after.alloc_id_counter ≡ before.alloc_id_counter
    pub view_after : (q : ℕ) → view k after q ≡ (if p == q then none else view k before q)

  -- `t` over the kernel state `os`, with the entry of `p` cleared.
  abbrev clear : Tracker k → k.State → List Probe → ℕ → Tracker k
  clear t os probes p = record t {
    os = os;
    tracked_alloc_table = update t.tracked_alloc_table (slot p) 0;
    info_table = update t.info_table (slot p) (record { id = 0; size = 0 });
    probes = probes;
  }

module _ (k : Kernel) (t : Tracker k) (v : IsValid k t) (p : ℕ) (info : TrackedAllocInfo)
    (live : IsLive k t p info) where
  live_slot : t.tracked_alloc_table (slot p) ≢ 0
  live_slot = ground (arith, live.entry, live.not_null)

  pub live_footprint : footprint k t (slot p) ≡ pages info.size
  live_footprint = rw live.info_at

  pub live_below : p + pages info.size ≤ 2 ^ 47
  live_below = ground (arith, v.below (slot p), live_slot, live.entry, live_footprint)

  pub live_aligned : p % 2 ^ 30 ≡ 0
  live_aligned = omega (arith, v.entry (slot p) live_slot, live.entry)

  pub live_sized : 0 < info.size
  live_sized = ground (arith, v.sized (slot p) live_slot, live.info_at)

  pub live_named : 0 < info.id
  live_named = ground (arith, v.named (slot p) live_slot, live.info_at)

  clear-IsValid :
      (os : k.State) (probes : List Probe)
      → Unmapping k p (pages info.size) t.os os
      → IsValid k (clear k t os probes p)
  clear-IsValid os probes gone = record {
    counter_pos = v.counter_pos;
    counter_fits = v.counter_fits;
    entry = λ i. ground (arith, v.entry i);
    below = λ i. ground (arith, v.below i);
    sized = λ i. ground (arith, v.sized i);
    named = λ i. ground (arith, v.named i);
    issued = λ i. ground (arith, v.issued i, v.counter_pos);
    dead = λ i. ground (arith, v.dead i);
    distinct = λ i j. ground (arith, v.distinct i j);
    mapped = λ i x. ground (
      arith,
      v.mapped i x,
      gone.mapped x,
      v.apart i (slot p) x,
      live_slot,
      live.entry,
      live_footprint,
    );
    apart = λ i j x. ground (arith, v.apart i j x);
  }

  clear-Puts :
      (os : k.State) (probes : List Probe)
      → Unmapping k p (pages info.size) t.os os
      → Puts k p info t (clear k t os probes p)
  clear-Puts os probes gone = record {
    gone = gone;
    counter = refl;
    view_after = λ q. ground (arith, live.entry, live.not_null, v.entry (slot q), live_aligned);
  }

module _ (k : Kernel) where
  -- The tables are cleared before the pages are given back.
  retire_run :
      (t : Tracker k) (p size : ℕ)
      → t.tracked_alloc_table (slot p) ≡ p
      → p < 2 ^ 47
      → retire k p size t ≡ aligned_munmap k p size tracking_alignment (clear k t t.os t.probes p)
  unfolding retire
  retire_run t p size entry below =
      let in_range : slot p < table_size = omega arith in
      let inside : ltb (slot p) table_size ≡ true = ground arith in
      let same : (p == p) ≡ true = ground arith in
      rw (store_both k (slot p) 0 0 _ t in_range) (rw (inside, entry, same))

  pub put_run :
      (t : Tracker k) (p : ℕ) (info : TrackedAllocInfo)
      → IsLive k t p info
      → p < 2 ^ 47
      → 0 < info.id
      → tracked_alloc_put k p t
        ≡ aligned_munmap k p info.size tracking_alignment (clear k t t.os t.probes p)
  unfolding tracked_alloc_put
  put_run t p info live below pos =
      let inside : ltb (slot p) table_size ≡ true = ground arith in
      let same : (p == p) ≡ true = ground arith in
      let named : (info.id == 0) ≡ false = ground arith in
      rw (inside, tracked_alloc_info-live k t p info below live, live.entry, same, named)
        (retire_run t p info.size live.entry below)

  -- Freeing an address below 2 ^ 47 that is not a live allocation of a valid tracker (a second
  -- `free`, or a pointer that was never given out, NULL included) fails an assertion.
  pub tracked_alloc_put_invalid :
      (t : Tracker k) (p : ℕ)
      → IsValid k t
      → p < 2 ^ 47
      → view k t p ≡ none
      → tracked_alloc_put k p t ≡ failed Failure.assertion
  unfolding tracked_alloc_put tracked_alloc_info
  tracked_alloc_put_invalid t p v below h = ground (arith, v.entry (slot p), v.dead (slot p))

module _ (k : Kernel) (laws : KernelLaws k) where
  abbrev Answer : Tracker k → ℕ → TrackedAllocInfo → Tracker k → Type 0
  Answer t p info u = IsValid k u × Puts k p info t u

  -- Giving back a live allocation of a valid tracker returns to a valid tracker: exactly its
  -- pages are unmapped, it is live no more, and all other live allocations stay.
  pub tracked_alloc_put-Puts :
      (t : Tracker k) (p : ℕ) (info : TrackedAllocInfo)
      → IsValid k t
      → view k t p ≡ some info
      → Returns (λ _ u. Answer t p info u) (tracked_alloc_put k p t)
  tracked_alloc_put-Puts t p info v h =
      let live = view-IsLive k t p info h in
      let below = live_below k t v p info live in
      let sized = live_sized k t v p info live in
      let cleared = clear k t t.os t.probes p in
      rw (put_run k t p info live (omega arith) (live_named k t v p info live)) (
        Returns.weaken
          (aligned_munmap-Unmapping k laws p info.size cleared (live_aligned k t v p info live)
            live.not_null sized below)
          λ _ u (gone, kept). subst (Answer t p info) (sym (SameTables-eq k kept)) (
            clear-IsValid k t v p info live u.os u.probes gone,
            clear-Puts k t v p info live u.os u.probes gone,
          ))

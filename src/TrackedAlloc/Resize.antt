-- ===== src/TrackedAlloc/Resize.antt =====
-- `tracked_alloc_resize`, with `shrink_mapping` and `grow_mapping`.
use poireau.Prelude.{
  ℕ, ◌+◌, ◌-◌, ◌/◌, ◌%◌, ◌^◌, ◌≤◌, ◌<◌, ◌≡◌, ◌≢◌, refl, Bool, true, false, some, List, arith, ◌==◌,
  if◌then◌else◌, ltb, leb, Bool-cases, ℕ-cases, update, inl, inr, sym, ◌&&◌,
}
use mathlib.Core.Path.{subst}
use poireau.Probe.{Probe}
use poireau.Word.{sub64}
use poireau.Exec.{pure, ◌>>◌}
use poireau.Exec.Returns
use poireau.Exec.Returns.{Returns, normally}
use poireau.Kernel.{Kernel, KernelLaws, Unmapping, SameMemory}
use poireau.TrackedAlloc.{
  Tracker, TrackedAllocInfo, table_size, tracking_alignment, tracked_alloc_resize, resize_mapping,
  shrink_mapping, grow_mapping, mmap, private_noreplace, page_end, store_size,
}
use poireau.TrackedAlloc.Pages.{pages, page_end-eq-pages, page_end_test}
use poireau.TrackedAlloc.Mapping.{SameTables, SameTables-eq, munmap_checked-Unmapping}
use poireau.TrackedAlloc.Invariant.{slot, view, IsValid}
use poireau.TrackedAlloc.Lookup.{IsLive, view-IsLive, tracked_alloc_info-live}
use poireau.TrackedAlloc.Put.{live_below, live_aligned, live_sized}

module _ (k : Kernel) where
  -- The pages of `size` bytes at `p` that `request` bytes do not need.
  abbrev pub Trimmed : (p size request : ℕ) → (before after : Tracker k) → Type 0
  Trimmed p size request before after =
      Unmapping k (p + pages request) (pages size - pages request) before.os after.os

  -- `tracked_alloc_resize` answered `r`.
  pub record Resizes (p : ℕ) (info : TrackedAllocInfo) (request : ℕ) (r : Bool)
      (before after : Tracker k) : Type 0 where
    pub answer : r ≡ leb (pages request) (pages info.size)
    pub counter : after.alloc_id_counter ≡ before.alloc_id_counter
    pub memory : Trimmed p info.size request before after
    pub view_after :
        (q : ℕ)
        → view k after q
          ≡ (if r && p == q then some (record info { size = request }) else view k before q)

  trim_nothing : (base len : ℕ) (s : k.State) → len ≡ 0 → Unmapping k base len s s
  trim_nothing base len s e = record { mapped = λ x. ground arith; byte = λ x h. refl }

  trim_same : (base len : ℕ) {s u : k.State} → len ≡ 0 → SameMemory k s u → Unmapping k base len s u
  trim_same base len e same = record {
    mapped = λ x. ground (arith, same.mapped x);
    byte = λ x h. same.byte x;
  }

module _ (k : Kernel) (laws : KernelLaws k) (t : Tracker k) (p size request : ℕ)
    (aligned : p % 4096 ≡ 0) (sized : 0 < size) (below : p + pages size ≤ 2 ^ 47)
    (fits : request < 2 ^ 64) where
  kept_tables : {u : k.State} → SameTables k t (record t { os = u })
  kept_tables = record { counter = refl; table = refl; info = refl }

  ends : (page_end p size == page_end p request) ≡ (pages size == pages request)
  ends = page_end_test p size request aligned sized below fits

  shrink_mapping-Trimmed :
      request < size
      → Returns
          (λ _ u. Trimmed k p size request t u × SameTables k t u)
          (shrink_mapping k p size request t)
  unfolding shrink_mapping
  shrink_mapping-Trimmed less =
      let end : page_end p size ≡ p + pages size =
        page_end-eq-pages p size aligned (omega arith) (omega arith) in
      let desired : page_end p request ≡ p + pages request =
        page_end-eq-pages p request aligned (omega arith) (omega arith) in
      let slop : sub64 (p + pages size) (p + pages request) ≡ pages size - pages request =
        omega arith in
      elim (Bool-cases (pages size == pages request)) [
        | inl same ↦
            rw (ends, same)
              (normally (
                trim_nothing k (p + pages request) (pages size - pages request) t.os (ground arith),
                kept_tables,
              ))
        | inr more ↦
            rw (ends, more, desired, end, slop)
              (munmap_checked-Unmapping k laws (p + pages request) (pages size - pages request) t
                (omega arith) (ground arith) (omega arith) (omega arith))
      ]

  grow_mapping-Trimmed :
      size < request
      → Returns
          (λ r u.
            (r ≡ leb (pages request) (pages size))
            × Trimmed k p size request t u
            × SameTables k t u)
          (grow_mapping k p size request t)
  unfolding grow_mapping mmap
  grow_mapping-Trimmed more =
      let hint = page_end p size in
      let len = sub64 (page_end p request) (page_end p size) in
      let refused = laws.mmap_no_file hint len private_noreplace t.os refl refl in
      elim (Bool-cases (pages size == pages request)) [
        | inl same ↦
            rw (ends, same)
              (normally (
                ground arith,
                trim_nothing k (p + pages request) (pages size - pages request) t.os (ground arith),
                kept_tables,
              ))
        | inr bigger ↦
            rw (ends, bigger, refused)
              (normally (
                ground arith,
                trim_same k (p + pages request) (pages size - pages request) (omega arith)
                    (laws.mmap_failed hint len private_noreplace t.os refused),
                kept_tables,
              ))
      ]

  -- The mapping is cut down to the pages that `request` bytes need; if these are more than there
  -- are, `mmap` refuses to add any, and nothing changes.
  pub resize_mapping-Trimmed :
      request ≢ size
      → Returns
          (λ r u.
            (r ≡ leb (pages request) (pages size))
            × Trimmed k p size request t u
            × SameTables k t u)
          (resize_mapping k p size request t)
  unfolding resize_mapping
  resize_mapping-Trimmed ne = elim (Bool-cases (ltb request size)) [
    | inl less ↦ rw less (
        Returns.bind (shrink_mapping-Trimmed (ground arith))
          λ _ u (cut, kept). normally (ground arith, cut, kept))
    | inr more ↦ rw more (grow_mapping-Trimmed (ground arith))
  ]

module _ (k : Kernel) (t : Tracker k) (v : IsValid k t) (p : ℕ) (info : TrackedAllocInfo)
    (live : IsLive k t p info) (request : ℕ) (pos : 0 < request)
    (fewer : pages request ≤ pages info.size) (os : k.State) (probes : List Probe)
    (cut : Unmapping k (p + pages request) (pages info.size - pages request) t.os os) where
  -- `t` over the kernel state `os`, with the new size in the entry of `p`.
  abbrev resized : Tracker k
  resized = record t {
    os = os;
    info_table = update t.info_table (slot p) (record (t.info_table (slot p)) { size = request });
    probes = probes;
  }

  resized-IsValid : IsValid k resized
  resized-IsValid = record {
    counter_pos = v.counter_pos;
    counter_fits = v.counter_fits;
    entry = v.entry;
    below = λ i. ground (arith, v.below i, live.info_at);
    sized = λ i. ground (arith, v.sized i);
    named = λ i. ground (arith, v.named i);
    issued = λ i. ground (arith, v.issued i);
    dead = λ i. ground (arith, v.dead i);
    distinct = λ i j. ground (arith, v.distinct i j);
    mapped = λ i x. ground (
      arith,
      v.mapped i x,
      cut.mapped x,
      v.apart i (slot p) x,
      live.entry,
      live.info_at,
      live.not_null,
    );
    apart = λ i j x. ground (arith, v.apart i j x, live.entry, live.info_at, live.not_null);
  }

  resized-Resizes : Resizes k p info request true t resized
  resized-Resizes = record {
    answer = ground arith;
    counter = refl;
    memory = cut;
    view_after = λ q. ground (arith, live.entry, live.info_at, live.not_null, v.entry (slot q));
  }

module _ (k : Kernel) (t : Tracker k) (v : IsValid k t) (p : ℕ) (info : TrackedAllocInfo)
    (live : IsLive k t p info) (request : ℕ) (pos : 0 < request) where
  abbrev Answer : Bool → Tracker k → Type 0
  Answer r u = IsValid k u × Resizes k p info request r t u

  -- What `tracked_alloc_resize` does after the change of the mapping.
  record_size :
      (r : Bool) (os : k.State) (probes : List Probe)
      → p < 2 ^ 47
      → r ≡ leb (pages request) (pages info.size)
      → Unmapping k (p + pages request) (pages info.size - pages request) t.os os
      → Returns Answer (
          (do if r then store_size k (p / tracking_alignment) request else pure tt; pure r)
            (record t { os = os; probes = probes }))
  unfolding store_size
  record_size true os probes below e cut =
      let inside : ltb (slot p) table_size ≡ true = ground arith in
      rw inside (
        normally (
          resized-IsValid k t v p info live request pos (ground arith) os probes cut,
          resized-Resizes k t v p info live request pos (ground arith) os probes cut,
        ))
  record_size false os probes below e cut = normally (
    record {
      counter_pos = v.counter_pos;
      counter_fits = v.counter_fits;
      entry = v.entry;
      below = v.below;
      sized = v.sized;
      named = v.named;
      issued = v.issued;
      dead = v.dead;
      distinct = v.distinct;
      mapped = λ i x. ground (arith, v.mapped i x, cut.mapped x);
      apart = v.apart;
    },
    record { answer = e; counter = refl; memory = cut; view_after = λ q. refl },
  )

  unchanged : request ≡ info.size → Answer true t
  unchanged e = (
    v,
    record {
      answer = ground arith;
      counter = refl;
      memory =
          trim_nothing k (p + pages request) (pages info.size - pages request) t.os (ground arith);
      view_after = λ q. ground (arith, live.entry, live.info_at, live.not_null);
    },
  )

module _ (k : Kernel) (laws : KernelLaws k) where
  -- Resizing a live allocation of a valid tracker to at least one byte returns to a valid
  -- tracker; the answer is true exactly if the new size needs no more pages than the old one, and
  -- then only the pages that are too many are unmapped and the size is the new one; otherwise
  -- nothing changes.
  pub tracked_alloc_resize-Resizes :
      (t : Tracker k) (p : ℕ) (info : TrackedAllocInfo) (request : ℕ)
      → IsValid k t
      → view k t p ≡ some info
      → 0 < request
      → request < 2 ^ 64
      → Returns
          (λ r u. IsValid k u × Resizes k p info request r t u)
          (tracked_alloc_resize k p request t)
  unfolding tracked_alloc_resize
  tracked_alloc_resize-Resizes t p info request v h pos fits =
      let live = view-IsLive k t p info h in
      let below = live_below k t v p info live in
      let sized = live_sized k t v p info live in
      let aligned : p % 4096 ≡ 0 = omega (arith, live_aligned k t v p info live) in
      rw (tracked_alloc_info-live k t p info (omega arith) live) (elim (ℕ-cases request info.size) [
        | inl same ↦
            let e : (request == info.size) ≡ true = ground arith in
            rw e (normally (unchanged k t v p info live request pos same))
        | inr other ↦
            let e : (request == info.size) ≡ false = ground arith in
            rw e (
              Returns.bind
                (resize_mapping-Trimmed k laws t p info.size request aligned sized below fits other)
                λ r u (answer, cut, kept).
                  subst
                    (λ w. Returns (Answer k t v p info live request pos) (
                      (do
                        if r then store_size k (p / tracking_alignment) request else pure tt
                        pure r)
                        w))
                    (sym (SameTables-eq k kept))
                    (record_size k t v p info live request pos r u.os u.probes (omega arith) answer
                      cut))
      ])

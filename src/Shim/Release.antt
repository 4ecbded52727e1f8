-- ===== src/Shim/Release.antt =====
-- A tracked allocation that becomes a regular one: the memory before, in between and afterwards.
use poireau.Prelude.{
  ℕ, ◌+◌, ◌-◌, ◌≤◌, ◌<◌, ◌≡◌, ◌≢◌, ◌⊎◌, ◌∙◌, Bool, true, false, not, none, some, leb, ◌==◌, ◌&&◌,
  if◌then◌else◌, arith, List, inl, inr, within, Bool-cases,
}
use poireau.Exec.Returns
use poireau.Exec.Returns.{Returns, normally}
use poireau.Kernel.{Kernel, KernelLaws}
use poireau.Probe.{Probe}
use poireau.TrackedAlloc.{Tracker, TrackedAllocInfo, tracked_alloc_put}
use poireau.TrackedAlloc.Pages.{pages}
use poireau.TrackedAlloc.Invariant.{slot, view, footprint, IsValid}
use poireau.TrackedAlloc.Lookup.{view-IsLive}
use poireau.TrackedAlloc.Put.{Puts, tracked_alloc_put-Puts}
use poireau.Shim.{Host}
use poireau.Shim.Contents.{CopyLaws, CanCopy, Preserved, live_mapped, count}

module _ (k : Kernel) where
  -- What the invariant says survives a change of the memory that keeps the live pages mapped.
  pub kept-IsValid :
      {t : Tracker k} (os : k.State) (probes : List Probe)
      → ((i x : ℕ)
          → t.tracked_alloc_table i ≢ 0
          → within (t.tracked_alloc_table i) (footprint k t i) x ≡ true
          → k.mapped os x ≡ true)
      → IsValid k t
      → IsValid k (record t { os = os; probes = probes })
  kept-IsValid os probes kept v = record {
    counter_pos = v.counter_pos;
    counter_fits = v.counter_fits;
    entry = v.entry;
    below = v.below;
    sized = v.sized;
    named = v.named;
    issued = v.issued;
    dead = v.dead;
    distinct = v.distinct;
    mapped = kept;
    apart = v.apart;
  }

  -- The bytes that belong to the underlying allocator, and what its `malloc` does: it gives out
  -- bytes of its own, and leaves all others as they are.
  pub record HeapLaws (h : Host k) (heap : k.State → ℕ → Bool) : Type 0 where
    pub malloc_keeps :
        (request : ℕ) (s : k.State) (x : ℕ)
        → heap s x ≡ false
        → k.mapped s x ≡ true
        → let s' = (h.malloc request s).1 in
          (heap s' x ≡ false) × (k.mapped s' x ≡ true) × (k.byte s' x ≡ k.byte s x)
    pub malloc_block :
        (request : ℕ) (s : k.State) (i : ℕ)
        → (h.malloc request s).0 ≢ 0
        → i < request
        → let r = h.malloc request s in
          (heap r.1 (r.0 + i) ≡ true) × (k.mapped r.1 (r.0 + i) ≡ true)

  -- The tracked allocations lie outside the underlying allocator's memory.
  abbrev pub Outside : (k.State → ℕ → Bool) → Tracker k → Type 0
  Outside heap t =
      (i x : ℕ)
      → t.tracked_alloc_table i ≢ 0
      → within (t.tracked_alloc_table i) (footprint k t i) x ≡ true
      → heap t.os x ≡ false

  -- NULL, and nothing is lost; or the contents are at `ret`, and `ptr` is live no more.
  pub record BecomesRegular (ptr ret request : ℕ) (info : TrackedAllocInfo)
      (before after : Tracker k) : Type 0 where
    pub view_after :
        (q : ℕ) → view k after q ≡ (if not (ret == 0) && ptr == q then none else view k before q)
    pub contents :
        Preserved k ptr
          (if ret == 0 then ptr else ret)
          (if ret == 0 then info.size else count k info request)
          before
          after

module _ (k : Kernel) (h : Host k) (heap : k.State → ℕ → Bool) (hosts : HeapLaws k h heap)
    (copy : CopyLaws k h) (t : Tracker k) (v : IsValid k t) (outside : Outside k heap t)
    (ptr request : ℕ) (info : TrackedAllocInfo) (tracked : view k t ptr ≡ some info)
    (probes : List Probe) where
  abbrev ret : ℕ
  ret = (h.malloc request t.os).0

  abbrev os' : k.State
  os' = (h.malloc request t.os).1

  abbrev n : ℕ
  n = count k info request

  -- After `malloc` and its tracepoint.
  abbrev pub allocated : Tracker k
  allocated = record t { os = os'; probes = probes }

  pub allocated-IsValid : IsValid k allocated
  allocated-IsValid =
      kept-IsValid k os' probes
        (λ i x live inside.
          (hosts.malloc_keeps request t.os x (outside i x live inside)
            (v.mapped i x live inside)).1)
        v

  -- A byte of the old chunk.
  old_byte :
      (i : ℕ)
      → i < pages info.size
      → (heap os' (ptr + i) ≡ false)
        × (k.mapped os' (ptr + i) ≡ true)
        × (k.byte os' (ptr + i) ≡ k.byte t.os (ptr + i))
  old_byte i inside =
      let live = view-IsLive k t ptr info tracked in
      let here : within (t.tracked_alloc_table (slot ptr)) (footprint k t (slot ptr)) (ptr + i)
          ≡ true =
        rw (live.entry, live.info_at) (ground arith) in
      hosts.malloc_keeps request t.os (ptr + i)
        (outside (slot ptr) (ptr + i) (ground (arith, live.entry, live.not_null)) here)
        (live_mapped k t ptr info i v tracked inside)

  pub null-BecomesRegular : ret ≡ 0 → BecomesRegular k ptr ret request info t allocated
  null-BecomesRegular null = record {
    view_after = λ q. ground arith;
    contents = rw null (λ i inside. (old_byte i (omega arith)).2);
  }

  -- A byte of the underlying allocator's is none of the old chunk.
  not_ours : (x : ℕ) → heap os' x ≡ true → within ptr (pages info.size) x ≡ false
  not_ours x theirs = elim (Bool-cases (within ptr (pages info.size) x)) [
    | inr free ↦ free
    | inl inside ↦
        let at : ptr + (x - ptr) ≡ x = ground arith in
        let ours = (old_byte (x - ptr) (ground arith)).0 in absurd (clash at theirs ours)
  ]
    where
      clash : {x y : ℕ} → y ≡ x → heap os' x ≡ true → heap os' y ≡ false → ⊥
      clash e a b = cc

  apart_blocks : ret ≢ 0 → (ret + n ≤ ptr) ⊎ (ptr + n ≤ ret)
  apart_blocks found = elim (Bool-cases (leb (ret + n) ptr)) [
    | inl before ↦ inl (ground arith)
    | inr after ↦ elim (Bool-cases (leb (ptr + n) ret)) [
      | inl behind ↦ inr (ground arith)
      | inr meets ↦ elim (Bool-cases (leb ret ptr)) [
        | inl ret_first ↦
            let at : ret + (ptr - ret) ≡ ptr = ground arith in
            let theirs = (hosts.malloc_block request t.os (ptr - ret) found (ground arith)).0 in
            absurd (ground (arith, not_ours ptr (rw at at theirs)))
        | inr ptr_first ↦
            let at : ret + 0 ≡ ret = omega arith in
            let theirs = (hosts.malloc_block request t.os 0 found (ground arith)).0 in
            absurd (ground (arith, not_ours ret (rw at at theirs)))
      ]
    ]
  ]

  can_copy : ret ≢ 0 → CanCopy k ret ptr n os'
  can_copy found = record {
    readable = λ i inside. (old_byte i (ground arith)).1;
    writable = λ i inside. (hosts.malloc_block request t.os i found (ground arith)).1;
    disjoint = apart_blocks found;
  }

  -- After the copy.
  abbrev pub copied_out : Tracker k
  copied_out = record t { os = h.memcpy ret ptr n os'; probes = probes }

  copied_out-IsValid : ret ≢ 0 → IsValid k copied_out
  copied_out-IsValid found =
      kept-IsValid k _ probes
        (λ i x live inside.
          copy.mapped ret ptr n os' x (can_copy found)
          ∙ (hosts.malloc_keeps request t.os x (outside i x live inside)
              (v.mapped i x live inside)).1)
        v

  put-BecomesRegular :
      (q : Tracker k)
      → ret ≢ 0
      → Puts k ptr info copied_out q
      → BecomesRegular k ptr ret request info t q
  put-BecomesRegular q found put =
      let test : (ret == 0) ≡ false = ground arith in
      record {
        view_after = λ x. rw test (put.view_after x);
        contents = rw test λ i inside.
            let (theirs, is_mapped) = hosts.malloc_block request t.os i found (ground arith) in
            let kept : k.mapped q.os (ret + i) ≡ true = ground (
              arith,
              put.gone.mapped (ret + i),
              copy.mapped ret ptr n os' (ret + i) (can_copy found),
              not_ours (ret + i) theirs,
            ) in
            put.gone.byte (ret + i) kept
            ∙ copy.copied ret ptr n os' i (can_copy found) inside
            ∙ (old_byte i (ground arith)).2;
      }

  pub put-Regular :
      KernelLaws k
      → ret ≢ 0
      → Returns
          (λ _ q. IsValid k q × BecomesRegular k ptr ret request info t q)
          (tracked_alloc_put k ptr copied_out)
  put-Regular laws found =
      Returns.weaken
        (tracked_alloc_put-Puts k laws copied_out ptr info (copied_out-IsValid found) tracked)
        λ _ q (valid, put). (valid, put-BecomesRegular q found put)

-- ===== src/Shim/Contents.antt =====
-- What `realloc` of a tracked allocation leaves of its contents, and what it asks of `memcpy`.
use poireau.Prelude.{
  ℕ, ◌+◌, ◌-◌, ◌≤◌, ◌<◌, ◌≡◌, ◌⊎◌, refl, ◌∙◌, true, false, none, some, leb, ltb, ◌==◌,
  if◌then◌else◌, arith, List, inl, inr, within, Bool-cases,
}
use poireau.Kernel.{Kernel}
use poireau.Probe.{Probe}
use poireau.TrackedAlloc.{Tracker, TrackedAllocInfo}
use poireau.TrackedAlloc.Pages.{pages}
use poireau.TrackedAlloc.Invariant.{slot, view, IsValid}
use poireau.TrackedAlloc.Get.{allocation, Gets}
use poireau.TrackedAlloc.Lookup.{view-IsLive}
use poireau.TrackedAlloc.Resize.{Resizes}
use poireau.TrackedAlloc.Put.{live_sized}
use poireau.Shim.{Host}

module _ (k : Kernel) where
  -- The invariant speaks of the mapped addresses alone, not of their contents.
  pub contents-IsValid :
      {t : Tracker k} (os : k.State) (probes : List Probe)
      → ((x : ℕ) → k.mapped os x ≡ k.mapped t.os x)
      → IsValid k t
      → IsValid k (record t { os = os; probes = probes })
  contents-IsValid os probes same v = record {
    counter_pos = v.counter_pos;
    counter_fits = v.counter_fits;
    entry = v.entry;
    below = v.below;
    sized = v.sized;
    named = v.named;
    issued = v.issued;
    dead = v.dead;
    distinct = v.distinct;
    mapped = λ i x live inside. same x ∙ v.mapped i x live inside;
    apart = v.apart;
  }

  -- All pages of a live allocation are mapped.
  pub live_mapped :
      (t : Tracker k) (p : ℕ) (info : TrackedAllocInfo) (i : ℕ)
      → IsValid k t
      → view k t p ≡ some info
      → i < pages info.size
      → k.mapped t.os (p + i) ≡ true
  live_mapped t p info i v h inside =
      let live = view-IsLive k t p info h in
      v.mapped (slot p) (p + i) (ground (arith, live.entry, live.not_null))
        (rw (live.entry, live.info_at) (ground arith))

  -- `memcpy` may be called.
  pub record CanCopy (dst src n : ℕ) (s : k.State) : Type 0 where
    pub readable : (i : ℕ) → i < n → k.mapped s (src + i) ≡ true
    pub writable : (i : ℕ) → i < n → k.mapped s (dst + i) ≡ true
    pub disjoint : (dst + n ≤ src) ⊎ (src + n ≤ dst)

  -- What the C standard says of `memcpy`.
  pub record CopyLaws (h : Host k) : Type 0 where
    pub mapped :
        (dst src n : ℕ) (s : k.State) (x : ℕ)
        → CanCopy dst src n s
        → k.mapped (h.memcpy dst src n s) x ≡ k.mapped s x
    pub copied :
        (dst src n : ℕ) (s : k.State) (i : ℕ)
        → CanCopy dst src n s
        → i < n
        → k.byte (h.memcpy dst src n s) (dst + i) ≡ k.byte s (src + i)
    pub outside :
        (dst src n : ℕ) (s : k.State) (x : ℕ)
        → CanCopy dst src n s
        → within dst n x ≡ false
        → k.byte (h.memcpy dst src n s) x ≡ k.byte s x

  -- The first bytes of `ret` are those that the allocation at `ptr` had.
  abbrev pub Preserved : (ptr ret count : ℕ) → (before after : Tracker k) → Type 0
  Preserved ptr ret count before after =
      (i : ℕ) → i < count → k.byte after.os (ret + i) ≡ k.byte before.os (ptr + i)

  -- NULL: the allocation is as before, and so are all others.
  pub record Stays (ptr ret : ℕ) (info : TrackedAllocInfo) (before after : Tracker k) : Type 0 where
    pub null : ret ≡ 0
    pub view_after : (q : ℕ) → view k after q ≡ view k before q
    pub contents : Preserved ptr ptr info.size before after

  -- `ret` has the new size, and if it is not `ptr`, then `ptr` is live no more.
  pub record Moves (ptr ret id request : ℕ) (info : TrackedAllocInfo) (before after : Tracker k)
      : Type 0 where
    pub not_null : 0 < ret
    pub view_after :
        (q : ℕ)
        → view k after q ≡ (
            if ret == q
            then some (allocation k id request)
            else if ptr == q
            then none
            else view k before q)
    pub contents :
        Preserved ptr ret (if ltb info.size request then info.size else request) before after

  abbrev pub Reallocates :
      (ptr ret request : ℕ) → TrackedAllocInfo → (before after : Tracker k) → Type 0
  Reallocates ptr ret request info before after =
      IsValid k after
      × (Stays ptr ret info before after ⊎ ((id : ℕ) × Moves ptr ret id request info before after))

  -- Resized in place.
  pub in_place :
      (t u : Tracker k) (ptr request : ℕ) (info : TrackedAllocInfo) (probes : List Probe)
      → IsValid k u
      → view k t ptr ≡ some info
      → Resizes k ptr info request true t u
      → Reallocates ptr ptr request info t (record u { probes = probes })
  in_place t u ptr request info probes valid tracked r =
      let here : view k u ptr ≡ some (allocation k info.id request) =
        ground (arith, r.view_after ptr) in
      (
        contents-IsValid u.os probes (λ x. refl) valid,
        inr (
          info.id,
          record {
            not_null = (view-IsLive k t ptr info tracked).not_null;
            view_after = λ q. ground (arith, r.view_after q);
            contents = λ i inside.
                r.memory.byte (ptr + i)
                  (live_mapped u ptr (allocation k info.id request) i valid here (ground arith));
          },
        ),
      )

  -- The bytes that are copied.
  abbrev pub count : TrackedAllocInfo → ℕ → ℕ
  count info request = if ltb info.size request then info.size else request

  -- A resize that was refused changes no allocation and no byte of one.
  pub not_grown :
      (t u : Tracker k) (ptr request : ℕ) (info : TrackedAllocInfo)
      → IsValid k u
      → view k t ptr ≡ some info
      → Resizes k ptr info request false t u
      → ((q : ℕ) → view k u q ≡ view k t q) × Preserved ptr ptr info.size t u
  not_grown t u ptr request info valid tracked r = (
    λ q. ground (arith, r.view_after q),
    λ i inside.
        r.memory.byte (ptr + i)
          (live_mapped u ptr info i valid (ground (arith, r.view_after ptr)) (omega arith)),
  )

  -- The new chunk and the old one do not meet.
  pub chunks_disjoint :
      (u w : Tracker k) (ptr request ret id : ℕ) (info : TrackedAllocInfo)
      → IsValid k u
      → view k u ptr ≡ some info
      → Gets k request ret id u w
      → 0 < request
      → (ret + count info request ≤ ptr) ⊎ (ptr + count info request ≤ ret)
  chunks_disjoint u w ptr request ret id info valid tracked g pos =
      let into_new : (i : ℕ) → within ret (pages request) i ≡ true → k.mapped u.os i ≡ false =
        g.fresh.free in
      elim (Bool-cases (leb (ret + count info request) ptr)) [
        | inl before ↦ inl (ground arith)
        | inr after ↦ elim (Bool-cases (leb (ptr + count info request) ret)) [
          | inl behind ↦ inr (ground arith)
          | inr meets ↦ elim (Bool-cases (leb ret ptr)) [
            | inl ret_first ↦
                let old =
                  live_mapped u ptr info 0 valid tracked (live_pos u ptr info valid tracked) in
                let new = into_new (ptr + 0) (ground arith) in absurd (cc)
            | inr ptr_first ↦
                let same : ptr + (ret - ptr) ≡ ret = ground arith in
                let old = live_mapped u ptr info (ret - ptr) valid tracked (ground arith) in
                let new = into_new (ptr + (ret - ptr)) (ground arith) in absurd (cc)
          ]
        ]
      ]
    where
      live_pos :
          (u : Tracker k) (ptr : ℕ) (info : TrackedAllocInfo)
          → IsValid k u
          → view k u ptr ≡ some info
          → 0 < pages info.size
      live_pos u ptr info valid tracked =
          omega (arith, live_sized k u valid ptr info (view-IsLive k u ptr info tracked))

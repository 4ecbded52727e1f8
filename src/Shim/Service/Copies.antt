-- ===== src/Shim/Service/Copies.antt =====
-- A tracked allocation whose contents are copied to new memory, and which is then given back.
use poireau.Prelude.{
  ℕ, ◌+◌, ◌-◌, ◌*◌, ◌^◌, ◌≤◌, ◌<◌, ◌≡◌, ◌≢◌, ◌⊎◌, ◌∙◌, inl, inr, true, false, some, List, arith,
  leb, ltb, ◌&&◌, within, Bool-cases,
}
use poireau.Exec.Returns
use poireau.Exec.Returns.{Returns, normally}
use poireau.Kernel.{Kernel, KernelLaws}
use poireau.Probe.{Probe}
use poireau.TrackedAlloc.{Tracker, TrackedAllocInfo, tracked_alloc_put}
use poireau.TrackedAlloc.Pages.{pages}
use poireau.TrackedAlloc.Invariant.{slot, view, footprint, IsValid}
use poireau.TrackedAlloc.Lookup.{view-IsLive}
use poireau.TrackedAlloc.Get.{allocation}
use poireau.TrackedAlloc.Put.{Puts, tracked_alloc_put-Puts, live_sized}
use poireau.Shim.{Host}
use poireau.Shim.Contents.{CopyLaws, CanCopy, Preserved, live_mapped, count}
use poireau.Shim.Service.{Bookkeeping, Ledger, Since, Given}
use poireau.Shim.Service.Steps.{Apart, Clear, write-Since}
use poireau.Shim.Service.Tracked.{put-Since}

-- Two ranges without a common address.
apart_ranges :
    (a n b m : ℕ)
    → 0 < n
    → 0 < m
    → ((i : ℕ) → i < n → within b m (a + i) ≡ false)
    → (a + n ≤ b) ⊎ (b + m ≤ a)
apart_ranges a n b m some_a some_b never =
    let first : a + 0 ≡ a = omega arith in
    let at_a : within b m a ≡ false = rw first at (never 0 some_a) in
    elim (Bool-cases (leb a b && ltb b (a + n))) [
      | inr clear ↦ ground arith
      | inl meets ↦
          let at : a + (b - a) ≡ b = ground arith in
          let at_b : within b m b ≡ false = rw at at (never (b - a) (ground arith)) in
          absurd (ground arith)
    ]

module _ (k : Kernel) (own : Bookkeeping k) (t : Tracker k) (v : IsValid k t) where
  -- Two live allocations have no common byte.
  live_apart :
      (p q i : ℕ) (a b : TrackedAllocInfo)
      → view k t p ≡ some a
      → view k t q ≡ some b
      → p ≢ q
      → i < pages b.size
      → within p (pages a.size) (q + i) ≡ false
  live_apart p q i a b at_p at_q differ inside =
      let live_p = view-IsLive k t p a at_p in
      let live_q = view-IsLive k t q b at_q in
      let slot_p : t.tracked_alloc_table (slot p) ≢ 0 =
        ground (arith, live_p.entry, live_p.not_null) in
      let slot_q : t.tracked_alloc_table (slot q) ≢ 0 =
        ground (arith, live_q.entry, live_q.not_null) in
      let p_start : p ≡ slot p * 2 ^ 30 = omega (arith, v.entry (slot p) slot_p, live_p.entry) in
      let q_start : q ≡ slot q * 2 ^ 30 = omega (arith, v.entry (slot q) slot_q, live_q.entry) in
      let slots : slot q ≢ slot p = λ same. differ (omega arith) in
      let here : within (t.tracked_alloc_table (slot q)) (footprint k t (slot q)) (q + i) ≡ true =
        rw (live_q.entry, live_q.info_at) (ground arith) in
      let far = v.apart (slot q) (slot p) (q + i) slot_q slot_p slots here in
      rw (live_p.entry, live_p.info_at) at far

module _ (k : Kernel) (own : Bookkeeping k) (h : Host k) (copy : CopyLaws k h) (ptr : ℕ)
    (l l1 : Ledger) (t u : Tracker k) (since : Since k own ptr l t l1 u) (info : TrackedAllocInfo)
    (here : view k u ptr ≡ some info) (ret request : ℕ) (pos : 0 < request) (found : 0 < ret)
    (other : ret ≢ ptr) (given : Given k own ptr ret request l t l1 u) where
  open since use {sound, keeps}

  abbrev n : ℕ
  n = count k info request

  n-pos : 0 < n
  n-pos = ground (arith, live_sized k u sound.valid ptr info (view-IsLive k u ptr info here))

  -- The new bytes are mapped, and belong to no other allocation.
  room_byte :
      (i : ℕ)
      → i < request
      → (k.mapped u.os (ret + i) ≡ true)
        × ((q : ℕ) (a : TrackedAllocInfo)
            → view k u q ≡ some a
            → q ≢ ret
            → within q (pages a.size) (ret + i) ≡ false)
  room_byte i inside = elim given [
    | inl null ↦ absurd (omega arith)
    | inr (_, (_, _, inl (id, new))) ↦ (
      live_mapped k u ret (allocation k id request) i sound.valid new (omega arith),
      λ q a at_q differ.
          live_apart k own u sound.valid q ret i a (allocation k id request) at_q new differ
            (omega arith),
    )
    | inr (_, (_, _, inr (_, theirs))) ↦ (
      sound.owned.mapped (ret + i) (sound.lent_in_heap (ret + i) (theirs i inside)),
      λ q a at_q differ. elim (Bool-cases (within q (pages a.size) (ret + i))) [
        | inr far ↦ far
        | inl meets ↦
            let at : q + (ret + i - q) ≡ ret + i = ground arith in
            let ours : l1.heap (ret + i) ≡ false =
              rw at at (sound.owned.untracked q (ret + i - q) a at_q (ground arith)) in
            let mine = sound.lent_in_heap (ret + i) (theirs i inside) in absurd (cc)
      ],
    )
  ]

  can_copy : CanCopy k ret ptr n u.os
  can_copy = record {
    readable = λ i inside. live_mapped k u ptr info i sound.valid here (ground arith);
    writable = λ i inside. (room_byte i (ground arith)).0;
    disjoint =
        apart_ranges ret n ptr n n-pos n-pos
          λ i inside. ground (arith, (room_byte i (ground arith)).1 ptr info here);
  }

  target-Apart : Apart k own ptr l l1 t u since ret n
  target-Apart q i a tracked differ inside = elim (Bool-cases (within ret n (q + i))) [
    | inr far ↦ far
    | inl meets ↦
        let now = keeps.entry q a tracked differ in
        let not_ret : q ≢ ret = λ same. other (unheld q a tracked same) in
        let at : ret + (q + i - ret) ≡ q + i = ground arith in
        let far : within q (pages a.size) (q + i) ≡ false =
          rw at at ((room_byte (q + i - ret) (ground arith)).1 q a now not_ret) in
        absurd (ground arith)
  ]
    where
      unheld : (q : ℕ) (a : TrackedAllocInfo) → view k t q ≡ some a → q ≡ ret → ret ≡ ptr
      unheld q a tracked same = elim given [
        | inl null ↦ absurd (omega arith)
        | inr (_, (_, only, _)) ↦ only a (rw same at tracked)
      ]

  -- The new bytes hold nothing of the underlying allocator's own data.
  target-Clear : Clear k own ptr l l1 t u since ret n
  target-Clear x mine kept = elim (Bool-cases (within ret n x)) [
    | inr far ↦ far
    | inl meets ↦
        let at : ret + (x - ret) ≡ x = ground arith in
        elim given [
          | inl null ↦ absurd (omega arith)
          | inr (_, (_, _, inl (id, new))) ↦
              let ours : l1.heap x ≡ false = rw at at (
                sound.owned.untracked ret (x - ret) (allocation k id request) new (ground arith)) in
              absurd (ground arith)
          | inr (_, (_, _, inr (_, theirs))) ↦
              let lent : l1.lent x ≡ true = rw at at (theirs (x - ret) (ground arith)) in
              absurd (ground arith)
        ]
  ]

  -- The state between the copy and the release.
  abbrev pub copied : List Probe → Tracker k
  copied probes = record u { os = h.memcpy ret ptr n u.os; probes = probes }

  copied-Since : (probes : List Probe) → Since k own ptr l t l1 (copied probes)
  copied-Since probes =
      write-Since k own ptr l l1 t u since ret n (h.memcpy ret ptr n u.os) probes target-Apart
        target-Clear (λ x. copy.mapped ret ptr n u.os x can_copy)
        (λ x far. copy.outside ret ptr n u.os x can_copy far)

  room_after :
      (probes : List Probe) (z : Tracker k)
      → Puts k ptr info (copied probes) z
      → Given k own ptr ret request l t l1 z
  room_after probes z put = elim given [
    | inl null ↦ inl null
    | inr (_, (a, b, inl (id, new))) ↦
        inr (found, (a, b, inl (id, ground (arith, put.view_after ret, other))))
    | inr (_, (a, b, inr theirs)) ↦ inr (found, (a, b, inr theirs))
  ]

  pub copied_put-Since :
      KernelLaws k
      → (probes : List Probe) → Preserved k ptr ptr info.size t u
      → Returns
          (λ _ z.
            Since k own ptr l t l1 z
            × Given k own ptr ret request l t l1 z
            × Preserved k ptr ret n t z)
          (tracked_alloc_put k ptr (copied probes))
  copied_put-Since laws probes same =
      let s = copied-Since probes in
      Returns.weaken (tracked_alloc_put-Puts k laws (copied probes) ptr info s.sound.valid here)
        λ _ z (valid, put). (
          put-Since k own ptr l l1 t (copied probes) z s valid info here put,
          room_after probes z put,
          λ i inside.
              let mapped : k.mapped z.os (ret + i) ≡ true = ground (
                arith,
                put.gone.mapped (ret + i),
                copy.mapped ret ptr n u.os (ret + i) can_copy,
                (room_byte i (ground arith)).0,
                (room_byte i (ground arith)).1 ptr info here,
              ) in
              put.gone.byte (ret + i) mapped
              ∙ copy.copied ret ptr n u.os i can_copy inside
              ∙ same i (ground arith),
        )

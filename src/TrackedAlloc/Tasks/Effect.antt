-- ===== src/TrackedAlloc/Tasks/Effect.antt =====
-- What one operation of one task may do to the rest.
use poireau.Prelude.{
  ℕ, ◌≤◌, ◌<◌, ◌≡◌, ◌≢◌, ◌⊎◌, inl, inr, true, false, ◌==◌, update, arith, ℕ-cases, Bool-cases, sym,
  ◌∙◌, ==_refl,
}
use poireau.Kernel.{Kernel}
use poireau.TrackedAlloc.{Tracker}
use poireau.TrackedAlloc.Invariant.{slot}
use poireau.TrackedAlloc.Tasks.{Stage}
use poireau.TrackedAlloc.Tasks.Invariant.{
  anchor, HasEntry, id_of, left, owns, len, Local, Inv, SameAt, Local-frame, anchor_owned,
}

update-cases {ℓ κ} :
    {A : Type ℓ} (P : A → Type κ) (f : ℕ → A) (i : ℕ) (a : A) (j : ℕ)
    → (i ≡ j → P a)
    → (i ≢ j → P (f j))
    → P (update f i a j)
update-cases P f i a j here there = elim (ℕ-cases i j) [
  | inl same ↦ let e : (i == j) ≡ true = ground arith in rw e (here same)
  | inr differ ↦ let e : (i == j) ≡ false = ground arith in rw e (there differ)
]

-- A call that has not returned comes closer to its end, and an identifier is kept until it is
-- given back.
abbrev pub Onward : Stage → Stage → Type 0
Onward g g' = ((left g ≡ 0) ⊎ (left g' < left g)) × ((id_of g' ≡ 0) ⊎ (id_of g' ≡ id_of g))

module _ (k : Kernel) where
  -- A task went from `g` to `g'`, and the shared state from `t` to `t'`.
  pub record Effect (t : Tracker k) (g : Stage) (t' : Tracker k) (g' : Stage) : Type 0 where
    pub counter_grows : t.alloc_id_counter ≤ t'.alloc_id_counter
    pub ahead : (left g ≡ 0) ⊎ (left g' < left g)
    -- A new identifier was that of the counter.
    pub ids :
        (id_of g' ≡ 0)
        ⊎ ((id_of g' ≡ id_of g)
            ⊎ ((id_of g' ≡ t.alloc_id_counter) × (t.alloc_id_counter < t'.alloc_id_counter)))
    pub own_locals : Local k t' g'
    -- It writes to its own slot alone.
    pub elsewhere : (n : ℕ) → slot (anchor g) ≢ n → SameAt k n t t'
    -- It unmaps only what it owns.
    pub kept : (x : ℕ) → k.mapped t.os x ≡ true → owns k t g x ≡ false → k.mapped t'.os x ≡ true
    -- What it owns now is mapped, and was its own before or free.
    pub mine : (x : ℕ) → owns k t' g' x ≡ true → k.mapped t'.os x ≡ true
    pub origin : (x : ℕ) → owns k t' g' x ≡ true → (owns k t g x ≡ true) ⊎ (k.mapped t.os x ≡ false)
    -- An entry of the table is its own, or was there before and not its own.
    pub entries :
        (n : ℕ)
        → t'.tracked_alloc_table n ≢ 0
        → HasEntry g' n ⊎ ((t.tracked_alloc_table n ≢ 0) × ¬ HasEntry g n)

  -- Two tasks have different slots.
  pub slots_apart :
      {t : Tracker k} {stage : ℕ → Stage}
      → Inv k t stage
      → (i j : ℕ) → i ≢ j
      → 0 < anchor (stage j)
      → slot (anchor (stage i)) ≢ slot (anchor (stage j))
  slots_apart {t} {stage} inv i j differ pos same =
      let (aligned_j, owned_j) = anchor_owned k (stage j) t (inv.locals j) pos in
      let pos_i : 0 < anchor (stage i) = omega arith in
      let (aligned_i, owned_i) = anchor_owned k (stage i) t (inv.locals i) pos_i in
      let one_chunk : anchor (stage i) ≡ anchor (stage j) = omega arith in
      differ (inv.apart i j (anchor (stage i)) owned_i (rw (← one_chunk) at owned_j))

module _ (k : Kernel) {t t' : Tracker k} {stage : ℕ → Stage} (inv : Inv k t stage) (i : ℕ)
    (g' : Stage) (e : Effect k t (stage i) t' g') where
  -- The other tasks notice nothing.
  frame : (j : ℕ) → i ≢ j → Local k t' (stage j) × (len k t' (stage j) ≡ len k t (stage j))
  frame j differ =
      Local-frame k (stage j) t t'
        (λ pos. e.elsewhere (slot (anchor (stage j))) (slots_apart k inv i j differ pos))
        (inv.locals j)

  same_owns : (j x : ℕ) → i ≢ j → owns k t' (stage j) x ≡ owns k t (stage j) x
  same_owns j x differ = rw (frame j differ).1

  other_owner : (j x : ℕ) → i ≢ j → owns k t (stage j) x ≡ true → owns k t (stage i) x ≡ false
  other_owner j x differ owned = elim (Bool-cases (owns k t (stage i) x)) [
    | inl both ↦ absurd (differ (inv.apart i j x both owned))
    | inr free ↦ free
  ]

  -- No byte of another task's becomes this one's.
  no_theft : (j x : ℕ) → i ≢ j → owns k t' g' x ≡ true → owns k t' (stage j) x ≡ true → ⊥
  no_theft j x differ mine theirs =
      let owned = rw (same_owns j x differ) at theirs in
      elim (e.origin x mine) [
        | inl before ↦ differ (inv.apart i j x before owned)
        | inr free ↦ let busy = inv.mapped j x owned in cc
      ]

  moved_apart :
      (a b x : ℕ)
      → owns k t' (update stage i g' a) x ≡ true
      → owns k t' (update stage i g' b) x ≡ true
      → a ≡ b
  moved_apart a b x =
      update-cases (λ g. owns k t' g x ≡ true → owns k t' (update stage i g' b) x ≡ true → a ≡ b)
        stage i g' a
        (λ i_a mine.
          update-cases (λ g. owns k t' g x ≡ true → a ≡ b) stage i g' b (λ i_b _. sym i_a ∙ i_b)
            (λ differ theirs. absurd (no_theft b x differ mine theirs)))
        λ differ_a theirs.
          update-cases (λ g. owns k t' g x ≡ true → a ≡ b) stage i g' b
            (λ i_b mine. absurd (no_theft a x differ_a mine theirs))
            λ differ_b theirs_b.
              inv.apart a b x (rw (same_owns a x differ_a) at theirs)
                (rw (same_owns b x differ_b) at theirs_b)

  own_issued : id_of g' < t'.alloc_id_counter
  own_issued = ground (arith, e.ids, inv.counter_pos, inv.issued i, e.counter_grows)

  -- Another task has another identifier.
  other_id : (j : ℕ) → i ≢ j → 0 < id_of g' → id_of g' ≡ id_of (stage j) → ⊥
  other_id j differ pos same = ground (arith, e.ids, inv.issued j, inv.distinct i j)

  moved_distinct :
      (a b : ℕ)
      → 0 < id_of (update stage i g' a)
      → id_of (update stage i g' a) ≡ id_of (update stage i g' b)
      → a ≡ b
  moved_distinct a b =
      update-cases (λ g. 0 < id_of g → id_of g ≡ id_of (update stage i g' b) → a ≡ b) stage i g' a
        (λ i_a pos.
          update-cases (λ g. id_of g' ≡ id_of g → a ≡ b) stage i g' b (λ i_b _. sym i_a ∙ i_b)
            λ differ same. absurd (other_id b differ pos same))
        λ differ_a pos.
          update-cases (λ g. id_of (stage a) ≡ id_of g → a ≡ b) stage i g' b
            (λ i_b same. absurd (other_id a differ_a (rw (← same) pos) (sym same)))
            λ differ_b same. inv.distinct a b pos same

  -- The invariant survives.
  pub Effect-Inv : Inv k t' (update stage i g')
  Effect-Inv = record {
    counter_pos = omega (arith, inv.counter_pos, e.counter_grows);
    issued = λ j.
        update-cases (λ g. id_of g < t'.alloc_id_counter) stage i g' j (λ _. own_issued)
          λ _. omega (arith, inv.issued j, e.counter_grows);
    distinct = moved_distinct;
    locals = λ j.
        update-cases (Local k t') stage i g' j (λ _. e.own_locals) (λ differ. (frame j differ).0);
    mapped = λ j x.
        update-cases (λ g. owns k t' g x ≡ true → k.mapped t'.os x ≡ true) stage i g' j
          (λ _. e.mine x)
          λ differ theirs.
            let owned = rw (same_owns j x differ) at theirs in
            e.kept x (inv.mapped j x owned) (other_owner j x differ owned);
    apart = moved_apart;
    covered = λ n live. elim (e.entries n live) [
      | inl own ↦ (i, rw (==_refl i) own)
      | inr (before, not_own) ↦
          let (j, entry) = inv.covered n before in
          (
            j,
            update-cases (λ g. HasEntry g n) stage i g' j (λ same. absurd (not_own (rw same entry)))
                (λ _. entry),
          )
    ];
  }

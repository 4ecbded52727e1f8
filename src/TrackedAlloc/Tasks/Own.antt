-- ===== src/TrackedAlloc/Tasks/Own.antt =====
-- The kinds of operation: a load, a store, an exchange, a system call.
use poireau.Prelude.{
  ℕ, ◌+◌, ◌%◌, ◌^◌, ◌<◌, ◌≡◌, ◌≢◌, ◌⊎◌, inl, inr, true, false, ltb, update, within, arith, ℕ-cases,
  refl, ap,
}
use poireau.Exec.Returns.{Returns}
use poireau.Kernel.{Kernel, Unmapping}
use poireau.TrackedAlloc.{Tracker, TrackedAllocInfo, table_size}
use poireau.TrackedAlloc.Mapping.{SameTables}
use poireau.TrackedAlloc.Invariant.{slot}
use poireau.TrackedAlloc.Tasks.{Stage, advance}
use poireau.TrackedAlloc.Tasks.Invariant.{
  anchor, entry_of, entry-anchor, owns, base, len, Local, Inv, anchor_owned,
}
use poireau.TrackedAlloc.Tasks.Effect.{Effect, Onward, slots_apart}

module _ (k : Kernel) where
  -- What the invariant says of one task.
  pub record Own (t : Tracker k) (g : Stage) : Type 0 where
    pub counter_pos : 0 < t.alloc_id_counter
    pub room : t.alloc_id_counter + 1 < 2 ^ 64
    pub locals : Local k t g
    pub mapped : (x : ℕ) → owns k t g x ≡ true → k.mapped t.os x ≡ true
    pub listed : 0 < anchor g → t.tracked_alloc_table (slot (anchor g)) ≢ 0 → entry_of g ≡ anchor g

  pub Inv-Own :
      (t : Tracker k) (stage : ℕ → Stage) (i : ℕ)
      → Inv k t stage
      → t.alloc_id_counter + 1 < 2 ^ 64
      → Own t (stage i)
  Inv-Own t stage i inv room = record {
    counter_pos = inv.counter_pos;
    room = room;
    locals = inv.locals i;
    mapped = inv.mapped i;
    listed = λ pos live.
        let (j, has) = inv.covered (slot (anchor (stage i))) live in
        let aligned = (anchor_owned k (stage i) t (inv.locals i) pos).0 in
        let at_anchor : entry_of (stage j) ≡ anchor (stage i) = omega (arith, has.1) in
        let theirs = entry-anchor (stage j) has.0 in
        elim (ℕ-cases i j) [
          | inl same ↦ rw (← same) at at_anchor
          | inr differ ↦
              absurd (slots_apart k inv i j differ (omega (arith, has.0)) (rw (theirs, at_anchor)))
        ];
  }

  either : {P Q R : Type 0} → P ⊎ Q → P ⊎ (Q ⊎ R)
  either (inl p) = inl p
  either (inr q) = inr (inl q)

  module _ {t : Tracker k} {g g' : Stage} (o : Own t g) where
    -- An operation that changes neither the tables nor what is mapped.
    pub quiet :
        {t' : Tracker k}
        → t'.tracked_alloc_table ≡ t.tracked_alloc_table
        → t'.info_table ≡ t.info_table
        → ((x : ℕ) → k.mapped t'.os x ≡ k.mapped t.os x)
        → t'.alloc_id_counter ≡ t.alloc_id_counter
        → Local k t' g'
        → base g' ≡ base g
        → len k t' g' ≡ len k t g
        → entry_of g' ≡ entry_of g
        → Onward g g'
        → Effect k t g t' g'
    quiet table info memory pos l b n e on = record {
      counter_grows = omega (arith, pos);
      ahead = on.0;
      ids = either on.1;
      own_locals = l;
      elsewhere = λ n differ. record { table = ap (λ f. f n) table; info = ap (λ f. f n) info };
      kept = λ x is_mapped _. rw memory is_mapped;
      mine = λ x mine. rw memory (o.mapped x (rw (b, n) at mine));
      origin = λ x mine. inl (rw (b, n) at mine);
      entries = λ n live. ground (arith, ap (λ f. f n) table);
    }

    -- A load.
    pub loads :
        Local k t g'
        → base g' ≡ base g
        → len k t g' ≡ len k t g
        → entry_of g' ≡ entry_of g
        → Onward g g'
        → Effect k t g t g'
    loads l b n e on = quiet refl refl (λ x. refl) refl l b n e on

    -- A system call that unmaps bytes of the task's own.
    pub unmaps :
        (c n : ℕ) {t' : Tracker k}
        → Unmapping k c n t.os t'.os
        → SameTables k t t'
        → Local k t' g'
        → ((x : ℕ) → within c n x ≡ true → owns k t g x ≡ true)
        → ((x : ℕ) → owns k t' g' x ≡ true → (owns k t g x ≡ true) × (within c n x ≡ false))
        → entry_of g' ≡ entry_of g
        → Onward g g'
        → Effect k t g t' g'
    unmaps c n gone same l cut rest e on = record {
      counter_grows = omega (arith, same.counter);
      ahead = on.0;
      ids = either on.1;
      own_locals = l;
      elsewhere =
          λ n differ. record { table = ap (λ f. f n) same.table; info = ap (λ f. f n) same.info };
      kept = λ x is_mapped other. ground (arith, gone.mapped x, cut x);
      mine = λ x mine. ground (arith, gone.mapped x, rest x mine, o.mapped x);
      origin = λ x mine. inl (rest x mine).0;
      entries = λ n live. ground (arith, ap (λ f. f n) same.table);
    }

    -- A store into the entry of `info_table`.
    pub writes :
        (info : TrackedAllocInfo)
        → let t' : Tracker k = record t {
          info_table = update t.info_table (slot (anchor g)) info;
        } in
          Local k t' g'
          → base g' ≡ base g
          → len k t' g' ≡ len k t g
          → entry_of g' ≡ entry_of g
          → Onward g g'
          → Effect k t g t' g'
    writes info l b n e on = record {
      counter_grows = omega arith;
      ahead = on.0;
      ids = either on.1;
      own_locals = l;
      elsewhere = λ n differ. record { table = refl; info = ground arith };
      kept = λ x is_mapped _. is_mapped;
      mine = λ x mine. o.mapped x (rw (b, n) at mine);
      origin = λ x mine. inl (rw (b, n) at mine);
      entries = λ n live. ground arith;
    }

    -- An exchange of the entry of `tracked_alloc_table`.
    pub exchanges :
        (entry : ℕ)
        → let t' : Tracker k = record t {
          tracked_alloc_table = update t.tracked_alloc_table (slot (anchor g)) entry;
        } in
          Local k t' g'
          → base g' ≡ base g
          → len k t' g' ≡ len k t g
          → anchor g % 2 ^ 30 ≡ 0
          → (entry_of g ≡ 0) ⊎ (entry_of g ≡ anchor g)
          → entry_of g' ≡ entry
          → (entry ≡ 0) ⊎ (entry ≡ anchor g)
          → Onward g g'
          → Effect k t g t' g'
    exchanges entry l b n a old e new on = record {
      counter_grows = omega arith;
      ahead = on.0;
      ids = either on.1;
      own_locals = l;
      elsewhere = λ n differ. record { table = ground arith; info = refl };
      kept = λ x is_mapped _. is_mapped;
      mine = λ x mine. o.mapped x (rw (b, n) at mine);
      origin = λ x mine. inl (rw (b, n) at mine);
      entries = λ n live. ground arith;
    }

  -- The next operation succeeds, with an effect that the other tasks do not notice.
  abbrev pub Succeeds : Tracker k → Stage → Type 0
  Succeeds t g = Returns (λ g' t'. Effect k t g t' g') (advance k g t)

pub slot_inside : (p : ℕ) → p < 2 ^ 47 → ltb (slot p) table_size ≡ true
slot_inside p h = ground arith

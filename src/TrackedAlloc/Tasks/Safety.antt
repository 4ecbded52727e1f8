-- ===== src/TrackedAlloc/Tasks/Safety.antt =====
-- What holds in every state that an interleaving reaches.
use poireau.Prelude.{
  ℕ, ◌+◌, ◌%◌, ◌^◌, ◌<◌, ◌≡◌, ◌≢◌, ◌⊎◌, inl, inr, true, false, update, within, arith, ℕ-cases,
  Bool-cases, refl,
}
use poireau.Exec.{done}
use poireau.Exec.Returns
use poireau.Exec.Returns.{Returns, normally, at_done}
use poireau.Kernel.{Kernel, KernelLaws}
use poireau.TrackedAlloc.{Tracker, tracked_alloc_p, tracked_alloc_info}
use poireau.TrackedAlloc.Pages.{pages}
use poireau.TrackedAlloc.Invariant.{slot}
use poireau.TrackedAlloc.Tasks.{
  Stage, idle, get_start, held, resize_start, put_start, advance, System, Step, call_get, call_put,
  call_resize, run, Reach, here, next, IsInitial,
}
use poireau.TrackedAlloc.Tasks.Invariant.{
  anchor, entry_of, entry-anchor, id_of, left, owns, base, len, Local, size_at, Inv, anchor_owned,
}
use poireau.TrackedAlloc.Tasks.Effect.{Effect, Effect-Inv}
use poireau.TrackedAlloc.Tasks.Own.{Inv-Own}
use poireau.TrackedAlloc.Tasks.Advance.{advance-Succeeds}

module _ (k : Kernel) where
  abbrev pub IsSafe : System k → Type 0
  IsSafe s = Inv k s.shared s.stage

  initial-IsSafe : (s : System k) → IsInitial k s → IsSafe s
  initial-IsSafe s h = record {
    counter_pos = omega (arith, h.counter);
    locals = λ j. rw (h.stages j) tt;
    mapped = λ j x. rw (h.stages j) (λ e. absurd (ground arith));
    apart = λ i j x. rw (h.stages i) (λ e. absurd (ground arith));
    issued = λ j. rw (h.stages j, h.counter) (omega arith);
    distinct = λ i j. rw (h.stages i) (λ e. absurd (omega arith));
    covered = λ n live. absurd (live (h.table n));
  }

  call_get-Effect :
      (t : Tracker k) (request : ℕ) → 0 < request → Effect k t idle t (get_start request)
  call_get-Effect t request pos = record {
    counter_grows = omega arith;
    ahead = inl refl;
    ids = inl refl;
    own_locals = pos;
    elsewhere = λ n differ. record { table = refl; info = refl };
    kept = λ x is_mapped _. is_mapped;
    mine = λ x mine. absurd (ground arith);
    origin = λ x mine. absurd (ground arith);
    entries = λ n live. inr (live, λ has. omega (arith, has.0));
  }

  -- A call with a pointer that the task holds.
  call_held-Effect :
      (t : Tracker k) (p id : ℕ) (g' : Stage)
      → ((x : ℕ) → owns k t (held p id) x ≡ true → k.mapped t.os x ≡ true)
      → Local k t g'
      → base g' ≡ p
      → len k t g' ≡ len k t (held p id)
      → entry_of g' ≡ p
      → (id_of g' ≡ 0) ⊎ (id_of g' ≡ id)
      → Effect k t (held p id) t g'
  call_held-Effect t p id g' is_mapped l b n e same_id = record {
    counter_grows = omega arith;
    ahead = inl refl;
    ids = ground arith;
    own_locals = l;
    elsewhere = λ n differ. record { table = refl; info = refl };
    kept = λ x before _. before;
    mine = λ x mine. is_mapped x (rw (b, n) at mine);
    origin = λ x mine. inl (rw (b, n) at mine);
    entries = λ n live. ground arith;
  }

module _ (k : Kernel) (laws : KernelLaws k) where
  abbrev Moved : System k → ℕ → Stage → Tracker k → Type 0
  Moved s i g t = Effect k s.shared (s.stage i) t g

  advance-Moved :
      (s : System k) (i : ℕ)
      → IsSafe k s
      → s.shared.alloc_id_counter + 1 < 2 ^ 64
      → Returns (Moved s i) (advance k (s.stage i) s.shared)
  advance-Moved s i inv room =
      advance-Succeeds k laws s.shared (s.stage i) (Inv-Own k s.shared s.stage i inv room)

  Step-IsSafe : {s u : System k} → Step k s u → IsSafe k s → IsSafe k u
  Step-IsSafe {s} (call_get i request h pos) inv =
      Effect-Inv k inv i (get_start request) (rw h (call_get-Effect k s.shared request pos))
  Step-IsSafe {s} (call_put i p id h) inv =
      let local = rw h at (inv.locals i) in
      Effect-Inv k inv i (put_start p) (
        rw h (
          call_held-Effect k s.shared p id (put_start p) (rw h at (inv.mapped i)) local.0 refl refl
            refl (inl refl)))
  Step-IsSafe {s} (call_resize i p id request h pos fits) inv =
      let local = rw h at (inv.locals i) in
      Effect-Inv k inv i (resize_start p id request) (
        rw h (
          call_held-Effect k s.shared p id (resize_start p id request) (rw h at (inv.mapped i))
            (local.0, local.1, pos, fits) refl refl refl (inr refl)))
  Step-IsSafe {s} (run i {g} {t} room ran) inv =
      Effect-Inv k inv i g (at_done (advance-Moved s i inv room) ran)

  pub Reach-IsSafe : {s u : System k} → IsInitial k s → Reach k s u → IsSafe k u
  Reach-IsSafe {s} h here = initial-IsSafe k s h
  Reach-IsSafe h (next r step) = Step-IsSafe step (Reach-IsSafe h r)

  -- In every state that the interleaved atomic operations and system calls of any number of
  -- allocations reach from the start, while the counter is not at its end, the next operation of
  -- any task succeeds: no assertion fails and no access leaves a table; what is reached is safe
  -- again (no byte belongs to two tasks, all that belongs to one is mapped, each entry of the
  -- table is a task's, no identifier is given out twice), and a call that is on its way comes
  -- closer to its return.
  pub advance-Onward :
      (s u : System k) (i : ℕ)
      → IsInitial k s
      → Reach k s u
      → u.shared.alloc_id_counter + 1 < 2 ^ 64
      → Returns
          (λ g t.
            IsSafe k (record { shared = t; stage = update u.stage i g })
            × ((left (u.stage i) ≡ 0) ⊎ (left g < left (u.stage i))))
          (advance k (u.stage i) u.shared)
  advance-Onward s u i start r room =
      let inv = Reach-IsSafe start r in
      Returns.weaken (advance-Moved u i inv room) λ g t e. (Effect-Inv k inv i g e, e.ahead)

  -- What two clients that hold allocations can rely on.
  pub record Separate (u : System k) (i j p q a b : ℕ) : Type 0 where
    pub ids : a ≢ b
    pub pointers : p ≢ q
    pub sizes : (0 < size_at k u.shared p) × (0 < size_at k u.shared q)
    pub bytes :
        (x : ℕ)
        → within p (pages (size_at k u.shared p)) x ≡ true
        → (k.mapped u.shared.os x ≡ true) × (within q (pages (size_at k u.shared q)) x ≡ false)

  -- In every state that the interleaved operations of any number of allocations reach from the
  -- start, two different clients that hold a pointer hold different pointers with different
  -- identifiers and sizes that are not 0; the pages of the first are mapped, and none of their
  -- bytes is in the pages of the second.
  pub held-Separate :
      (s u : System k) (i j p q a b : ℕ)
      → IsInitial k s
      → Reach k s u
      → i ≢ j
      → u.stage i ≡ held p a
      → u.stage j ≡ held q b
      → Separate u i j p q a b
  held-Separate s u i j p q a b start r differ at_i at_j =
      let inv = Reach-IsSafe start r in
      let local_i : Local k u.shared (held p a) = rw at_i at (inv.locals i) in
      let local_j : Local k u.shared (held q b) = rw at_j at (inv.locals j) in
      let mapped : (x : ℕ) → owns k u.shared (held p a) x ≡ true → k.mapped u.shared.os x ≡ true =
        rw at_i at (inv.mapped i) in
      let apart : (x : ℕ)
          → owns k u.shared (held p a) x ≡ true
          → owns k u.shared (held q b) x ≡ true
          → i ≡ j =
        rw (at_i, at_j) at (inv.apart i j) in
      record {
        ids = λ same. differ (
            inv.distinct i j (rw at_i (omega (arith, local_i.0.1, local_i.1)))
              (rw (at_i, at_j) same));
        pointers = λ same. differ (apart p (ground arith) (ground arith));
        sizes = (local_i.0.0.2, local_j.0.0.2);
        bytes = λ x mine. (
          mapped x mine,
          elim (Bool-cases (owns k u.shared (held q b) x)) [
            | inl theirs ↦ absurd (differ (apart x mine theirs))
            | inr free ↦ free
          ],
        );
      }

  -- In every state that the interleaved operations reach, `tracked_alloc_p` answers true for a
  -- pointer that a client holds, and `tracked_alloc_info` has its identifier and size; both
  -- change nothing.
  pub tracked_alloc_p-held :
      (s u : System k) (i p id : ℕ)
      → IsInitial k s
      → Reach k s u
      → u.stage i ≡ held p id
      → (tracked_alloc_p k p u.shared ≡ done true u.shared)
        × (tracked_alloc_info k p u.shared
            ≡ done (record { id = id; size = size_at k u.shared p }) u.shared)
  unfolding tracked_alloc_p tracked_alloc_info
  tracked_alloc_p-held s u i p id start r at_i =
      let local : Local k u.shared (held p id) = rw at_i at ((Reach-IsSafe start r).locals i) in
      (ground (arith, local.0.0, local.0.2), ground (arith, local.0.0, local.0.2, local.1))

  -- In every state that the interleaved operations reach, `tracked_alloc_p` answers false for an
  -- address below 2 ^ 47 that no task owns, a pointer of the underlying allocator for one, and
  -- changes nothing.
  pub tracked_alloc_p-foreign :
      (s u : System k) (p : ℕ)
      → IsInitial k s
      → Reach k s u
      → p < 2 ^ 47
      → ((j : ℕ) → owns k u.shared (u.stage j) p ≡ false)
      → tracked_alloc_p k p u.shared ≡ done false u.shared
  unfolding tracked_alloc_p
  tracked_alloc_p-foreign s u p start r below foreign =
      elim (ℕ-cases (u.shared.tracked_alloc_table (slot p)) p) [
        | inr other ↦ ground arith
        | inl same ↦ elim (ℕ-cases p 0) [
          | inl null ↦ ground arith
          | inr found ↦
              let inv = Reach-IsSafe start r in
              let (j, has) = inv.covered (slot p) (ground arith) in
              let theirs = entry-anchor (u.stage j) has.0 in
              let owned =
                anchor_owned k (u.stage j) u.shared (inv.locals j) (omega (arith, has.0)) in
              elim (ℕ-cases (p % 2 ^ 30) 0) [
                | inr misaligned ↦ ground arith
                | inl aligned ↦
                    let at_p : anchor (u.stage j) ≡ p = omega (arith, has.1) in
                    let mine = foreign j in absurd (cc)
              ]
        ]
      ]

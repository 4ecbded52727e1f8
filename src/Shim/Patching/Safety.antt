-- ===== src/Shim/Patching/Safety.antt =====
-- What holds of the pointers in every state that the threads reach.
use poireau.Prelude.{ℕ, ◌≡◌, true, false, List, ◌∷◌, ◌⊎◌, inl, inr, arith, ◌==◌, ℕ-cases, update}
use poireau.Shim.{Target}
use poireau.Shim.Patching.{
  Pointers, Frame, returns, Thread, Program, Step, call, move, Reach, here, next, IsInitial,
}
use poireau.Shim.Patching.Nesting.{Nested}
use poireau.Shim.Patching.Order.{
  Ordered, Onward, Onward-refl, Onward-trans, Good, proceed-Good, call-Good, Onward-Good,
  empty-Good, returned_done,
}

pub record Sound (p : Program) : Type 0 where
  pub ordered : Ordered p.pointers
  pub good : (i : ℕ) → Good p.pointers (p.threads i).is_started (p.threads i).frames

abbrev GoodThread : Pointers → Thread → Type 0
GoodThread s th = Good s th.is_started th.frames

updated-Good :
    (s : Pointers) (threads : ℕ → Thread) (i : ℕ) (th : Thread)
    → ((j : ℕ) → GoodThread s (threads j))
    → GoodThread s th
    → (j : ℕ) → GoodThread s (update threads i th j)
updated-Good s threads i th others new j = elim (ℕ-cases i j) [
  | inl same ↦ let test : (i == j) ≡ true = ground arith in rw test new
  | inr other ↦ let test : (i == j) ≡ false = ground arith in rw test (others j)
]

initial-Sound : {p : Program} → IsInitial p → Sound p
initial-Sound {p} start = record {
  ordered = record {
    free_first = λ h. let off = start.realloc in absurd (cc);
    then_realloc = λ h. let off = start.malloc in absurd (cc);
    then_malloc = λ h. let off = start.calloc in absurd (cc);
    done_last = λ h. let off = start.not_done in absurd (cc);
  };
  good = λ i. rw (start.no_calls i) (empty-Good p.pointers _);
}

pub step-Sound : {p q : Program} → Sound p → Step p q → Sound q
step-Sound {p} g (call i may) = record {
  ordered = g.ordered;
  good = updated-Good p.pointers p.threads i _ g.good (call-Good p.pointers _ _ (g.good i) may);
}
step-Sound {p} g (move i) =
    let th = p.threads i in
    let (onward, ordered, good) =
      proceed-Good p.pointers th.is_started th.frames g.ordered (g.good i) in
    record {
      ordered = ordered;
      good = updated-Good _ p.threads i _ (λ j. Onward-Good onward (g.good j)) good;
    }

step-Onward : {p q : Program} → Sound p → Step p q → Onward p.pointers q.pointers
step-Onward {p} g (call i may) = Onward-refl p.pointers
step-Onward {p} g (move i) =
    let th = p.threads i in (proceed-Good p.pointers th.is_started th.frames g.ordered (g.good i)).0

-- From a sound state on.
on : {p q : Program} → Sound p → Reach p q → Sound q × Onward p.pointers q.pointers
on {p} g here = (g, Onward-refl p.pointers)
on g (next before step) =
    let (there, onward) = on g before in
    (step-Sound there step, Onward-trans onward (step-Onward there step))

pub reach-Sound : {p q : Program} → IsInitial p → Reach p q → Sound q
reach-Sound start before = (on (initial-Sound start) before).0

-- In every state that the threads reach from the loading of the library and in every later one, a
-- pointer that is patched stays so, and so does `done`.
reach-Onward :
    {p q r : Program} → IsInitial p → Reach p q → Reach q r → Onward q.pointers r.pointers
reach-Onward start before later = (on (reach-Sound start before) later).1

-- The pointers of all four functions.
abbrev pub AllPatched : Pointers → Type 0
AllPatched s =
    (s.base_free ≡ Target.real)
    × (s.base_realloc ≡ Target.real)
    × (s.base_malloc ≡ Target.real)
    × (s.base_calloc ≡ Target.real)

done-AllPatched : {s : Pointers} → Ordered s → s.is_done ≡ true → AllPatched s
done-AllPatched o h =
    let calloc = o.done_last h in
    let malloc = o.then_malloc calloc in
    let realloc = o.then_realloc malloc in (o.free_first realloc, realloc, malloc, calloc)

-- In every state that any number of threads reach from the loading of the library, with each
-- access of `init_shim` to a shared variable as one step and with calls from inside `dlsym`: if
-- the underlying `malloc` or `calloc` can be called, so can the underlying `free` and `realloc`;
-- if `done` is set, or a call is about to return true, all four pointers are patched; and a
-- thread has at most two calls in progress, of which the inner one looks nothing up.
pub reach-Patched :
    {p q : Program} (i : ℕ)
    → IsInitial p
    → Reach p q
    → ((q.pointers.base_malloc ≡ Target.real) ⊎ (q.pointers.base_calloc ≡ Target.real)
        → (q.pointers.base_free ≡ Target.real) × (q.pointers.base_realloc ≡ Target.real))
      × (q.pointers.is_done ≡ true → AllPatched q.pointers)
      × ((rest : List Frame) → (q.threads i).frames ≡ returns true ∷ rest → AllPatched q.pointers)
      × Nested (q.threads i).is_started (q.threads i).frames
reach-Patched i start reached =
    let g = reach-Sound start reached in
    let o = g.ordered in
    (
      λ out. elim out [
        | inl malloc ↦ let realloc = o.then_realloc malloc in (o.free_first realloc, realloc)
        | inr calloc ↦
            let realloc = o.then_realloc (o.then_malloc calloc) in (o.free_first realloc, realloc)
      ],
      done-AllPatched o,
      λ rest top. done-AllPatched o (returned_done rest (g.good i) top),
      (g.good i).nested,
    )

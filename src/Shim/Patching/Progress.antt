-- ===== src/Shim/Patching/Progress.antt =====
-- A call of `init_shim` returns, whatever the other threads do, and however often `dlsym` enters the
-- shim again.
use poireau.Prelude.{
  ℕ, suc, ◌+◌, ◌-◌, ◌*◌, ◌≤◌, ◌<◌, ◌≡◌, ◌≢◌, refl, Bool, true, false, ◌||◌, List, [], ◌∷◌, inl, inr,
  arith, ◌==◌, Bool-cases,
}
use poireau.Shim.Names.{Wrapped, free, realloc, malloc, calloc}
use poireau.Shim.Patching.{
  Pointers, Frame, test, reads_done, lookup, sets_done, returns, after, proceed, may_call, Program,
  calls, moves, call, move, Reach, IsInitial,
}
use poireau.Shim.Patching.Nesting.{Nested, inner_started}
use poireau.Shim.Patching.Safety.{Sound, step-Sound, reach-Sound}

-- The steps that are left to a call at most, if `n` are left before its test.
frame_left : (n : ℕ) → Frame → ℕ
frame_left n test = n
frame_left n reads_done = 2
frame_left n (lookup free) = 6
frame_left n (lookup realloc) = 5
frame_left n (lookup malloc) = 4
frame_left n (lookup calloc) = 3
frame_left n sets_done = 2
frame_left n (returns ok) = 1

-- An inner call finds that the thread has started.
left : List Frame → ℕ
left [] = 0
left (f ∷ []) = frame_left 7 f
left (f ∷ g ∷ fs) = frame_left 3 f + left (g ∷ fs)

lookup_left : (n : ℕ) (f : Wrapped) → suc (frame_left n (after f)) ≡ frame_left n (lookup f)
unfolding frame_left after
lookup_left n free = refl
lookup_left n realloc = refl
lookup_left n malloc = refl
lookup_left n calloc = refl

some_frame_left : (n : ℕ) (f : Frame) → 0 < n → 0 < frame_left n f
unfolding frame_left
some_frame_left n test some = some
some_frame_left n reads_done some = omega arith
some_frame_left n (lookup free) some = omega arith
some_frame_left n (lookup realloc) some = omega arith
some_frame_left n (lookup malloc) some = omega arith
some_frame_left n (lookup calloc) some = omega arith
some_frame_left n sets_done some = omega arith
some_frame_left n (returns ok) some = omega arith

some_left : (f : Frame) (fs : List Frame) → 0 < left (f ∷ fs)
unfolding left
some_left f [] = some_frame_left 7 f (omega arith)
some_left f (g ∷ fs) = omega (arith, some_frame_left 3 f (omega arith))

nothing_left : (fs : List Frame) → left fs ≤ 0 → fs ≡ []
nothing_left [] h = refl
nothing_left (f ∷ fs) h = absurd (omega (arith, some_left f fs))

-- `dlsym` enters the shim again.
left_test : (f : Wrapped) (fs : List Frame) → left (test ∷ lookup f ∷ fs) ≡ 3 + left (lookup f ∷ fs)
unfolding left frame_left
left_test f fs = refl

-- Each step leaves fewer, until no call is in progress.
proceed-left :
    (s : Pointers) (started : Bool) (fs : List Frame)
    → Nested started fs
    → left (proceed s started fs).1.frames ≤ left fs - 1
unfolding proceed left frame_left
proceed-left s started [] n = omega arith
proceed-left s started (test ∷ []) n = elim (Bool-cases (s.is_done || started)) [
  | inl stay ↦ rw stay (omega arith)
  | inr go ↦ rw go (omega arith)
]
proceed-left s started (test ∷ g ∷ fs) n =
    let begun = inner_started started test g fs n in
    let stay : (s.is_done || started) ≡ true = ground (arith, begun) in rw stay (omega arith)
proceed-left s started (reads_done ∷ []) n = omega arith
proceed-left s started (reads_done ∷ g ∷ fs) n = omega arith
proceed-left s started (lookup f ∷ []) n = omega (arith, lookup_left 7 f)
proceed-left s started (lookup f ∷ g ∷ fs) n = omega (arith, lookup_left 3 f)
proceed-left s started (sets_done ∷ []) n = omega arith
proceed-left s started (sets_done ∷ g ∷ fs) n = omega arith
proceed-left s started (returns ok ∷ []) n = omega arith
proceed-left s started (returns ok ∷ g ∷ fs) n = omega arith

-- Thread `i` makes `n` steps, and enters the shim `c` times, from inside `dlsym`; the others do
-- what they like.
pub data Stretch (i : ℕ) (p : Program) : (n c : ℕ) → Program → Type 0 where
  start : Stretch i p 0 0 p
  own : {n c : ℕ} {q : Program} → Stretch i p n c q → Stretch i p (suc n) c (moves i q)
  enters_again :
      {n c : ℕ} {q : Program} (f : Wrapped) (fs : List Frame)
      → Stretch i p n c q
      → (q.threads i).frames ≡ lookup f ∷ fs
      → Stretch i p n (suc c) (calls i q)
  other_call :
      {n c : ℕ} {q : Program} (j : ℕ)
      → Stretch i p n c q
      → i ≢ j
      → may_call (q.threads j).frames ≡ true
      → Stretch i p n c (calls j q)
  other_move :
      {n c : ℕ} {q : Program} (j : ℕ) → Stretch i p n c q → i ≢ j → Stretch i p n c (moves j q)

stretch_left :
    {i : ℕ} {p : Program} {n c : ℕ} {q : Program}
    → Sound p
    → Stretch i p n c q
    → Sound q × (left (q.threads i).frames ≤ left (p.threads i).frames + 3 * c - n)
stretch_left g start = (g, omega arith)
stretch_left {i} g (own {q = q} run) =
    let (sound, fewer) = stretch_left g run in
    let th = q.threads i in
    let here : (i == i) ≡ true = ground arith in
    (
      step-Sound sound (move i),
      rw here
          (omega (arith, proceed-left q.pointers th.is_started th.frames (sound.good i).nested)),
    )
stretch_left {i} g (enters_again {q = q} f fs run inside) =
    let (sound, fewer) = stretch_left g run in
    let here : (i == i) ≡ true = ground arith in
    let may : may_call (q.threads i).frames ≡ true = rw inside in
    let some : 0 < left (q.threads i).frames = rw inside (some_left (lookup f) fs) in
    let more : left (test ∷ (q.threads i).frames) ≡ 3 + left (q.threads i).frames =
      rw inside (left_test f fs) in
    (step-Sound sound (call i may), rw here (omega (arith, more)))
stretch_left {i} g (other_call j run other may) =
    let (sound, fewer) = stretch_left g run in
    let there : (j == i) ≡ false = ground arith in (step-Sound sound (call j may), rw there fewer)
stretch_left {i} g (other_move j run other) =
    let (sound, fewer) = stretch_left g run in
    let there : (j == i) ≡ false = ground arith in (step-Sound sound (move j), rw there fewer)

-- In any state that the threads reach from the loading of the library, whatever the other threads
-- do from there on, a thread that is at the entry of `init_shim`, and from whose `dlsym` the shim
-- is entered c times more, has returned from all these calls after 7 + 3 * c steps of its own: a
-- call from inside `dlsym` looks nothing up and takes 3 steps.
pub Stretch-finishes :
    {i n c : ℕ} {o p q : Program}
    → IsInitial o
    → Reach o p
    → (p.threads i).frames ≡ test ∷ []
    → Stretch i p n c q
    → 7 + 3 * c ≤ n
    → (q.threads i).frames ≡ []
unfolding left frame_left
Stretch-finishes {i} {p = p} initial reached entered run enough =
    let first : left (p.threads i).frames ≡ 7 = rw entered in
    nothing_left _ (omega (arith, (stretch_left (reach-Sound initial reached) run).1))

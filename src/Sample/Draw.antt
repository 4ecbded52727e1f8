-- ===== src/Sample/Draw.antt =====
-- `sample_uniform`: its fast path, its slow path and the seeding together draw the first output of
-- the generator that is not 0.
use poireau.Prelude.{
  ℕ, zero, suc, ◌^◌, ◌<◌, ◌≡◌, refl, Bool, true, false, Option, none, some, ◌==◌, if◌then◌else◌,
  arith, Bool-cases, inl, inr, ◌∙◌, sym,
}
use mathlib.Core.Bool.{or-false}
use mathlib.Core.Path.{subst}
use poireau.Exec.{Failure, Outcome, done, failed, Exec, pure}
use poireau.Sample.{
  SampleState, xoshiro_step, xoshiro_output, all_zero, Entropy, Sampler, xoshiro_next, seed,
  maybe_initialize_xoshiro, sample_uniform_slow_path, uniform_bits,
}
use poireau.Sample.Xoshiro.{InRange, xoshiro_step-InRange, xoshiro_step-nonzero, xoshiro_output-lt}

-- The words of a generator that was seeded.
pub record IsSeeded (st : SampleState) : Type 0 where
  pub in_range : InRange st
  pub nonzero : all_zero st ≡ false

pub xoshiro_step-IsSeeded : {st : SampleState} → IsSeeded st → IsSeeded (xoshiro_step st)
xoshiro_step-IsSeeded {st} h = record {
  in_range = xoshiro_step-InRange h.in_range;
  nonzero = xoshiro_step-nonzero st h.in_range h.nonzero;
}

-- An all-zero generator stays as it is, and its output is 0.
zero_form :
    (st : SampleState) → all_zero st ≡ true → st ≡ record st { s0 = 0; s1 = 0; s2 = 0; s3 = 0 }
zero_form st z =
    let words : (st.s0 ≡ 0) × (st.s1 ≡ 0) × (st.s2 ≡ 0) × (st.s3 ≡ 0) = ground arith in
    λ i. record st { s0 = words.0 i; s1 = words.1 i; s2 = words.2 i; s3 = words.3 i }

xoshiro_step_zero : (st : SampleState) → all_zero st ≡ true → xoshiro_step st ≡ st
unfolding xoshiro_step
xoshiro_step_zero st z = subst (λ u. xoshiro_step u ≡ u) (sym (zero_form st z)) refl

xoshiro_output_zero : (st : SampleState) → all_zero st ≡ true → xoshiro_output st ≡ 0
unfolding xoshiro_output
xoshiro_output_zero st z = subst (λ u. xoshiro_output u ≡ 0) (sym (zero_form st z)) refl

-- The first output that is not 0, of at most `n`, and the state after it.
unfoldable pub draw : (n : ℕ) → SampleState → Option (ℕ × SampleState)
draw zero st = none
draw (suc n) st =
    let rest = draw n (xoshiro_step st) in
    if xoshiro_output st == 0 then rest else some (xoshiro_output st, xoshiro_step st)

-- What is drawn has 52 bits and is not 0, and leaves a seeded generator.
pub record IsDrawn (b : ℕ) (st : SampleState) : Type 0 where
  pub positive : 0 < b
  pub below : b < 2 ^ 52
  pub seeded : IsSeeded st

first-IsDrawn :
    (st : SampleState) (b : ℕ) (st' : SampleState)
    → IsSeeded st
    → (xoshiro_output st == 0) ≡ false
    → ◌≡◌ {A = Option (ℕ × SampleState)} (some (xoshiro_output st, xoshiro_step st)) (some (b, st'))
    → IsDrawn b st'
first-IsDrawn st b st' h found e =
    let same : (b ≡ xoshiro_output st) × (st' ≡ xoshiro_step st) = (cc, cc) in
    rw (same.0, same.1)
      (record {
        positive = ground arith;
        below = xoshiro_output-lt st;
        seeded = xoshiro_step-IsSeeded h;
      })

pub draw-IsDrawn :
    (n : ℕ) (st : SampleState) (b : ℕ) (st' : SampleState)
    → IsSeeded st
    → draw n st ≡ some (b, st')
    → IsDrawn b st'
unfolding draw
draw-IsDrawn zero st b st' h e = absurd (cc)
draw-IsDrawn (suc n) st b st' h e = elim (Bool-cases (xoshiro_output st == 0)) [
  | inl again ↦ draw-IsDrawn n (xoshiro_step st) b st' (xoshiro_step-IsSeeded h) (rw again at e)
  | inr found ↦ first-IsDrawn st b st' h found (rw found at e)
]

module _ (e : Entropy) where
  -- A drawn number with the flag, and the generator's new state in `m`; with no number in reach,
  -- the fuel is used up.
  abbrev pub drawn : Bool → Sampler e → Option (ℕ × SampleState) → Outcome (Sampler e) (ℕ × Bool)
  drawn newly m none = failed Failure.out_of_fuel
  drawn newly m (some (b, st)) = done (b, newly) (record m { state = st })

  slow_path-draw :
      (fuel rounds : ℕ) (newly : Bool) (m : Sampler e)
      → IsSeeded m.state
      → sample_uniform_slow_path e fuel rounds newly m ≡ drawn newly m (draw rounds m.state)
  unfolding sample_uniform_slow_path maybe_initialize_xoshiro xoshiro_next draw
  slow_path-draw fuel zero newly m h = refl
  slow_path-draw fuel (suc rounds) newly m h = ground (
    arith,
    h.nonzero,
    or-false newly,
    slow_path-draw fuel rounds newly (record m { state = xoshiro_step m.state })
        (xoshiro_step-IsSeeded h),
  )

  -- With a seeded generator, fast path and slow path together draw the first output that is not
  -- 0, as one plain search does, and leave the flag as it is.
  pub uniform_bits-draw :
      (fuel : ℕ) (newly : Bool) (m : Sampler e)
      → IsSeeded m.state
      → uniform_bits e fuel newly m ≡ drawn newly m (draw (suc fuel) m.state)
  unfolding uniform_bits xoshiro_next draw
  uniform_bits-draw fuel newly m h = elim (Bool-cases (xoshiro_output m.state == 0)) [
    | inl again ↦ rw again (
        slow_path-draw fuel fuel newly (record m { state = xoshiro_step m.state })
          (xoshiro_step-IsSeeded h))
    | inr found ↦ rw found
  ]

  -- A run that is chosen by a test, at its state.
  pub pick :
      {A : Type 0} (b : Bool) (f g : Exec (Sampler e) A) (s : Sampler e)
      → (elim b as (λ _. Exec (Sampler e) A) [ true ↦ f | false ↦ g ]) s ≡ (if b then f s else g s)
  pick true f g s = refl
  pick false f g s = refl

  fresh_round :
      (fuel rounds : ℕ) (m' : Sampler e)
      → IsSeeded m'.state
      → let next : Sampler e = record m' { state = xoshiro_step m'.state } in
        (if xoshiro_output m'.state == 0
          then sample_uniform_slow_path e fuel rounds true next
          else done (xoshiro_output m'.state, true) next)
        ≡ drawn true m' (draw (suc rounds) m'.state)
  unfolding draw
  fresh_round fuel rounds m' h = elim (Bool-cases (xoshiro_output m'.state == 0)) [
    | inl again ↦ rw again (slow_path-draw fuel rounds true _ (xoshiro_step-IsSeeded h))
    | inr found ↦ rw found
  ]

  slow_path-fresh :
      (fuel rounds : ℕ) (newly : Bool) (m m' : Sampler e)
      → all_zero m.state ≡ true
      → seed e fuel m ≡ done tt m'
      → IsSeeded m'.state
      → sample_uniform_slow_path e fuel (suc rounds) newly m
        ≡ drawn true m' (draw (suc rounds) m'.state)
  unfolding sample_uniform_slow_path maybe_initialize_xoshiro xoshiro_next draw
  slow_path-fresh fuel rounds true m m' z s h =
      rw (z, s)
        (pick (xoshiro_output m'.state == 0) (sample_uniform_slow_path e fuel rounds true)
            (pure (xoshiro_output m'.state, true)) (record m' { state = xoshiro_step m'.state })
          ∙ fresh_round fuel rounds m' h)
  slow_path-fresh fuel rounds false m m' z s h =
      rw (z, s)
        (pick (xoshiro_output m'.state == 0) (sample_uniform_slow_path e fuel rounds true)
            (pure (xoshiro_output m'.state, true)) (record m' { state = xoshiro_step m'.state })
          ∙ fresh_round fuel rounds m' h)

  -- An all-zero generator is seeded first, and the flag is set; then the first output that is not
  -- 0 is drawn from the new words.
  pub uniform_bits-fresh :
      (fuel : ℕ) (newly : Bool) (m m' : Sampler e)
      → all_zero m.state ≡ true
      → seed e (suc fuel) m ≡ done tt m'
      → IsSeeded m'.state
      → uniform_bits e (suc fuel) newly m ≡ drawn true m' (draw (suc fuel) m'.state)
  unfolding uniform_bits xoshiro_next
  uniform_bits-fresh fuel newly m m' z s h =
      let zero_out : (xoshiro_output m.state == 0) ≡ true = rw (xoshiro_output_zero m.state z) in
      rw (zero_out, xoshiro_step_zero m.state z) (slow_path-fresh (suc fuel) fuel newly m m' z s h)

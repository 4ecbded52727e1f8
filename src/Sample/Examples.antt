-- ===== src/Sample/Examples.antt =====
-- Runs of the sampler over a small source of randomness and simplified doubles, and the theorems
-- at them.
use poireau.Prelude.{
  ℕ, ◌+◌, ◌-◌, ◌*◌, ◌/◌, ◌^◌, ◌<◌, ◌≡◌, ◌∙◌, sym, ◌≢◌, ap, ◌⊎◌, refl, Bool, true, false, some, [],
  ◌∷◌, arith,
}
use poireau.Exec.{done}
use poireau.Sample.{
  SampleState, Reply, Entropy, Doubles, Sampler, xoshiro_step, xoshiro_output, seed,
  sample_request_x86, sample_request_portable, uniform_bits, sample_uniform, sample_request_reset,
}
use poireau.Sample.Xoshiro.{InRange}
use poireau.Sample.Inverse.{xoshiro_back, xoshiro_step-permutes, steps, steps_distinct}
use poireau.Sample.Request.{AllPass, Hits, skip, skip_lem, sample_request_x86-eq-portable}
use poireau.Sample.Draw.{IsSeeded, draw, drawn, uniform_bits-draw}
use poireau.Sample.Reset.{
  DoubleLaws, sample_uniform-fraction, threshold, at_threshold, redraw, redrawn,
  sample_request_reset-redraw,
}

-- A source that is interrupted in every second state.
abbrev pub source : Entropy
source = record {
  State = Bool;
  getrandom = λ s. elim s [
    | true ↦ (Reply.interrupted, false)
    | false ↦ (Reply.filled (2 ^ 62) 2 3 (2 ^ 40), true)
  ];
}

-- Fixed-point numbers with 52 binary places and no sign; the logarithm is the first term of its
-- series at 1.
abbrev pub fixed_point : Doubles
fixed_point = record {
  Double = ℕ;
  one = 2 ^ 52;
  of_size = λ n. n * 2 ^ 52;
  to_bits = λ x. x + 1022 * 2 ^ 52;
  of_bits = λ b. b - 1022 * 2 ^ 52;
  minus = λ x y. x - y;
  times = λ x y. x * y / 2 ^ 52;
  negate = λ x. x;
  log = λ x. 2 ^ 52 - x;
  to_size = λ x. x / 2 ^ 52;
}

fixed_point_laws : DoubleLaws fixed_point (λ x n. x ≡ n)
fixed_point_laws = record {
  one_bits = refl;
  one_value = refl;
  significand = λ b h. omega arith;
  minus_exact = λ x y m n p q less small. ground arith;
  unique = λ x m n p q. sym p ∙ q;
}

abbrev pub unseeded : SampleState
unseeded = record { s0 = 0; s1 = 0; s2 = 0; s3 = 0; bytes_until_next_sample = 0 }

abbrev pub seeded : SampleState
seeded = record { s0 = 2 ^ 62; s1 = 2; s2 = 3; s3 = 2 ^ 40; bytes_until_next_sample = 100 }

pub seeded-IsSeeded : IsSeeded seeded
seeded-IsSeeded = record {
  in_range = record { s0 = omega arith; s1 = omega arith; s2 = omega arith; s3 = omega arith };
  nonzero = refl;
}

abbrev sampler : SampleState → Sampler source
sampler st = record { state = st; source = true }

-- The first number of the seeded generator, and the state after it.
abbrev number : ℕ
number = xoshiro_output seeded

abbrev next : SampleState
next = xoshiro_step seeded

draw_run : draw 3 seeded ≡ some (number, next)
unfolding draw xoshiro_output
draw_run = refl

sample_request_x86-eq-portable_example :
    sample_request_x86 150 seeded ≡ sample_request_portable 150 seeded
sample_request_x86-eq-portable_example =
    sample_request_x86-eq-portable 150 seeded (omega arith) (omega arith)

skip_lem_example :
    AllPass 100 (60 ∷ 30 ∷ 20 ∷ 5 ∷ []) (skip (60 ∷ 30 ∷ 20 ∷ 5 ∷ []) seeded)
    ⊎ Hits 100 (60 ∷ 30 ∷ 20 ∷ 5 ∷ []) (skip (60 ∷ 30 ∷ 20 ∷ 5 ∷ []) seeded).0
skip_lem_example = skip_lem (60 ∷ 30 ∷ 20 ∷ 5 ∷ []) seeded (omega arith) (omega arith)

skip_run : (skip (60 ∷ 30 ∷ 20 ∷ 5 ∷ []) seeded).0 ≡ 20 ∷ 5 ∷ []
unfolding skip sample_request_portable
skip_run = refl

uniform_bits-draw_example :
    uniform_bits source 2 false (sampler seeded)
    ≡ drawn source false (sampler seeded) (draw 3 seeded)
uniform_bits-draw_example = uniform_bits-draw source 2 false (sampler seeded) seeded-IsSeeded

-- The state that the seeding leaves; its threshold is still that of `unseeded`.
abbrev pub after_seed : SampleState
after_seed = record seeded { bytes_until_next_sample = 0 }

after_seed-IsSeeded : IsSeeded after_seed
after_seed-IsSeeded = record {
  in_range = record { s0 = omega arith; s1 = omega arith; s2 = omega arith; s3 = omega arith };
  nonzero = refl;
}

-- The first call of the source is interrupted, the second one is not.
seed_run : seed source 3 (sampler unseeded) ≡ done tt (sampler after_seed)
unfolding seed
seed_run = refl

-- After the seeding, with the count that has wrapped around.
abbrev pub awake : Sampler source
awake = record {
  state = record after_seed { bytes_until_next_sample = 2 ^ 64 - 50 };
  source = true;
}

pub awake-IsSeeded : IsSeeded awake.state
awake-IsSeeded = record {
  in_range = record { s0 = omega arith; s1 = omega arith; s2 = omega arith; s3 = omega arith };
  nonzero = refl;
}

pub awake_run :
    seed source 3 (sampler (at_threshold source fixed_point unseeded (2 ^ 64 - 50))) ≡ done tt awake
unfolding seed
awake_run = refl

sample_uniform-fraction_example :
    (x : ℕ) × (sample_uniform source fixed_point 2 false (sampler seeded)
      ≡ done (x, false) (sampler next))
    × (x ≡ number)
    × (0 < number)
    × (number < 2 ^ 52)
    × (x ≢ 2 ^ 52)
sample_uniform-fraction_example =
    sample_uniform-fraction source fixed_point (λ x n. x ≡ n) 2 false (sampler seeded) number next
      fixed_point_laws seeded-IsSeeded draw_run

sample_request_reset-redraw_example :
    sample_request_reset source fixed_point 3 (sampler seeded)
    ≡ redrawn source fixed_point (sampler seeded) (redraw source fixed_point 3 3 seeded)
sample_request_reset-redraw_example =
    sample_request_reset-redraw source fixed_point 3 (sampler seeded) seeded-IsSeeded

-- The threshold of the first number.
abbrev first_threshold : ℕ
first_threshold = threshold source fixed_point number

second_draw_run : draw 3 after_seed ≡ some (number, xoshiro_step after_seed)
unfolding draw xoshiro_output
second_draw_run = refl

redraw_run :
    redraw source fixed_point 3 3 seeded
    ≡ some (at_threshold source fixed_point next first_threshold)
unfolding redraw draw threshold xoshiro_output
redraw_run = refl

xoshiro_step-permutes_example :
    InRange (xoshiro_step seeded)
    × InRange (xoshiro_back seeded)
    × (xoshiro_back (xoshiro_step seeded) ≡ seeded)
    × (xoshiro_step (xoshiro_back seeded) ≡ seeded)
xoshiro_step-permutes_example = xoshiro_step-permutes seeded seeded-IsSeeded.in_range

-- Another seed.
abbrev other : SampleState
other = record seeded { s1 = 5 }

other-InRange : InRange other
other-InRange = record { s0 = omega arith; s1 = omega arith; s2 = omega arith; s3 = omega arith }

other_words : seeded ≢ other
other_words same =
    let word : seeded.s1 ≡ other.s1 = ap (λ (st : SampleState). st.s1) same in
    absurd (omega (arith, word))

steps_distinct_example : steps 1000 seeded ≢ steps 1000 other
steps_distinct_example =
    steps_distinct 1000 seeded other seeded-IsSeeded.in_range other-InRange other_words

-- ===== src/Sample/Reset.antt =====
-- `sample_uniform` and `sample_request_reset`: the next threshold.
use poireau.Prelude.{
  ℕ, zero, suc, ◌+◌, ◌-◌, ◌*◌, ◌^◌, ◌≤◌, ◌<◌, ◌≡◌, ◌≢◌, refl, sym, Bool, true, false, Option, none,
  some, ◌==◌, if◌then◌else◌, arith, Bool-cases, Option-cases, inl, inr, ◌∙◌, bit_or,
}
use mathlib.Core.Path.{subst}
use poireau.Word.Bits.{bit_or_fields}
use poireau.Exec.{Failure, Outcome, done, failed, pure}
use poireau.Sample.{
  SampleState, all_zero, Entropy, Doubles, Sampler, seed, sample_uniform, sample_exponential,
  reset_loop, sample_request_reset, sample_period,
}
use poireau.Sample.Draw.{IsSeeded, draw, draw-IsDrawn, pick, uniform_bits-draw, uniform_bits-fresh}

-- What IEEE 754 says of doubles; `IsFraction x n` says that `x` is n / 2 ^ 52. The doubles from 1
-- to 2 are 1 with 52 binary places, which are the lowest bits of their encoding; and a difference
-- that is a double is not rounded.
pub record DoubleLaws (d : Doubles) (IsFraction : d.Double → ℕ → Type 0) : Type 0 where
  pub one_bits : d.to_bits d.one ≡ 1023 * 2 ^ 52
  pub one_value : IsFraction d.one (2 ^ 52)
  pub significand : (b : ℕ) → b < 2 ^ 52 → IsFraction (d.of_bits (1023 * 2 ^ 52 + b)) (2 ^ 52 + b)
  pub minus_exact :
      (x y : d.Double) (m n : ℕ)
      → IsFraction x m
      → IsFraction y n
      → n ≤ m
      → m - n < 2 ^ 53
      → IsFraction (d.minus x y) (m - n)
  pub unique : (x : d.Double) (m n : ℕ) → IsFraction x m → IsFraction x n → m ≡ n

none≢some : {A : Type 0} (a : A) → none ≡ some a → ⊥
none≢some a e = cc

of_some : {A : Type 0} (a b : A) → some a ≡ some b → a ≡ b
of_some a b e = cc

module _ (e : Entropy) (d : Doubles) where
  -- With a seeded generator and the laws of the IEEE 754 doubles, if there is an output that is
  -- not 0 within the fuel, `sample_uniform` returns the double with the value b / 2 ^ 52, where b
  -- is the first such output, 0 < b and b < 2 ^ 52; and so it never returns 1.0.
  pub sample_uniform-fraction :
      (IsFraction : d.Double → ℕ → Type 0) (fuel : ℕ) (newly : Bool) (m : Sampler e) (b : ℕ)
      (st : SampleState)
      → DoubleLaws d IsFraction
      → IsSeeded m.state
      → draw (suc fuel) m.state ≡ some (b, st)
      → (x : d.Double) × (sample_uniform e d fuel newly m
          ≡ done (x, newly) (record m { state = st }))
        × IsFraction x b
        × (0 < b)
        × (b < 2 ^ 52)
        × (x ≢ d.one)
  unfolding sample_uniform
  sample_uniform-fraction IsFraction fuel newly m b st laws h found =
      let is_drawn = draw-IsDrawn (suc fuel) m.state b st h found in
      let x = d.minus (d.of_bits (1023 * 2 ^ 52 + b)) d.one in
      let exact : 2 ^ 52 + b - 2 ^ 52 ≡ b = omega arith in
      let is_b : IsFraction x b = subst (IsFraction x) exact (
        laws.minus_exact _ _ _ _ (laws.significand b is_drawn.below) laws.one_value (omega arith)
          (omega (arith, is_drawn.below))) in
      (
        x,
        rw
            (
              uniform_bits-draw e fuel newly m h,
              found,
              laws.one_bits,
              bit_or_fields 52 1023 b is_drawn.below,
            )
            refl,
        is_b,
        is_drawn.positive,
        is_drawn.below,
        λ same.
            let full =
              laws.unique x b (2 ^ 52) is_b
                (subst (λ y. IsFraction y (2 ^ 52)) (sym same) laws.one_value) in
            omega (arith, full, is_drawn.below),
      )

  -- The threshold that the output `b` stands for.
  unfoldable pub threshold : ℕ → ℕ
  threshold b = d.to_size (
      d.times (d.negate (d.of_size sample_period))
        (d.log (d.minus (d.of_bits (bit_or (d.to_bits d.one) b)) d.one)))

  abbrev pub at_threshold : SampleState → ℕ → SampleState
  at_threshold st n = record st { bytes_until_next_sample = n }

  pub at_threshold-IsSeeded :
      (st : SampleState) (n : ℕ) → IsSeeded st → IsSeeded (at_threshold st n)
  at_threshold-IsSeeded st n h = record {
    in_range = record {
      s0 = h.in_range.s0;
      s1 = h.in_range.s1;
      s2 = h.in_range.s2;
      s3 = h.in_range.s3;
    };
    nonzero = h.nonzero;
  }

  -- The state with the first threshold that is not 0, in at most `rounds` draws.
  unfoldable pub redraw : (fuel rounds : ℕ) → SampleState → Option SampleState
  unfolding threshold
  redraw fuel zero st = none
  redraw fuel (suc rounds) st = elim (draw (suc fuel) st) [
    | none ↦ none
    | some (b, st') ↦
        let next = at_threshold st' (threshold b) in
        let rest = redraw fuel rounds next in if threshold b == 0 then rest else some next
  ]

  abbrev pub redrawn : Sampler e → Option SampleState → Outcome (Sampler e) Bool
  redrawn m none = failed Failure.out_of_fuel
  redrawn m (some st) = done false (record m { state = st })

  redraw_found :
      (fuel rounds : ℕ) (st st' : SampleState) (b : ℕ)
      → draw (suc fuel) st ≡ some (b, st')
      → redraw fuel (suc rounds) st ≡ (
          if threshold b == 0
          then redraw fuel rounds (at_threshold st' (threshold b))
          else some (at_threshold st' (threshold b)))
  unfolding redraw
  redraw_found fuel rounds st st' b found = rw (redraw, found)

  redraw_missing :
      (fuel rounds : ℕ) (st : SampleState)
      → draw (suc fuel) st ≡ none
      → redraw fuel (suc rounds) st ≡ none
  unfolding redraw
  redraw_missing fuel rounds st nothing = rw (redraw, nothing)

  reset_round :
      (b : Bool) (fuel rounds : ℕ) (m : Sampler e) (st : SampleState)
      → reset_loop e d fuel rounds (record m { state = st }) ≡ redrawn m (redraw fuel rounds st)
      → (if b
          then reset_loop e d fuel rounds (record m { state = st })
          else done false (record m { state = st }))
        ≡ redrawn m (if b then redraw fuel rounds st else some st)
  reset_round true fuel rounds m st h = h
  reset_round false fuel rounds m st h = refl

  reset_loop-redraw :
      (fuel rounds : ℕ) (m : Sampler e)
      → IsSeeded m.state
      → reset_loop e d fuel rounds m ≡ redrawn m (redraw fuel rounds m.state)
  unfolding reset_loop sample_exponential sample_uniform threshold
  reset_loop-redraw fuel zero m h = unfold redraw in refl
  reset_loop-redraw fuel (suc rounds) m h = elim (Option-cases (draw (suc fuel) m.state)) [
    | inl nothing ↦
        rw (uniform_bits-draw e fuel false m h, nothing, redraw_missing fuel rounds m.state nothing)
    | inr ((b, st), found) ↦
        let n = threshold b in
        let next : Sampler e = record m { state = at_threshold st n } in
        let seeded = (draw-IsDrawn (suc fuel) m.state b st h found).seeded in
        rw (uniform_bits-draw e fuel false m h, found, redraw_found fuel rounds m.state st b found)
          (pick e (n == 0) (reset_loop e d fuel rounds) (pure false) next
            ∙ reset_round (n == 0) fuel rounds m (at_threshold st n)
                (reset_loop-redraw fuel rounds next (at_threshold-IsSeeded st n seeded)))
  ]

  -- With a seeded generator, `sample_request_reset` answers false, and leaves the first threshold
  -- that is not 0, as one plain search finds it; if that is not within the fuel, the fuel is used
  -- up.
  pub sample_request_reset-redraw :
      (fuel : ℕ) (m : Sampler e)
      → IsSeeded m.state
      → sample_request_reset e d fuel m ≡ redrawn m (redraw fuel fuel m.state)
  unfolding sample_request_reset
  sample_request_reset-redraw fuel m h = reset_loop-redraw fuel fuel m h

  -- What is redrawn is a threshold that is not 0, over a seeded generator.
  pub redraw-pos :
      (fuel rounds : ℕ) (st st' : SampleState)
      → IsSeeded st
      → redraw fuel rounds st ≡ some st'
      → (0 < st'.bytes_until_next_sample) × IsSeeded st'
  redraw-pos fuel zero st st' h e = absurd (unfold redraw in cc)
  redraw-pos fuel (suc rounds) st st' h e = elim (Option-cases (draw (suc fuel) st)) [
    | inl nothing ↦ absurd (none≢some st' (rw (redraw_missing fuel rounds st nothing) at e))
    | inr ((b, u), found) ↦
        let n = threshold b in
        let seeded = at_threshold-IsSeeded u n (draw-IsDrawn (suc fuel) st b u h found).seeded in
        let e' = rw (redraw_found fuel rounds st u b found) at e in
        elim (Bool-cases (n == 0)) [
          | inl again ↦ redraw-pos fuel rounds (at_threshold u n) st' seeded (rw again at e')
          | inr enough ↦
              subst (λ w. (0 < w.bytes_until_next_sample) × IsSeeded w)
                (of_some (at_threshold u n) st' (rw enough at e')) (ground arith, seeded)
        ]
  ]

  -- With a seeded generator and a search that succeeds within the fuel, `sample_request_reset`
  -- answers false, the threshold that it leaves is not 0, and the generator is still seeded.
  pub sample_request_reset-pos :
      (fuel : ℕ) (m : Sampler e) (st : SampleState)
      → IsSeeded m.state
      → redraw fuel fuel m.state ≡ some st
      → (sample_request_reset e d fuel m ≡ done false (record m { state = st }))
        × (0 < st.bytes_until_next_sample)
        × IsSeeded st
  sample_request_reset-pos fuel m st h found =
      let (positive, seeded) = redraw-pos fuel fuel m.state st h found in
      (rw (sample_request_reset-redraw fuel m h, found), positive, seeded)

  -- An all-zero generator is seeded first; then the answer is true, and the threshold, which is
  -- drawn once, may be 0.
  pub sample_request_reset-fresh :
      (fuel : ℕ) (m m' : Sampler e) (b : ℕ) (st : SampleState)
      → all_zero m.state ≡ true
      → seed e (suc fuel) m ≡ done tt m'
      → IsSeeded m'.state
      → draw (suc fuel) m'.state ≡ some (b, st)
      → sample_request_reset e d (suc fuel) m
        ≡ done true (record m' { state = at_threshold st (threshold b) })
  unfolding sample_request_reset reset_loop sample_exponential sample_uniform threshold
  sample_request_reset-fresh fuel m m' b st z s h found =
      rw (uniform_bits-fresh e fuel false m m' z s h, found)

-- ===== src/Sample/Xoshiro.antt =====
-- The xoshiro256+ generator: its words stay 64 bits wide, and it never reaches the all-zero state.
use poireau.Prelude.{
  ℕ, ◌+◌, ◌*◌, ◌/◌, ◌%◌, ◌^◌, ◌<◌, ◌≡◌, inl, inr, bit_xor, true, false, arith, sym, ◌∙◌, Bool-cases,
}
use poireau.Word.{shl64}
use poireau.Word.Bits.{bit_xor-eq-zero, bit_xor-lt, bit_or_fields}
use poireau.Sample.{SampleState, rotl, xoshiro_step, xoshiro_output, all_zero}

pub record InRange (st : SampleState) : Type 0 where
  pub s0 : st.s0 < 2 ^ 64
  pub s1 : st.s1 < 2 ^ 64
  pub s2 : st.s2 < 2 ^ 64
  pub s3 : st.s3 < 2 ^ 64

-- A rotation moves the low 19 bits above the others.
pub rotl-eq-sum : (x : ℕ) → x < 2 ^ 64 → rotl x 45 ≡ x % 2 ^ 19 * 2 ^ 45 + x / 2 ^ 19
unfolding rotl
rotl-eq-sum x h =
    let high : shl64 x 45 ≡ x % 2 ^ 19 * 2 ^ 45 = omega arith in
    rw high (bit_or_fields 45 (x % 2 ^ 19) (x / 2 ^ 19) (omega arith))

pub xoshiro_step-InRange : {st : SampleState} → InRange st → InRange (xoshiro_step st)
unfolding xoshiro_step
xoshiro_step-InRange {st} r =
    let s2 = bit_xor-lt 64 st.s2 st.s0 r.s2 r.s0 in
    let s3 = bit_xor-lt 64 st.s3 st.s1 r.s3 r.s1 in
    record {
      s0 = bit_xor-lt 64 st.s0 _ r.s0 s3;
      s1 = bit_xor-lt 64 st.s1 _ r.s1 s2;
      s2 = bit_xor-lt 64 _ (shl64 st.s1 17) s2 (omega arith);
      s3 = omega (arith, rotl-eq-sum _ s3);
    }

-- If the new words are all 0, so were the old ones.
step_zero :
    (st : SampleState)
    → InRange st
    → (xoshiro_step st).s0 ≡ 0
    → (xoshiro_step st).s1 ≡ 0
    → (xoshiro_step st).s2 ≡ 0
    → (xoshiro_step st).s3 ≡ 0
    → (st.s0 ≡ 0) × (st.s1 ≡ 0) × (st.s2 ≡ 0) × (st.s3 ≡ 0)
unfolding xoshiro_step
step_zero st r e0 e1 e2 e3 =
    let b = bit_xor st.s3 st.s1 in
    let a = bit_xor st.s2 st.s0 in
    let b_zero : b ≡ 0 = omega (arith, rotl-eq-sum b (bit_xor-lt 64 st.s3 st.s1 r.s3 r.s1)) in
    let s0_zero : st.s0 ≡ 0 = bit_xor-eq-zero st.s0 b e0 ∙ b_zero in
    let s1_a : st.s1 ≡ a = bit_xor-eq-zero st.s1 a e1 in
    let a_shift : a ≡ shl64 st.s1 17 = bit_xor-eq-zero a (shl64 st.s1 17) e2 in
    let s1_zero : st.s1 ≡ 0 = omega arith in
    let s2_s0 : st.s2 ≡ st.s0 = bit_xor-eq-zero st.s2 st.s0 (sym s1_a ∙ s1_zero) in
    let s3_s1 : st.s3 ≡ st.s1 = bit_xor-eq-zero st.s3 st.s1 b_zero in
    (s0_zero, s1_zero, s2_s0 ∙ s0_zero, s3_s1 ∙ s1_zero)

-- From 64-bit words that are not all 0, a step leads to words that are not all 0: a generator
-- that was seeded once is never taken for a fresh one.
pub xoshiro_step-nonzero :
    (st : SampleState) → InRange st → all_zero st ≡ false → all_zero (xoshiro_step st) ≡ false
xoshiro_step-nonzero st r h = elim (Bool-cases (all_zero (xoshiro_step st))) [
  | inr no_more ↦ no_more
  | inl zeroed ↦
      let new = zero_words (xoshiro_step st) zeroed in
      let (z0, z1, z2, z3) = step_zero st r new.0 new.1 new.2 new.3 in absurd (ground arith)
]
  where
    zero_words :
        (u : SampleState) → all_zero u ≡ true → (u.s0 ≡ 0) × (u.s1 ≡ 0) × (u.s2 ≡ 0) × (u.s3 ≡ 0)
    zero_words u z = ground arith

-- The output has at most 52 bits.
pub xoshiro_output-lt : (st : SampleState) → xoshiro_output st < 2 ^ 52
unfolding xoshiro_output
xoshiro_output-lt st = omega arith

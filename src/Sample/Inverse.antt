-- ===== src/Sample/Inverse.antt =====
-- A step of the generator can be undone.
use poireau.Prelude.{
  ℕ, zero, suc, ◌+◌, ◌*◌, ◌/◌, ◌%◌, ◌^◌, ◌<◌, ◌≡◌, ◌≢◌, bit_xor, refl, sym, ap, ◌∙◌, arith,
}
use poireau.Word.{shl64}
use poireau.Word.Bits.{bit_xor-lt}
use poireau.Word.Bits.Xor.{
  bit_xor_comm, bit_xor_assoc, bit_xor-zero, bit_xor-cancel, bit_xor-cancel_middle, shl64-bit_xor,
}
use poireau.Sample.{SampleState, rotl, xoshiro_step}
use poireau.Sample.Xoshiro.{InRange, rotl-eq-sum, xoshiro_step-InRange}

-- `x ^ (x << 17)`, which is what `s[1]` adds to `s[1]` and `s[2]`.
abbrev mixed : ℕ → ℕ
mixed x = bit_xor x (shl64 x 17)

-- Two times is one time with twice the shift.
mixed-twice : (x : ℕ) → mixed (mixed x) ≡ bit_xor x (shl64 x 34)
mixed-twice x =
    let shifts : shl64 (shl64 x 17) 17 ≡ shl64 x 34 = omega arith in
    ap (bit_xor (mixed x)) (shl64-bit_xor 17 x (shl64 x 17))
    ∙ bit_xor-cancel_middle x (shl64 x 17) (shl64 (shl64 x 17) 17)
    ∙ ap (bit_xor x) shifts

-- Four times shift by 68 and more, which is nothing.
mixed-four : (x : ℕ) → mixed (mixed (mixed (mixed x))) ≡ x
mixed-four x =
    let y = bit_xor x (shl64 x 34) in
    let none_left : shl64 (shl64 x 34) 34 ≡ 0 = omega arith in
    ap (λ t. mixed (mixed t)) (mixed-twice x)
    ∙ mixed-twice y
    ∙ ap (bit_xor y) (shl64-bit_xor 34 x (shl64 x 34))
    ∙ bit_xor-cancel_middle x (shl64 x 34) (shl64 (shl64 x 34) 34)
    ∙ ap (bit_xor x) none_left
    ∙ bit_xor-zero x

abbrev unmixed : ℕ → ℕ
unmixed y = mixed (mixed (mixed y))

-- The rotation by 45 is undone by one by 19.
abbrev unrotated : ℕ → ℕ
unrotated y = y % 2 ^ 45 * 2 ^ 19 + y / 2 ^ 45

unrotated-rotl : (x : ℕ) → x < 2 ^ 64 → unrotated (rotl x 45) ≡ x
unrotated-rotl x h = rw (rotl-eq-sum x h) (omega arith)

rotl-unrotated : (y : ℕ) → y < 2 ^ 64 → rotl (unrotated y) 45 ≡ y
rotl-unrotated y h = rotl-eq-sum (unrotated y) (omega arith) ∙ omega arith

-- The state before.
abbrev pub xoshiro_back : SampleState → SampleState
xoshiro_back st =
    let u3 = unrotated st.s3 in
    let s0 = bit_xor st.s0 u3 in
    let s1 = unmixed (bit_xor st.s1 st.s2) in
    let u2 = bit_xor st.s1 s1 in
    record st { s0 = s0; s1 = s1; s2 = bit_xor u2 s0; s3 = bit_xor u3 s1 }

-- Each word by itself.
word-eq :
    {a b : SampleState}
    → a.s0 ≡ b.s0
    → a.s1 ≡ b.s1
    → a.s2 ≡ b.s2
    → a.s3 ≡ b.s3
    → a.bytes_until_next_sample ≡ b.bytes_until_next_sample
    → a ≡ b
word-eq e0 e1 e2 e3 e4 i = record {
  s0 = e0 i;
  s1 = e1 i;
  s2 = e2 i;
  s3 = e3 i;
  bytes_until_next_sample = e4 i;
}

pub back-step : (st : SampleState) → InRange st → xoshiro_back (xoshiro_step st) ≡ st
unfolding xoshiro_step
back-step st r =
    let n = xoshiro_step st in
    let v3 = bit_xor st.s3 st.s1 in
    let v2 = bit_xor st.s2 st.s0 in
    let u3 : unrotated n.s3 ≡ v3 = unrotated-rotl v3 (bit_xor-lt 64 st.s3 st.s1 r.s3 r.s1) in
    let e0 : bit_xor n.s0 (unrotated n.s3) ≡ st.s0 =
      ap (bit_xor n.s0) u3 ∙ bit_xor-cancel st.s0 v3 in
    let sum : bit_xor n.s1 n.s2 ≡ mixed st.s1 = bit_xor-cancel_middle st.s1 v2 (shl64 st.s1 17) in
    let e1 : unmixed (bit_xor n.s1 n.s2) ≡ st.s1 = ap unmixed sum ∙ mixed-four st.s1 in
    let u2 : bit_xor n.s1 (unmixed (bit_xor n.s1 n.s2)) ≡ v2 =
      ap (bit_xor n.s1) e1
      ∙ ap (λ x. bit_xor x st.s1) (bit_xor_comm st.s1 v2)
      ∙ bit_xor-cancel v2 st.s1 in
    word-eq e0 e1 ((λ i. bit_xor (u2 i) (e0 i)) ∙ bit_xor-cancel st.s2 st.s0)
      ((λ i. bit_xor (u3 i) (e1 i)) ∙ bit_xor-cancel st.s3 st.s1) refl

pub step-back : (st : SampleState) → InRange st → xoshiro_step (xoshiro_back st) ≡ st
unfolding xoshiro_step
step-back st r =
    let b = xoshiro_back st in
    let u3 = unrotated st.s3 in
    let u2 = bit_xor st.s1 b.s1 in
    let v3 : bit_xor b.s3 b.s1 ≡ u3 = bit_xor-cancel u3 b.s1 in
    let v2 : bit_xor b.s2 b.s0 ≡ u2 = bit_xor-cancel u2 b.s0 in
    let e0 : bit_xor b.s0 (bit_xor b.s3 b.s1) ≡ st.s0 =
      ap (bit_xor b.s0) v3 ∙ bit_xor-cancel st.s0 u3 in
    let e1 : bit_xor b.s1 (bit_xor b.s2 b.s0) ≡ st.s1 =
      ap (bit_xor b.s1) v2 ∙ bit_xor_comm b.s1 u2 ∙ bit_xor-cancel st.s1 b.s1 in
    let sum : mixed b.s1 ≡ bit_xor st.s1 st.s2 = mixed-four (bit_xor st.s1 st.s2) in
    let e2 : bit_xor (bit_xor b.s2 b.s0) (shl64 b.s1 17) ≡ st.s2 =
      ap (λ x. bit_xor x (shl64 b.s1 17)) v2
      ∙ bit_xor_assoc st.s1 b.s1 (shl64 b.s1 17)
      ∙ ap (bit_xor st.s1) (sum ∙ bit_xor_comm st.s1 st.s2)
      ∙ bit_xor_comm st.s1 (bit_xor st.s2 st.s1)
      ∙ bit_xor-cancel st.s2 st.s1 in
    let e3 : rotl (bit_xor b.s3 b.s1) 45 ≡ st.s3 =
      ap (λ x. rotl x 45) v3 ∙ rotl-unrotated st.s3 r.s3 in
    word-eq e0 e1 e2 e3 refl

back-InRange : {st : SampleState} → InRange st → InRange (xoshiro_back st)
back-InRange {st} r =
    let low : (x : ℕ) → x < 2 ^ 64 → mixed x < 2 ^ 64 =
      λ x h. bit_xor-lt 64 x (shl64 x 17) h (omega arith) in
    let y = bit_xor st.s1 st.s2 in
    let s1 : unmixed y < 2 ^ 64 =
      low (mixed (mixed y)) (low (mixed y) (low y (bit_xor-lt 64 st.s1 st.s2 r.s1 r.s2))) in
    let u3 : unrotated st.s3 < 2 ^ 64 = omega (arith, r.s3) in
    let s0 = bit_xor-lt 64 st.s0 (unrotated st.s3) r.s0 u3 in
    let u2 = bit_xor-lt 64 st.s1 (unmixed y) r.s1 s1 in
    record {
      s0 = s0;
      s1 = s1;
      s2 = bit_xor-lt 64 _ _ u2 s0;
      s3 = bit_xor-lt 64 (unrotated st.s3) _ u3 s1;
    }

-- A step of the generator on 64-bit words can be undone: there is a step back, both lead to
-- 64-bit words, and each undoes the other.
pub xoshiro_step-permutes :
    (st : SampleState)
    → InRange st
    → InRange (xoshiro_step st)
      × InRange (xoshiro_back st)
      × (xoshiro_back (xoshiro_step st) ≡ st)
      × (xoshiro_step (xoshiro_back st) ≡ st)
xoshiro_step-permutes st r =
    (xoshiro_step-InRange r, back-InRange r, back-step st r, step-back st r)

-- `n` steps.
pub steps : ℕ → SampleState → SampleState
steps zero st = st
steps (suc n) st = xoshiro_step (steps n st)

steps-InRange : (n : ℕ) {st : SampleState} → InRange st → InRange (steps n st)
unfolding steps
steps-InRange zero r = r
steps-InRange (suc n) r = xoshiro_step-InRange (steps-InRange n r)

steps-injective :
    (n : ℕ) (a b : SampleState) → InRange a → InRange b → steps n a ≡ steps n b → a ≡ b
unfolding steps
steps-injective zero a b r q same = same
steps-injective (suc n) a b r q same = steps-injective n a b r q (
    sym (back-step (steps n a) (steps-InRange n r))
    ∙ ap xoshiro_back same
    ∙ back-step (steps n b) (steps-InRange n q))

-- Two generators of 64-bit words that differ still differ after any equal number of steps:
-- threads with different seeds never have the same state at the same draw.
pub steps_distinct :
    (n : ℕ) (a b : SampleState) → InRange a → InRange b → a ≢ b → steps n a ≢ steps n b
steps_distinct n a b r q differ same = differ (steps-injective n a b r q same)

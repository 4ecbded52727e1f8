-- ===== src/Word/Bits/Step.antt =====
-- One equation for the lowest binary digit of `&`, `|` and `^`, without the fuel of `digits`.
use Prim.Native.Nat.{
  min, max, digits, bitwise, differ, bit_and-bitwise, bit_or-bitwise, bit_xor-bitwise,
}
use poireau.Prelude.{
  ℕ, zero, suc, ◌+◌, ◌*◌, ◌/◌, ◌%◌, ◌≤◌, bit_and, bit_or, bit_xor, ◌≡◌, refl, ap, arith,
}

-- `z b` is what remains when the first number has no digits left, and `f` joins two digits.
module _ (z : ℕ → ℕ) (f : ℕ → ℕ → ℕ) where
  -- Any count of digits from `a` on gives the same number.
  digits-eq-bitwise : (n a b : ℕ) → a ≤ n → digits z f n a b ≡ bitwise z f a b
  digits-eq-bitwise = enough
    where
      both : (n m a b : ℕ) → a ≤ n → a ≤ m → digits z f n a b ≡ digits z f m a b
      both zero zero a b h k = refl
      both zero (suc m) zero b h k = refl
      both zero (suc m) (suc a) b h k = absurd (omega arith)
      both (suc n) zero zero b h k = refl
      both (suc n) zero (suc a) b h k = absurd (omega arith)
      both (suc n) (suc m) zero b h k = refl
      both (suc n) (suc m) (suc a) b h k =
          ap (λ t. t * 2 + f (suc a % 2) (b % 2))
            (both n m (suc a / 2) (b / 2) (omega arith) (omega arith))

      enough : (n a b : ℕ) → a ≤ n → digits z f n a b ≡ bitwise z f a b
      enough n a b h = both n a a b h (omega arith)

  bitwise_step :
      ((b : ℕ) → z b ≡ z (b / 2) * 2 + f 0 (b % 2))
      → (a b : ℕ) → bitwise z f a b ≡ bitwise z f (a / 2) (b / 2) * 2 + f (a % 2) (b % 2)
  bitwise_step rest zero b = rest b
  bitwise_step rest (suc a) b =
      ap (λ t. t * 2 + f (suc a % 2) (b % 2))
        (digits-eq-bitwise a (suc a / 2) (b / 2) (omega arith))

pub bit_and_step : (a b : ℕ) → bit_and a b ≡ bit_and (a / 2) (b / 2) * 2 + min (a % 2) (b % 2)
bit_and_step a b = simp bit_and-bitwise (bitwise_step (λ y. 0) min (λ y. omega arith) a b)

pub bit_or_step : (a b : ℕ) → bit_or a b ≡ bit_or (a / 2) (b / 2) * 2 + max (a % 2) (b % 2)
bit_or_step a b = simp bit_or-bitwise (bitwise_step (λ y. y) max (λ y. omega arith) a b)

pub bit_xor_step : (a b : ℕ) → bit_xor a b ≡ bit_xor (a / 2) (b / 2) * 2 + differ (a % 2) (b % 2)
bit_xor_step a b = simp bit_xor-bitwise (bitwise_step (λ y. y) differ (λ y. ground arith) a b)

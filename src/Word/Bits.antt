-- ===== src/Word/Bits.antt =====
-- Laws of `&`, `|` and `^` at variables, from the digit recursion that the native operations mean.
mod Step
pub mod Xor
use Step.{bit_and_step, bit_or_step, bit_xor_step}
use Prim.Native.Nat.{differ, bit_xor-bitwise}
use mathlib.Core.WellFounded
use native.Mathlib.Nat.{pow-suc, one-le-pow, div-div-eq-div-mul, mod-lt, div-add-mod}
use poireau.Prelude.{
  ℕ, zero, suc, ◌+◌, ◌-◌, ◌*◌, ◌/◌, ◌%◌, ◌^◌, ◌≤◌, ◌<◌, bit_and, bit_or, bit_xor, ◌≡◌, refl, sym,
  ap, ◌⊎◌, inl, inr, arith,
}
use poireau.Prelude.Order.{lt_wf}

double : (k q : ℕ) → q * 2 ^ suc k ≡ 2 * (q * 2 ^ k)
double k q = omega (arith, ap (λ (t : ℕ). q * t) (pow-suc 2 k))

bit_and-zero : (a : ℕ) → bit_and a 0 ≡ 0
bit_and-zero a =
    WellFounded.induction lt_wf {C = λ n. bit_and n 0 ≡ 0} a
      λ n ih. ground (arith, bit_and_step n 0, ih (n / 2))

bit_or-zero : (a : ℕ) → bit_or a 0 ≡ a
bit_or-zero a =
    WellFounded.induction lt_wf {C = λ n. bit_or n 0 ≡ n} a
      λ n ih. ground (arith, bit_or_step n 0, ih (n / 2))

digit-cases : (a : ℕ) → (a % 2 ≡ 0) ⊎ (a % 2 ≡ 1)
digit-cases a = omega arith

zero-bit_xor : (a : ℕ) → bit_xor 0 a ≡ a
zero-bit_xor a = simp bit_xor-bitwise

-- Only equal numbers cancel.
digit_xor-eq-zero : (a b : ℕ) → differ (a % 2) (b % 2) ≡ 0 → a % 2 ≡ b % 2
digit_xor-eq-zero a b = elim (digit-cases a) [
  | inl p ↦ rw p (elim (digit-cases b) [ inl q ↦ rw q (λ h. refl) | inr q ↦ rw q (λ h. sym h) ])
  | inr p ↦ rw p (elim (digit-cases b) [ inl q ↦ rw q (λ h. h) | inr q ↦ rw q (λ h. refl) ])
]

pub bit_xor-eq-zero : (a b : ℕ) → bit_xor a b ≡ 0 → a ≡ b
bit_xor-eq-zero a =
    WellFounded.induction lt_wf {C = λ n. (b : ℕ) → bit_xor n b ≡ 0 → n ≡ b} a λ n ih b h. ground (
      arith,
      bit_xor_step n b,
      zero-bit_xor b,
      digit_xor-eq-zero n b,
      λ (p : n / 2 < n). ih (n / 2) p (b / 2),
    )

digit_xor-le : (a b : ℕ) → differ (a % 2) (b % 2) ≤ 1
digit_xor-le a b = elim (digit-cases a) [
  | inl p ↦ rw p (elim (digit-cases b) [ inl q ↦ rw q (omega arith) | inr q ↦ rw q (omega arith) ])
  | inr p ↦ rw p (elim (digit-cases b) [ inl q ↦ rw q (omega arith) | inr q ↦ rw q (omega arith) ])
]

pub bit_xor-lt : (k a b : ℕ) → a < 2 ^ k → b < 2 ^ k → bit_xor a b < 2 ^ k
bit_xor-lt zero a b h i =
    let ea : a ≡ 0 = omega arith in let eb : b ≡ 0 = omega arith in rw (ea, eb) (omega arith)
bit_xor-lt (suc k) a b h i =
    ground (arith, pow-suc 2 k, bit_xor_step a b, digit_xor-le a b, bit_xor-lt k (a / 2) (b / 2))

-- `|` of disjoint fields is a sum.
pub bit_or_fields : (k q r : ℕ) → r < 2 ^ k → bit_or (q * 2 ^ k) r ≡ q * 2 ^ k + r
bit_or_fields zero q r h = ground (arith, bit_or-zero q)
bit_or_fields (suc k) q r h = ground (
  arith,
  bit_or_step (q * 2 ^ suc k) r,
  double k q,
  bit_or_fields k q (r / 2) (ground (arith, pow-suc 2 k)),
)

mod_double : (a p : ℕ) → 1 ≤ p → a % (2 * p) ≡ a / 2 % p * 2 + a % 2
mod_double a p h = ground (
  arith,
  div-div-eq-div-mul a 2 p,
  mod-lt (a / 2) h,
  ap (λ (t : ℕ). t * p) (div-div-eq-div-mul a 2 p),
  div-add-mod (a / 2) p,
  div-add-mod a (2 * p),
)

-- A mask of `k` low bits is the remainder by `2 ^ k`.
pub bit_and_low : (k a : ℕ) → bit_and a (2 ^ k - 1) ≡ a % 2 ^ k
bit_and_low zero a = rw bit_and-zero (omega arith)
bit_and_low (suc k) a = ground (
  arith,
  pow-suc 2 k,
  one-le-pow k 2,
  bit_and_step a (2 ^ suc k - 1),
  bit_and_low k (a / 2),
  mod_double a (2 ^ k),
)

-- A mask above `k` low bits acts on the digits above them.
pub bit_and_shifted : (k a m : ℕ) → bit_and a (m * 2 ^ k) ≡ bit_and (a / 2 ^ k) m * 2 ^ k
bit_and_shifted zero a m = ground arith
bit_and_shifted (suc k) a m = ground (
  arith,
  bit_and_step a (m * 2 ^ suc k),
  double k m,
  double k (bit_and (a / 2 ^ suc k) m),
  bit_and_shifted k (a / 2) m,
  div-div-eq-div-mul a 2 (2 ^ k),
  pow-suc 2 k,
)

-- ===== src/Word/Bits/Xor.antt =====
-- `^` as an addition without carry: it is commutative and associative, and every number is its own
-- inverse; and it goes with shifts and remainders.
use Prim.Native.Nat.{differ}
use native.Mathlib.Nat.{pow-suc, one-le-pow}
use poireau.Prelude.{
  ℕ, zero, suc, ◌+◌, ◌*◌, ◌/◌, ◌%◌, ◌^◌, ◌≤◌, ◌≡◌, bit_xor, refl, sym, ap, ◌∙◌, inl, inr, arith,
}
use poireau.Word.{shl64}
use poireau.Word.Bits.{digit-cases, mod_double, double}
use poireau.Word.Bits.Step.{bit_xor_step}

digit_sum : (a b : ℕ) → differ (a % 2) (b % 2) ≡ (a + b) % 2
digit_sum a b = elim (digit-cases a) [
  | inl p ↦ elim (digit-cases b) [
    | inl q ↦ rw (p, q) (omega arith)
    | inr q ↦ rw (p, q) (omega arith)
  ]
  | inr p ↦ elim (digit-cases b) [
    | inl q ↦ rw (p, q) (omega arith)
    | inr q ↦ rw (p, q) (omega arith)
  ]
]

-- The lowest digit, and the others.
xor_digit : (a b : ℕ) → bit_xor a b % 2 ≡ (a + b) % 2
xor_digit a b = omega (arith, bit_xor_step a b, digit_sum a b)

xor_rest : (a b : ℕ) → bit_xor a b / 2 ≡ bit_xor (a / 2) (b / 2)
xor_rest a b = omega (arith, bit_xor_step a b, digit_sum a b)

comm_to : (n a b : ℕ) → a ≤ n → b ≤ n → bit_xor a b ≡ bit_xor b a
comm_to zero a b h i =
    let ea : a ≡ 0 = omega arith in let eb : b ≡ 0 = omega arith in rw (ea, eb) refl
comm_to (suc n) a b h i = omega (
  arith,
  xor_digit a b,
  xor_digit b a,
  xor_rest a b,
  xor_rest b a,
  comm_to n (a / 2) (b / 2) (omega arith) (omega arith),
)

pub bit_xor_comm : (a b : ℕ) → bit_xor a b ≡ bit_xor b a
bit_xor_comm a b = comm_to (a + b) a b (omega arith) (omega arith)

assoc_to : (n a b c : ℕ) → a ≤ n → b ≤ n → c ≤ n → bit_xor (bit_xor a b) c ≡ bit_xor a (bit_xor b c)
assoc_to zero a b c h i j =
    let ea : a ≡ 0 = omega arith in
    let eb : b ≡ 0 = omega arith in let ec : c ≡ 0 = omega arith in rw (ea, eb, ec) refl
assoc_to (suc n) a b c h i j =
    let halves = assoc_to n (a / 2) (b / 2) (c / 2) (omega arith) (omega arith) (omega arith) in
    let left : bit_xor (bit_xor a b) c / 2 ≡ bit_xor (bit_xor (a / 2) (b / 2)) (c / 2) =
      xor_rest (bit_xor a b) c ∙ ap (λ x. bit_xor x (c / 2)) (xor_rest a b) in
    let right : bit_xor a (bit_xor b c) / 2 ≡ bit_xor (a / 2) (bit_xor (b / 2) (c / 2)) =
      xor_rest a (bit_xor b c) ∙ ap (bit_xor (a / 2)) (xor_rest b c) in
    omega (
      arith,
      xor_digit (bit_xor a b) c,
      xor_digit a (bit_xor b c),
      xor_digit a b,
      xor_digit b c,
      left,
      right,
      halves,
    )

pub bit_xor_assoc : (a b c : ℕ) → bit_xor (bit_xor a b) c ≡ bit_xor a (bit_xor b c)
bit_xor_assoc a b c = assoc_to (a + b + c) a b c (omega arith) (omega arith) (omega arith)

self_to : (n a : ℕ) → a ≤ n → bit_xor a a ≡ 0
self_to zero a h = let ea : a ≡ 0 = omega arith in rw ea refl
self_to (suc n) a h = omega (arith, xor_digit a a, xor_rest a a, self_to n (a / 2) (omega arith))

pub bit_xor_self : (a : ℕ) → bit_xor a a ≡ 0
bit_xor_self a = self_to a a (omega arith)

zero_to : (n a : ℕ) → a ≤ n → bit_xor a 0 ≡ a
zero_to zero a h = let ea : a ≡ 0 = omega arith in rw ea refl
zero_to (suc n) a h = omega (arith, xor_digit a 0, xor_rest a 0, zero_to n (a / 2) (omega arith))

pub bit_xor-zero : (a : ℕ) → bit_xor a 0 ≡ a
bit_xor-zero a = zero_to a a (omega arith)

-- What is added twice is gone.
pub bit_xor-cancel : (a b : ℕ) → bit_xor (bit_xor a b) b ≡ a
bit_xor-cancel a b = bit_xor_assoc a b b ∙ ap (bit_xor a) (bit_xor_self b) ∙ bit_xor-zero a

pub bit_xor-cancel_middle : (a b c : ℕ) → bit_xor (bit_xor a b) (bit_xor b c) ≡ bit_xor a c
bit_xor-cancel_middle a b c =
    sym (bit_xor_assoc (bit_xor a b) b c) ∙ ap (λ x. bit_xor x c) (bit_xor-cancel a b)

xor_twice : (a b : ℕ) → bit_xor (2 * a) (2 * b) ≡ 2 * bit_xor a b
xor_twice a b =
    let ea : 2 * a / 2 ≡ a = omega arith in
    let eb : 2 * b / 2 ≡ b = omega arith in
    let rest : bit_xor (2 * a) (2 * b) / 2 ≡ bit_xor a b =
      xor_rest (2 * a) (2 * b) ∙ rw (ea, eb) refl in
    omega (arith, xor_digit (2 * a) (2 * b), rest)

bit_xor-scale : (k a b : ℕ) → bit_xor (a * 2 ^ k) (b * 2 ^ k) ≡ bit_xor a b * 2 ^ k
bit_xor-scale zero a b =
    let ea : a * 2 ^ 0 ≡ a = omega arith in
    let eb : b * 2 ^ 0 ≡ b = omega arith in rw (ea, eb) (omega arith)
bit_xor-scale (suc k) a b =
    rw (double k a, double k b)
      (xor_twice (a * 2 ^ k) (b * 2 ^ k)
        ∙ ap (λ (t : ℕ). 2 * t) (bit_xor-scale k a b)
        ∙ sym (double k (bit_xor a b)))

bit_xor-mod : (k a b : ℕ) → bit_xor (a % 2 ^ k) (b % 2 ^ k) ≡ bit_xor a b % 2 ^ k
bit_xor-mod zero a b = omega (arith, xor_both_zero)
  where
    xor_both_zero : bit_xor (a % 2 ^ 0) (b % 2 ^ 0) ≡ 0
    xor_both_zero =
        let ea : a % 2 ^ 0 ≡ 0 = omega arith in
        let eb : b % 2 ^ 0 ≡ 0 = omega arith in rw (ea, eb) refl
bit_xor-mod (suc k) a b =
    let ha : a % 2 ^ suc k ≡ 2 * (a / 2 % 2 ^ k) + a % 2 =
      ground (arith, pow-suc 2 k, one-le-pow k 2, mod_double a (2 ^ k)) in
    let hb : b % 2 ^ suc k ≡ 2 * (b / 2 % 2 ^ k) + b % 2 =
      ground (arith, pow-suc 2 k, one-le-pow k 2, mod_double b (2 ^ k)) in
    let hx : bit_xor a b % 2 ^ suc k ≡ 2 * (bit_xor a b / 2 % 2 ^ k) + bit_xor a b % 2 =
      ground (arith, pow-suc 2 k, one-le-pow k 2, mod_double (bit_xor a b) (2 ^ k)) in
    let ra : (a % 2 ^ suc k) / 2 ≡ a / 2 % 2 ^ k = omega arith in
    let rb : (b % 2 ^ suc k) / 2 ≡ b / 2 % 2 ^ k = omega arith in
    let rest : bit_xor (a % 2 ^ suc k) (b % 2 ^ suc k) / 2 ≡ bit_xor a b / 2 % 2 ^ k =
      xor_rest (a % 2 ^ suc k) (b % 2 ^ suc k)
      ∙ (λ i. bit_xor (ra i) (rb i))
      ∙ bit_xor-mod k (a / 2) (b / 2)
      ∙ ap (λ (t : ℕ). t % 2 ^ k) (sym (xor_rest a b)) in
    omega (arith, xor_digit (a % 2 ^ suc k) (b % 2 ^ suc k), xor_digit a b, rest)

-- A shift by `k` goes through `^`.
pub shl64-bit_xor : (k a b : ℕ) → shl64 (bit_xor a b) k ≡ bit_xor (shl64 a k) (shl64 b k)
shl64-bit_xor k a b =
    ap (λ (t : ℕ). t % 2 ^ 64) (sym (bit_xor-scale k a b))
    ∙ sym (bit_xor-mod 64 (a * 2 ^ k) (b * 2 ^ k))

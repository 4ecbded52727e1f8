-- ===== src/Word/Align.antt =====
-- Rounding to the two alignments of the allocator, `a & -4096` and `a & -(1 << 30)`, as arithmetic.
use poireau.Prelude.{ℕ, ◌-◌, ◌*◌, ◌/◌, ◌%◌, ◌^◌, ◌<◌, bit_and, ◌≡◌, arith}
use poireau.Word.{neg64}
use poireau.Word.Bits.{bit_and_low, bit_and_shifted}

pub page_down : (a : ℕ) → a < 2 ^ 64 → bit_and a (neg64 4096) ≡ a / 4096 * 4096
page_down a h = omega (arith, bit_and_shifted 12 a (2 ^ 52 - 1), bit_and_low 52 (a / 4096))

pub gigabyte_down : (a : ℕ) → a < 2 ^ 64 → bit_and a (neg64 (2 ^ 30)) ≡ a / 2 ^ 30 * 2 ^ 30
gigabyte_down a h = omega (arith, bit_and_shifted 30 a (2 ^ 34 - 1), bit_and_low 34 (a / 2 ^ 30))

-- The assertion that an alignment is a power of two, and the test that an address has it.
pub gigabyte_low : (a : ℕ) → bit_and a (2 ^ 30 - 1) ≡ a % 2 ^ 30
gigabyte_low a = bit_and_low 30 a

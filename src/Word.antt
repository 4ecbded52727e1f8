-- ===== src/Word.antt =====
-- The unsigned 64-bit arithmetic of the C sources: `uint64_t`, `size_t` and `uintptr_t`.
pub mod Align
pub mod Bits
use poireau.Prelude.{ℕ, ◌+◌, ◌-◌, ◌*◌, ◌/◌, ◌%◌, ◌^◌}

abbrev pub two64 : ℕ
two64 = 2 ^ 64

-- `a + b`, `a - b` and `-a`: 2 ^ 64 is added first, since `-` on ℕ stops at 0.
abbrev pub add64 : ℕ → ℕ → ℕ
add64 a b = (a + b) % two64

abbrev pub sub64 : ℕ → ℕ → ℕ
sub64 a b = (a + two64 - b) % two64

abbrev pub neg64 : ℕ → ℕ
neg64 a = (two64 - a) % two64

-- `a << k` and `a >> k`
abbrev pub shl64 : ℕ → ℕ → ℕ
shl64 a k = a * 2 ^ k % two64

abbrev pub shr64 : ℕ → ℕ → ℕ
shr64 a k = a / 2 ^ k

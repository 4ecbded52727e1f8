-- ===== src/Kernel/Cut.antt =====
-- Pieces of a mapping: what is left when one end is unmapped.
use poireau.Prelude.{ℕ, ◌+◌, ◌-◌, ◌≤◌, arith}
use poireau.Kernel.{Kernel, FreshMapping, Unmapping}

module _ (k : Kernel) (base len n : ℕ) {s t u : k.State} where
  -- Without its first `n` bytes.
  pub cut_head :
      FreshMapping k base len s t
      → Unmapping k base n t u
      → n ≤ len
      → FreshMapping k (base + n) (len - n) s u
  cut_head f c h = record {
    free = λ x i. f.free x (ground arith);
    mapped = λ x. ground (arith, f.mapped x, c.mapped x, f.free x);
    zero_filled = λ x i. ground (arith, f.mapped x, c.mapped x, c.byte x, f.zero_filled x);
    byte = λ x i. ground (arith, f.mapped x, c.mapped x, c.byte x, f.byte x, f.free x);
  }

  -- Without what follows its first `n` bytes.
  pub cut_tail :
      FreshMapping k base len s t
      → Unmapping k (base + n) (len - n) t u
      → n ≤ len
      → FreshMapping k base n s u
  cut_tail f c h = record {
    free = λ x i. f.free x (ground arith);
    mapped = λ x. ground (arith, f.mapped x, c.mapped x, f.free x);
    zero_filled = λ x i. ground (arith, f.mapped x, c.mapped x, c.byte x, f.zero_filled x);
    byte = λ x i. ground (arith, f.mapped x, c.mapped x, c.byte x, f.byte x, f.free x);
  }

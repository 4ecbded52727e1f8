-- ===== src/Probe.antt =====
-- The static tracepoints, with their arguments. What the tracer does with them is outside the
-- process, so an execution only records which ones it passes, latest first.
use poireau.Prelude.{ℕ}

pub data Probe : Type 0 where
  mmap_failed : (size alignment padded errno : ℕ) → Probe
  free : (id ptr size : ℕ) → Probe
  malloc : (id ret request : ℕ) → Probe
  calloc_overflow : (num size : ℕ) → Probe
  calloc : (num size id ret request : ℕ) → Probe
  realloc : (ptr old_size id ret request : ℕ) → Probe
  realloc_from_tracked : (old_id ptr old_size new_id ret request : ℕ) → Probe
  realloc_to_regular : (id ptr size ret request : ℕ) → Probe

-- ===== src/Shim/Names.antt =====
-- The functions that the shim interposes, in the order of `FOREACH_WRAPPED` of src/shim.c.
pub data Wrapped : Type 0 where
  free realloc malloc calloc : Wrapped

-- ===== src/TrackedAlloc/Stores.antt =====
-- The two stores into an entry of `info_table`, as one update.
use poireau.Prelude.{ℕ, ◌<◌, ◌≡◌, true, arith, ltb, update, ==_refl, ap}
use mathlib.Core.Path.{fun_ext}
use poireau.Exec.{Exec, ◌>>◌}
use poireau.Kernel.{Kernel}
use poireau.TrackedAlloc.{Tracker, TrackedAllocInfo, store_id, store_size, table_size}

pub update_self {ℓ} : {A : Type ℓ} (f : ℕ → A) (i : ℕ) (a : A) → update f i a i ≡ a
update_self f i a = rw ==_refl

module _ (k : Kernel) where
  abbrev pub with_info : Tracker k → ℕ → TrackedAllocInfo → Tracker k
  with_info t i info = record t { info_table = update t.info_table i info }

  pub store_both :
      {A : Type 0} (i id size : ℕ) (rest : Exec (Tracker k) A) (t : Tracker k)
      → i < table_size
      → (store_id k i id >> (store_size k i size >> rest)) t
        ≡ rest (with_info t i (record { id = id; size = size }))
  unfolding store_id store_size
  store_both i id size rest t h =
      let inside : ltb i table_size ≡ true = ground arith in
      rw inside
        (ap (λ f. rest (record t { info_table = f })) (fun_ext λ j. ground (arith, ==_refl i)))

-- ===== src/Shim/Service/Patched.antt =====
-- Calls through pointers that are patched.
use poireau.Prelude.{ℕ, ◌≡◌}
use poireau.Exec.{Exec}
use poireau.Kernel.{Kernel}
use poireau.Sample.{Entropy, Doubles}
use poireau.Shim.{
  Host, Target, Process, base_malloc, base_calloc, calling, changing, base_realloc, base_free,
}

module _ (k : Kernel) (e : Entropy) (d : Doubles) (h : Host k) (rounds : ℕ) where
  -- Calls through a patched pointer.
  pub base_malloc-real :
      (again : ℕ → Exec (Process k e) ℕ) (request : ℕ) (p : Process k e)
      → p.loader.base_malloc ≡ Target.real
      → base_malloc k e d h rounds again request p ≡ calling k e d h rounds (h.malloc request) p
  unfolding base_malloc
  base_malloc-real again request p patched = rw patched

  pub base_calloc-real :
      (again : ℕ → ℕ → Exec (Process k e) ℕ) (num size : ℕ) (p : Process k e)
      → p.loader.base_calloc ≡ Target.real
      → base_calloc k e d h rounds again num size p ≡ calling k e d h rounds (h.calloc num size) p
  unfolding base_calloc
  base_calloc-real again num size p patched = rw patched

  pub base_realloc-real :
      (again : ℕ → ℕ → Exec (Process k e) ℕ) (ptr request : ℕ) (p : Process k e)
      → p.loader.base_realloc ≡ Target.real
      → base_realloc k e d h rounds again ptr request p
        ≡ calling k e d h rounds (h.realloc ptr request) p
  unfolding base_realloc
  base_realloc-real again ptr request p patched = rw patched

  pub base_free-real :
      (again : ℕ → Exec (Process k e) (Unit {0})) (ptr : ℕ) (p : Process k e)
      → p.loader.base_free ≡ Target.real
      → base_free k e d h rounds again ptr p ≡ changing k e d h rounds (h.free ptr) p
  unfolding base_free
  base_free-real again ptr p patched = rw patched

-- ===== src/Shim/Init.antt =====
-- Patching the `base_` pointers, once, and what the entry points do meanwhile.
use poireau.Prelude.{ap, ◌∙◌, Bool, ℕ, ◌-◌, ◌≡◌, refl, true, false, ◌||◌}
use poireau.Exec.{done, Exec, and_then, ◌>>◌}
use poireau.Kernel.{Kernel}
use poireau.Sample.{Entropy, Doubles}
use poireau.Shim.Names.{Wrapped}
use poireau.Shim.{Host, Target, Loader, Process, look_up, init_shim}

-- All pointers are patched.
pub record IsReady (l : Loader) : Type 0 where
  pub free : l.base_free ≡ Target.real
  pub realloc : l.base_realloc ≡ Target.real
  pub malloc : l.base_malloc ≡ Target.real
  pub calloc : l.base_calloc ≡ Target.real

-- All pointers are patched, by this thread.
abbrev pub patched : Loader
patched = record {
  is_done = true;
  is_started = true;
  base_free = Target.real;
  base_realloc = Target.real;
  base_malloc = Target.real;
  base_calloc = Target.real;
}

-- What is assumed of `dlsym`: it finds the functions, and leaves the flags and the pointers alone
-- once the thread has started. It may allocate meanwhile, and so change all else.
pub record DlsymLaws (k : Kernel) (e : Entropy) (h : Host k) : Type 0 where
  pub found : (f : Wrapped) (p : Process k e) → (h.dlsym e f p).0 ≡ true
  pub loader :
      (f : Wrapped) (p : Process k e)
      → p.loader.is_started ≡ true
      → (h.dlsym e f p).1.loader ≡ p.loader

module _ (k : Kernel) (e : Entropy) (d : Doubles) (h : Host k) (rounds : ℕ) (p : Process k e) where
  abbrev bytes_left : ℕ
  bytes_left = p.sampler.state.bytes_until_next_sample

  -- `p` with `n` bytes fewer to go.
  abbrev pub passed : ℕ → Process k e
  passed n = record p {
    sampler = record p.sampler {
      state = record p.sampler.state { bytes_until_next_sample = bytes_left - n };
    };
  }

module _ (k : Kernel) (e : Entropy) (d : Doubles) (h : Host k) (rounds : ℕ) where
  -- What a call of `dlsym` leaves, and the store behind it.
  abbrev looked_up : Wrapped → (Loader → Loader) → Process k e → Process k e
  looked_up f store p = record (h.dlsym e f p).1 { loader = store p.loader }

  look_up-looked_up :
      (f : Wrapped) (store : Target → Loader → Loader) (p : Process k e)
      → DlsymLaws k e h
      → p.loader.is_started ≡ true
      → look_up k e d h rounds f store p ≡ done tt (looked_up f (store Target.real) p)
  unfolding look_up
  look_up-looked_up f store p laws started = rw (laws.found f p, laws.loader f p started)

  look_up_then :
      (f : Wrapped) (store : Target → Loader → Loader) (p : Process k e)
      (rest : Exec (Process k e) Bool)
      → DlsymLaws k e h
      → p.loader.is_started ≡ true
      → (look_up k e d h rounds f store >> rest) p ≡ rest (looked_up f (store Target.real) p)
  look_up_then f store p rest laws started =
      ap (λ o. and_then o (λ _. rest)) (look_up-looked_up f store p laws started)

  -- The four lookups, one after the other, by a thread that has started.
  abbrev pub looked : Process k e → Process k e
  looked p =
      let p0 = record p { loader = record p.loader { is_started = true } } in
      let p1 = looked_up Wrapped.free (λ l. record l { base_free = Target.real }) p0 in
      let p2 = looked_up Wrapped.realloc (λ l. record l { base_realloc = Target.real }) p1 in
      let p3 = looked_up Wrapped.malloc (λ l. record l { base_malloc = Target.real }) p2 in
      let p4 = looked_up Wrapped.calloc (λ l. record l { base_calloc = Target.real }) p3 in
      record p4 { loader = record p4.loader { is_done = true } }

  pub init_shim-stays :
      (p : Process k e)
      → (p.loader.is_done || p.loader.is_started) ≡ true
      → init_shim k e d h rounds p ≡ done p.loader.is_done p
  unfolding init_shim
  init_shim-stays p stay = rw stay

  pub init_shim-looked :
      (p : Process k e)
      → DlsymLaws k e h
      → (p.loader.is_done || p.loader.is_started) ≡ false
      → init_shim k e d h rounds p ≡ done true (looked p)
  unfolding init_shim
  init_shim-looked p laws go =
      let p0 = record p { loader = record p.loader { is_started = true } } in
      let p1 = looked_up Wrapped.free (λ l. record l { base_free = Target.real }) p0 in
      let p2 = looked_up Wrapped.realloc (λ l. record l { base_realloc = Target.real }) p1 in
      let p3 = looked_up Wrapped.malloc (λ l. record l { base_malloc = Target.real }) p2 in
      let last =
        λ (p : Process k e). done true (record p { loader = record p.loader { is_done = true } }) in
      let store_free = λ (f : Target) (l : Loader). record l { base_free = f } in
      let store_realloc = λ (f : Target) (l : Loader). record l { base_realloc = f } in
      let store_malloc = λ (f : Target) (l : Loader). record l { base_malloc = f } in
      let store_calloc = λ (f : Target) (l : Loader). record l { base_calloc = f } in
      let after_malloc = look_up k e d h rounds Wrapped.calloc store_calloc >> last in
      let after_realloc = look_up k e d h rounds Wrapped.malloc store_malloc >> after_malloc in
      let after_free = look_up k e d h rounds Wrapped.realloc store_realloc >> after_realloc in
      rw go (
        look_up_then Wrapped.free store_free p0 after_free laws refl
        ∙ look_up_then Wrapped.realloc store_realloc p1 after_realloc laws refl
        ∙ look_up_then Wrapped.malloc store_malloc p2 after_malloc laws refl
        ∙ look_up_then Wrapped.calloc store_calloc p3 last laws refl)

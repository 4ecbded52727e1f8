-- ===== src/Shim/Patching/Alone.antt =====
-- A call of `init_shim` that no other thread interrupts does what the whole function does.
use poireau.Prelude.{
  ℕ, zero, suc, ◌≡◌, refl, Bool, true, false, ◌||◌, List, [], ◌∷◌, inl, inr, Bool-cases, ◌∙◌,
}
use poireau.Exec.{done}
use poireau.Kernel.{Kernel}
use poireau.Sample.{Entropy, Doubles}
use poireau.Shim.{Host, Process, Target, Loader, init_shim}
use poireau.Shim.Init.{DlsymLaws, looked, init_shim-stays, init_shim-looked}
use poireau.Shim.Names.{Wrapped, free, realloc, malloc, calloc}
use poireau.Shim.Patching.{
  Pointers, Frame, test, reads_done, lookup, sets_done, returns, Thread, patch, after, proceed,
}

-- The thread runs alone until its innermost call is about to return.
pub alone : (fuel : ℕ) → Pointers → Bool → List Frame → Pointers × Thread
unfolding proceed
alone zero s started fs = (s, record { is_started = started; frames = fs })
alone (suc n) s started [] = (s, record { is_started = started; frames = [] })
alone (suc n) s started (returns ok ∷ fs) =
    (s, record { is_started = started; frames = returns ok ∷ fs })
alone (suc n) s started (test ∷ fs) =
    let r = proceed s started (test ∷ fs) in alone n r.0 r.1.is_started r.1.frames
alone (suc n) s started (reads_done ∷ fs) =
    let r = proceed s started (reads_done ∷ fs) in alone n r.0 r.1.is_started r.1.frames
alone (suc n) s started (lookup f ∷ fs) =
    let r = proceed s started (lookup f ∷ fs) in alone n r.0 r.1.is_started r.1.frames
alone (suc n) s started (sets_done ∷ fs) =
    let r = proceed s started (sets_done ∷ fs) in alone n r.0 r.1.is_started r.1.frames

-- What all threads see of a process.
abbrev pub pointers : Loader → Pointers
pointers l = record {
  is_done = l.is_done;
  base_free = l.base_free;
  base_realloc = l.base_realloc;
  base_malloc = l.base_malloc;
  base_calloc = l.base_calloc;
}

module _ (n : ℕ) (s : Pointers) (started : Bool) (fs : List Frame) where
  alone_stays :
      (s.is_done || started) ≡ true
      → alone (suc n) s started (test ∷ fs) ≡ alone n s started (reads_done ∷ fs)
  unfolding alone proceed
  alone_stays stay = rw stay refl

  alone_begins :
      (s.is_done || started) ≡ false
      → alone (suc n) s started (test ∷ fs) ≡ alone n s true (lookup free ∷ fs)
  unfolding alone proceed
  alone_begins go = rw go refl

  alone_reads :
      alone (suc n) s started (reads_done ∷ fs) ≡ alone n s started (returns s.is_done ∷ fs)
  unfolding alone proceed
  alone_reads = refl

  alone_patches :
      (f : Wrapped)
      → alone (suc n) s started (lookup f ∷ fs) ≡ alone n (patch f s) started (after f ∷ fs)
  unfolding alone proceed
  alone_patches f = refl

  alone_finishes :
      alone (suc n) s started (sets_done ∷ fs)
      ≡ alone n (record s { is_done = true }) started (returns true ∷ fs)
  unfolding alone proceed
  alone_finishes = refl

alone_returns :
    (n : ℕ) (s : Pointers) (started ok : Bool) (fs : List Frame)
    → alone n s started (returns ok ∷ fs)
      ≡ (s, record { is_started = started; frames = returns ok ∷ fs })
unfolding alone
alone_returns zero s started ok fs = refl
alone_returns (suc n) s started ok fs = refl

-- The six steps of the first call.
alone_all :
    (s : Pointers) (fs : List Frame)
    → alone 5 s true (lookup free ∷ fs) ≡ (
      record {
        is_done = true;
        base_free = Target.real;
        base_realloc = Target.real;
        base_malloc = Target.real;
        base_calloc = Target.real;
      },
      record { is_started = true; frames = returns true ∷ fs },
    )
unfolding patch after
alone_all s fs =
    let s1 = patch free s in
    let s2 = patch realloc s1 in
    let s3 = patch malloc s2 in
    let s4 = patch calloc s3 in
    alone_patches 4 s true fs free
    ∙ alone_patches 3 s1 true fs realloc
    ∙ alone_patches 2 s2 true fs malloc
    ∙ alone_patches 1 s3 true fs calloc
    ∙ alone_finishes 0 s4 true fs
    ∙ alone_returns 0 (record s4 { is_done = true }) true true fs

module _ (k : Kernel) (e : Entropy) (d : Doubles) (h : Host k) (rounds : ℕ) where
  -- If `dlsym` finds the functions, and leaves the flags and the pointers alone once the thread
  -- has started, `init_shim` returns; and a thread that enters it and runs alone for 6 steps, or
  -- until it is about to return, leaves the flags and the pointers as the whole function does,
  -- and returns the same answer.
  pub alone-init_shim :
      (p : Process k e) (fs : List Frame)
      → DlsymLaws k e h
      → (ok : Bool) × (q : Process k e) × (init_shim k e d h rounds p ≡ done ok q)
        × (alone 6 (pointers p.loader) p.loader.is_started (test ∷ fs) ≡ (
          pointers q.loader,
          record { is_started = q.loader.is_started; frames = returns ok ∷ fs },
        ))
  alone-init_shim p fs laws =
      let s = pointers p.loader in
      let started = p.loader.is_started in
      elim (Bool-cases (p.loader.is_done || started)) [
        | inl stay ↦ (
          p.loader.is_done,
          p,
          init_shim-stays k e d h rounds p stay,
          alone_stays 5 s started fs stay
              ∙ alone_reads 4 s started fs
              ∙ alone_returns 4 s started p.loader.is_done fs,
        )
        | inr go ↦ (
          true,
          looked k e d h rounds p,
          init_shim-looked k e d h rounds p laws go,
          alone_begins 5 s started fs go ∙ alone_all s fs,
        )
      ]

-- ===== src/Shim/Patching/Nesting.antt =====
-- The calls of `init_shim` that one thread has in progress.
use poireau.Prelude.{◌≡◌, refl, Bool, true, false, List, [], ◌∷◌, arith}
use poireau.Shim.Names.{Wrapped, free, realloc, malloc, calloc}
use poireau.Shim.Patching.{Frame, test, reads_done, lookup, sets_done, returns, after, may_call}

-- The call that looks the pointers up.
abbrev pub looks : Frame → Bool
looks test = false
looks reads_done = false
looks (lookup f) = true
looks sets_done = true
looks (returns ok) = false

-- A thread has one call in progress, or two: then the outer one is inside `dlsym`, and the inner
-- one does not look anything up. Who looks up has started.
pub Nested : Bool → List Frame → Type 0
Nested started [] = Unit
Nested started (f ∷ []) = looks f ≡ true → started ≡ true
Nested started (f ∷ g ∷ []) =
    (looks f ≡ false) × (looks g ≡ true) × (may_call (g ∷ []) ≡ true) × (started ≡ true)
Nested started (f ∷ g ∷ h ∷ fs) = ⊥

-- The outer call stays where it is.
pub inner_only :
    (started : Bool) (f g : Frame) (fs : List Frame)
    → Nested started (f ∷ fs)
    → looks f ≡ false
    → looks g ≡ false
    → Nested started (g ∷ fs)
unfolding Nested
inner_only started f g [] n h i = λ z. absurd (ground (arith, i))
inner_only started f g (k ∷ []) (_, a, b, c) h i = (i, a, b, c)
inner_only started f g (k ∷ l ∷ fs) n h i = n

pub patch-Nested :
    (started : Bool) (f : Wrapped) (fs : List Frame)
    → Nested started (lookup f ∷ fs)
    → Nested started (after f ∷ fs)
unfolding Nested after
patch-Nested started free [] n = n
patch-Nested started realloc [] n = n
patch-Nested started malloc [] n = n
patch-Nested started calloc [] n = n
patch-Nested started f (g ∷ []) (n, _, _, _) = absurd (ground (arith, n))
patch-Nested started f (g ∷ h ∷ fs) n = n

-- The innermost call returns.
pub rest-Nested :
    (started : Bool) (f : Frame) (fs : List Frame) → Nested started (f ∷ fs) → Nested started fs
unfolding Nested
rest-Nested started f [] n = tt
rest-Nested started f (g ∷ []) (_, _, _, begun) = λ _. begun
rest-Nested started f (g ∷ h ∷ fs) n = absurd n

-- The outermost call begins.
pub begins :
    (started : Bool) (fs : List Frame)
    → Nested started (test ∷ fs)
    → started ≡ false
    → Nested true (lookup free ∷ fs)
unfolding Nested
begins started [] n fresh = λ _. refl
begins started (g ∷ []) (_, _, _, begun) fresh = absurd (ground (arith, begun, fresh))
begins started (g ∷ h ∷ fs) n fresh = n

pub finishes :
    (started : Bool) (fs : List Frame)
    → Nested started (sets_done ∷ fs)
    → Nested started (returns true ∷ fs)
unfolding Nested
finishes started [] n = λ z. absurd (ground arith)
finishes started (g ∷ []) (n, _, _, _) = absurd (ground (arith, n))
finishes started (g ∷ h ∷ fs) n = n

-- `dlsym` enters the shim again.
pub enters :
    (started : Bool) (fs : List Frame)
    → Nested started fs
    → may_call fs ≡ true
    → Nested started (test ∷ fs)
unfolding Nested
enters started [] n may = λ z. absurd (ground arith)
enters started (lookup f ∷ []) n may = (refl, refl, refl, n refl)
enters started (lookup f ∷ g ∷ []) (n, _, _, _) may = absurd (ground (arith, n))
enters started (lookup f ∷ g ∷ h ∷ fs) n may = n
enters started (test ∷ fs) n may = absurd (ground arith)
enters started (reads_done ∷ fs) n may = absurd (ground arith)
enters started (sets_done ∷ fs) n may = absurd (ground arith)
enters started (returns ok ∷ fs) n may = absurd (ground arith)

pub empty-Nested : (started : Bool) → Nested started []
unfolding Nested
empty-Nested started = tt

-- `dlsym` runs only in a thread that has started.
pub inner_started :
    (started : Bool) (f g : Frame) (fs : List Frame) → Nested started (f ∷ g ∷ fs) → started ≡ true
unfolding Nested
inner_started started f g [] (_, _, _, begun) = begun
inner_started started f g (h ∷ fs) n = absurd n

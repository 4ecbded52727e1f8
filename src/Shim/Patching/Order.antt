-- ===== src/Shim/Patching/Order.antt =====
-- The pointers are patched in order, whatever the schedule.
use poireau.Prelude.{◌≡◌, refl, Bool, true, ◌||◌, List, [], ◌∷◌, Bool-cases, inl, inr, arith}
use mathlib.Core.Path.{subst}
use poireau.Shim.{Target}
use poireau.Shim.Names.{Wrapped, free, realloc, malloc, calloc}
use poireau.Shim.Patching.{
  Pointers, Frame, test, reads_done, lookup, sets_done, returns, patch, after, proceed, may_call,
}
use poireau.Shim.Patching.Nesting.{
  Nested, inner_only, patch-Nested, rest-Nested, begins, finishes, enters, empty-Nested,
}

-- Each pointer is patched before the next one, and all before `done` is set.
pub record Ordered (s : Pointers) : Type 0 where
  pub free_first : s.base_realloc ≡ Target.real → s.base_free ≡ Target.real
  pub then_realloc : s.base_malloc ≡ Target.real → s.base_realloc ≡ Target.real
  pub then_malloc : s.base_calloc ≡ Target.real → s.base_malloc ≡ Target.real
  pub done_last : s.is_done ≡ true → s.base_calloc ≡ Target.real

-- What was patched stays so.
pub record Onward (s s' : Pointers) : Type 0 where
  pub free : s.base_free ≡ Target.real → s'.base_free ≡ Target.real
  pub realloc : s.base_realloc ≡ Target.real → s'.base_realloc ≡ Target.real
  pub malloc : s.base_malloc ≡ Target.real → s'.base_malloc ≡ Target.real
  pub calloc : s.base_calloc ≡ Target.real → s'.base_calloc ≡ Target.real
  pub is_done : s.is_done ≡ true → s'.is_done ≡ true

-- What a call in progress knows.
pub Fits : Pointers → Frame → Type 0
Fits s test = Unit
Fits s reads_done = Unit
Fits s (lookup free) = Unit
Fits s (lookup realloc) = s.base_free ≡ Target.real
Fits s (lookup malloc) = s.base_realloc ≡ Target.real
Fits s (lookup calloc) = s.base_malloc ≡ Target.real
Fits s sets_done = s.base_calloc ≡ Target.real
Fits s (returns ok) = ok ≡ true → s.is_done ≡ true

pub AllFit : Pointers → List Frame → Type 0
unfolding Fits
AllFit s [] = Unit
AllFit s (f ∷ fs) = Fits s f × AllFit s fs

pub Onward-refl : (s : Pointers) → Onward s s
Onward-refl s = record {
  free = λ h. h;
  realloc = λ h. h;
  malloc = λ h. h;
  calloc = λ h. h;
  is_done = λ h. h;
}

pub Onward-trans : {a b c : Pointers} → Onward a b → Onward b c → Onward a c
Onward-trans x y = record {
  free = λ h. y.free (x.free h);
  realloc = λ h. y.realloc (x.realloc h);
  malloc = λ h. y.malloc (x.malloc h);
  calloc = λ h. y.calloc (x.calloc h);
  is_done = λ h. y.is_done (x.is_done h);
}

Onward-patch : (f : Wrapped) (s : Pointers) → Onward s (patch f s)
unfolding patch
Onward-patch free s = record {
  free = λ _. refl;
  realloc = λ h. h;
  malloc = λ h. h;
  calloc = λ h. h;
  is_done = λ h. h;
}
Onward-patch realloc s = record {
  free = λ h. h;
  realloc = λ _. refl;
  malloc = λ h. h;
  calloc = λ h. h;
  is_done = λ h. h;
}
Onward-patch malloc s = record {
  free = λ h. h;
  realloc = λ h. h;
  malloc = λ _. refl;
  calloc = λ h. h;
  is_done = λ h. h;
}
Onward-patch calloc s = record {
  free = λ h. h;
  realloc = λ h. h;
  malloc = λ h. h;
  calloc = λ _. refl;
  is_done = λ h. h;
}

Onward-Fits : {s s' : Pointers} (f : Frame) → Onward s s' → Fits s f → Fits s' f
unfolding Fits
Onward-Fits test o h = tt
Onward-Fits reads_done o h = tt
Onward-Fits (lookup free) o h = tt
Onward-Fits (lookup realloc) o h = o.free h
Onward-Fits (lookup malloc) o h = o.realloc h
Onward-Fits (lookup calloc) o h = o.malloc h
Onward-Fits sets_done o h = o.calloc h
Onward-Fits (returns ok) o h = λ yes. o.is_done (h yes)

pub Onward-AllFit : {s s' : Pointers} (fs : List Frame) → Onward s s' → AllFit s fs → AllFit s' fs
unfolding AllFit
Onward-AllFit [] o h = tt
Onward-AllFit (f ∷ fs) o (h, hs) = (Onward-Fits f o h, Onward-AllFit fs o hs)

-- A pointer is patched when those before it are, and then the next one may be.
patch-Ordered : (f : Wrapped) (s : Pointers) → Ordered s → Fits s (lookup f) → Ordered (patch f s)
unfolding patch Fits
patch-Ordered free s o h = record {
  free_first = λ _. refl;
  then_realloc = o.then_realloc;
  then_malloc = o.then_malloc;
  done_last = o.done_last;
}
patch-Ordered realloc s o h = record {
  free_first = λ _. h;
  then_realloc = λ _. refl;
  then_malloc = o.then_malloc;
  done_last = o.done_last;
}
patch-Ordered malloc s o h = record {
  free_first = o.free_first;
  then_realloc = λ _. h;
  then_malloc = λ _. refl;
  done_last = o.done_last;
}
patch-Ordered calloc s o h = record {
  free_first = o.free_first;
  then_realloc = o.then_realloc;
  then_malloc = λ _. h;
  done_last = λ _. refl;
}

patch-Fits : (f : Wrapped) (s : Pointers) → Fits (patch f s) (after f)
unfolding patch after Fits
patch-Fits free s = refl
patch-Fits realloc s = refl
patch-Fits malloc s = refl
patch-Fits calloc s = refl

pub record Good (s : Pointers) (started : Bool) (fs : List Frame) : Type 0 where
  pub fit : AllFit s fs
  pub nested : Nested started fs

-- A step of a thread.
pub proceed-Good :
    (s : Pointers) (started : Bool) (fs : List Frame)
    → Ordered s
    → Good s started fs
    → let (s', th) = proceed s started fs in
      Onward s s' × Ordered s' × Good s' th.is_started th.frames
unfolding proceed AllFit Fits
proceed-Good s started [] o g = (Onward-refl s, o, g)
proceed-Good s started (test ∷ fs) o g = elim (Bool-cases (s.is_done || started)) [
  | inl stay ↦ rw stay (
    Onward-refl s,
    o,
    record {
      fit = (tt, g.fit.1);
      nested = inner_only started test reads_done fs g.nested refl refl;
    },
  )
  | inr go ↦ rw go (
    Onward-refl s,
    o,
    record { fit = (tt, g.fit.1); nested = begins started fs g.nested (ground arith) },
  )
]
proceed-Good s started (reads_done ∷ fs) o g = (
  Onward-refl s,
  o,
  record {
    fit = (λ h. h, g.fit.1);
    nested = inner_only started reads_done (returns s.is_done) fs g.nested refl refl;
  },
)
proceed-Good s started (lookup f ∷ fs) o g =
    let stays = Onward-patch f s in
    (
      stays,
      patch-Ordered f s o g.fit.0,
      record {
        fit = (patch-Fits f s, Onward-AllFit fs stays g.fit.1);
        nested = patch-Nested started f fs g.nested;
      },
    )
proceed-Good s started (sets_done ∷ fs) o g =
    let stays : Onward s (record s { is_done = true }) = record {
      free = λ h. h;
      realloc = λ h. h;
      malloc = λ h. h;
      calloc = λ h. h;
      is_done = λ _. refl;
    } in
    (
      stays,
      record {
        free_first = o.free_first;
        then_realloc = o.then_realloc;
        then_malloc = o.then_malloc;
        done_last = λ _. g.fit.0;
      },
      record {
        fit = (λ _. refl, Onward-AllFit fs stays g.fit.1);
        nested = finishes started fs g.nested;
      },
    )
proceed-Good s started (returns ok ∷ fs) o g = (
  Onward-refl s,
  o,
  record { fit = g.fit.1; nested = rest-Nested started (returns ok) fs g.nested },
)

pub call-Good :
    (s : Pointers) (started : Bool) (fs : List Frame)
    → Good s started fs
    → may_call fs ≡ true
    → Good s started (test ∷ fs)
unfolding AllFit Fits
call-Good s started fs g may = record { fit = (tt, g.fit); nested = enters started fs g.nested may }

-- Another thread's steps do no harm.
pub Onward-Good :
    {s s' : Pointers} {started : Bool} {fs : List Frame}
    → Onward s s'
    → Good s started fs
    → Good s' started fs
Onward-Good {fs = fs} o g = record { fit = Onward-AllFit fs o g.fit; nested = g.nested }

pub empty-Good : (s : Pointers) (started : Bool) → Good s started []
unfolding AllFit
empty-Good s started = record { fit = tt; nested = empty-Nested started }

-- A call that is about to return true has seen `done`.
pub returned_done :
    {s : Pointers} {started : Bool} {fs : List Frame} (rest : List Frame)
    → Good s started fs
    → fs ≡ returns true ∷ rest
    → s.is_done ≡ true
unfolding AllFit Fits
returned_done {s} rest g top = (subst (AllFit s) top g.fit).0 refl

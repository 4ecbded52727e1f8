-- ===== src/Shim/Patching.antt =====
-- `init_shim` of src/shim.c under several threads: `done` and the `base_` pointers are shared, and
-- each thread has its own `started`. One step is one access to a shared variable; `dlsym`
-- finds each function, and may enter the shim again before.
pub mod Nesting
pub mod Order
pub mod Safety
pub mod Progress
pub mod Alone
pub mod Examples
use poireau.Prelude.{ℕ, ◌≡◌, Bool, true, false, ◌||◌, List, [], ◌∷◌, if◌then◌else◌, update}
use poireau.Shim.{Target}
use poireau.Shim.Names.{Wrapped, free, realloc, malloc, calloc}

-- What all threads see.
pub record Pointers : Type 0 where
  pub is_done : Bool
  pub base_free : Target
  pub base_realloc : Target
  pub base_malloc : Target
  pub base_calloc : Target

-- Where a call of `init_shim` is: before the test; before it reads `done` once more, to return it;
-- inside `dlsym`, before the pointer is stored; before it sets `done`; before it returns.
pub data Frame : Type 0 where
  test reads_done : Frame
  lookup : Wrapped → Frame
  sets_done : Frame
  returns : Bool → Frame

-- `started`, and the calls in progress, the innermost first.
pub record Thread : Type 0 where
  pub is_started : Bool
  pub frames : List Frame

-- The store behind `dlsym`.
pub patch : Wrapped → Pointers → Pointers
patch free s = record s { base_free = Target.real }
patch realloc s = record s { base_realloc = Target.real }
patch malloc s = record s { base_malloc = Target.real }
patch calloc s = record s { base_calloc = Target.real }

-- The order of the lookups.
pub after : Wrapped → Frame
after free = lookup realloc
after realloc = lookup malloc
after malloc = lookup calloc
after calloc = sets_done

-- The next step of a thread's innermost call; a call that returns is gone.
pub proceed : Pointers → Bool → List Frame → Pointers × Thread
unfolding patch after
proceed s started [] = (s, record { is_started = started; frames = [] })
proceed s started (test ∷ fs) =
    if s.is_done || started
    then (s, record { is_started = started; frames = reads_done ∷ fs })
    else (s, record { is_started = true; frames = lookup free ∷ fs })
proceed s started (reads_done ∷ fs) =
    (s, record { is_started = started; frames = returns s.is_done ∷ fs })
proceed s started (lookup f ∷ fs) =
    (patch f s, record { is_started = started; frames = after f ∷ fs })
proceed s started (sets_done ∷ fs) =
    (record s { is_done = true }, record { is_started = started; frames = returns true ∷ fs })
proceed s started (returns ok ∷ fs) = (s, record { is_started = started; frames = fs })

-- The shim is entered by the program, or by `dlsym`.
abbrev pub may_call : List Frame → Bool
may_call [] = true
may_call (test ∷ fs) = false
may_call (reads_done ∷ fs) = false
may_call (lookup f ∷ fs) = true
may_call (sets_done ∷ fs) = false
may_call (returns ok ∷ fs) = false

pub record Program : Type 0 where
  pub pointers : Pointers
  pub threads : ℕ → Thread

abbrev pub calls : ℕ → Program → Program
calls i p =
    let th = p.threads i in
    record p { threads = update p.threads i (record th { frames = test ∷ th.frames }) }

abbrev pub moves : ℕ → Program → Program
moves i p =
    let th = p.threads i in
    let r = proceed p.pointers th.is_started th.frames in
    record { pointers = r.0; threads = update p.threads i r.1 }

-- Any thread goes on, or enters the shim.
pub data Step (p : Program) : Program → Type 0 where
  call : (i : ℕ) → may_call (p.threads i).frames ≡ true → Step p (calls i p)
  move : (i : ℕ) → Step p (moves i p)

pub data Reach (p : Program) : Program → Type 0 where
  here : Reach p p
  next : {q r : Program} → Reach p q → Step q r → Reach p r

-- The library has just been loaded.
pub record IsInitial (p : Program) : Type 0 where
  pub not_done : p.pointers.is_done ≡ false
  pub free : p.pointers.base_free ≡ Target.dummy
  pub realloc : p.pointers.base_realloc ≡ Target.dummy
  pub malloc : p.pointers.base_malloc ≡ Target.dummy
  pub calloc : p.pointers.base_calloc ≡ Target.dummy
  pub not_started : (i : ℕ) → (p.threads i).is_started ≡ false
  pub no_calls : (i : ℕ) → (p.threads i).frames ≡ []

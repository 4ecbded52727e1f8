-- ===== src/Shim/Patching/Examples.antt =====
-- Two threads that patch the pointers, and the theorems at them.
use poireau.Prelude.{Bool, ◌≡◌, ◌⊎◌, refl, false, true, List, [], ◌∷◌, arith}
use poireau.Exec.{done}
use poireau.Kernel.Regions.{regions_kernel}
use poireau.Sample.Examples.{source, fixed_point}
use poireau.TrackedAlloc.Examples.{start as first_tracker}
use poireau.Shim.{Process, Target, init_shim}
use poireau.Shim.Examples.{bump, bump-DlsymLaws, process, fresh_loader}
use poireau.Shim.Patching.{
  Pointers, Frame, test, returns, patch, after, proceed, Program, calls, moves, call, move, Reach,
  here, next, IsInitial,
}
use poireau.Shim.Patching.Nesting.{Nested}
use poireau.Shim.Patching.Safety.{AllPatched, reach-Patched}
use poireau.Shim.Names.{free}
use poireau.Shim.Patching.Progress.{
  Stretch, start, own, enters_again, other_call, other_move, Stretch-finishes,
}
use poireau.Shim.Patching.Alone.{alone, alone-init_shim, pointers}

abbrev dummies : Pointers
dummies = record {
  is_done = false;
  base_free = Target.dummy;
  base_realloc = Target.dummy;
  base_malloc = Target.dummy;
  base_calloc = Target.dummy;
}

abbrev loaded : Program
loaded = record { pointers = dummies; threads = λ i. record { is_started = false; frames = [] } }

loaded-IsInitial : IsInitial loaded
loaded-IsInitial = record {
  not_done = refl;
  free = refl;
  realloc = refl;
  malloc = refl;
  calloc = refl;
  not_started = λ i. refl;
  no_calls = λ i. refl;
}

-- Thread 0 enters and patches two pointers, and thread 1 enters.
abbrev entered : Program
entered = calls 0 loaded

abbrev midway : Program
midway = calls 1 (moves 0 (moves 0 (moves 0 entered)))

entered_reached : Reach loaded entered
entered_reached = next here (call 0 refl)

midway_reached : Reach entered midway
unfolding proceed patch after
midway_reached = next (next (next (next here (move 0)) (move 0)) (move 0)) (call 1 refl)

-- Thread 0 patches the other two.
abbrev patched : Program
patched = moves 0 (moves 0 midway)

patched_reached : Reach midway patched
patched_reached = next (next here (move 0)) (move 0)

both : {p q r : Program} → Reach p q → Reach q r → Reach p r
both a here = a
both a (next b step) = next (both a b) step

reach-Patched_example :
    ((patched.pointers.base_malloc ≡ Target.real) ⊎ (patched.pointers.base_calloc ≡ Target.real)
      → (patched.pointers.base_free ≡ Target.real) × (patched.pointers.base_realloc ≡ Target.real))
    × (patched.pointers.is_done ≡ true → AllPatched patched.pointers)
    × ((rest : List Frame)
        → (patched.threads 0).frames ≡ returns true ∷ rest
        → AllPatched patched.pointers)
    × Nested (patched.threads 0).is_started (patched.threads 0).frames
reach-Patched_example =
    reach-Patched 0 loaded-IsInitial (both entered_reached (both midway_reached patched_reached))

-- Thread 0 goes on from its entry, and its first `dlsym` enters the shim again, while thread 1
-- enters and moves.
abbrev inside_again : Program
inside_again = calls 0 (moves 0 entered)

abbrev nested_ends : Program
nested_ends = moves 0 (moves 0 (moves 1 (calls 1 (moves 0 inside_again))))

abbrev ten : Program
ten = moves 0 (moves 0 (moves 0 (moves 0 (moves 0 (moves 0 nested_ends)))))

ten_run : Stretch 0 entered 10 1 ten
unfolding proceed patch after
ten_run =
    let again = enters_again free [] (own start) refl in
    let others = other_move 1 (other_call 1 (own again) (omega arith) refl) (omega arith) in
    own (own (own (own (own (own (own (own others)))))))

Stretch-finishes_example : (ten.threads 0).frames ≡ []
Stretch-finishes_example =
    Stretch-finishes loaded-IsInitial entered_reached refl ten_run (omega arith)

alone-init_shim_example :
    (ok : Bool) × (q : Process regions_kernel source) × (init_shim regions_kernel source fixed_point
        bump 3
        (process first_tracker fresh_loader)
      ≡ done ok q)
    × (alone 6 (pointers fresh_loader) false (test ∷ []) ≡ (
      pointers q.loader,
      record { is_started = q.loader.is_started; frames = returns ok ∷ [] },
    ))
alone-init_shim_example =
    alone-init_shim regions_kernel source fixed_point bump 3 (process first_tracker fresh_loader) []
      bump-DlsymLaws

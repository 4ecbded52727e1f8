-- ===== src/TrackedAlloc/Tasks/Examples.antt =====
-- Two allocations whose operations alternate, over the small kernel, and the theorems at them.
use poireau.Prelude.{
  ℕ, zero, suc, ◌+◌, ◌^◌, ◌<◌, ◌≡◌, ◌⊎◌, refl, true, false, List, [], ◌∷◌, arith, update, inl, inr,
}
use mathlib.Core.List.{foldl}
use native.Mathlib.Decide.{dec_lt}
use poireau.Exec.{Outcome, done, failed}
use poireau.Exec.Returns.{Returns}
use poireau.Kernel.Regions.{regions_kernel, regions_laws}
use poireau.TrackedAlloc.{tracked_alloc_p, tracked_alloc_info, round_to_page, munmap_checked, mmap}
use poireau.TrackedAlloc.Examples.{start, one}
use poireau.TrackedAlloc.Tasks.{
  idle, get_start, held, put_start, advance, alone, System, Reach, here, next, call_get, call_put,
  run, IsInitial,
}
use poireau.TrackedAlloc.Tasks.Invariant.{left, owns, size_at}
use poireau.TrackedAlloc.Tasks.Safety.{
  IsSafe, Separate, advance-Onward, held-Separate, tracked_alloc_p-held, tracked_alloc_p-foreign,
}
use poireau.TrackedAlloc.Tasks.Alone.{begin, put, sequential, alone-sequential}

abbrev loaded : System regions_kernel
loaded = record { shared = start; stage = λ i. idle }

loaded-IsInitial : IsInitial regions_kernel loaded
loaded-IsInitial = record { stages = λ i. refl; counter = refl; table = λ i. refl }

-- Tasks 0 and 1 have called `tracked_alloc_get`.
abbrev both_called : System regions_kernel
both_called = record loaded {
  stage = update (update loaded.stage 0 (get_start 5000)) 1 (get_start 100);
}

both_called-Reach : Reach regions_kernel loaded both_called
both_called-Reach =
    next (next here (call_get 0 5000 refl (omega arith))) (call_get 1 100 refl (omega arith))

record Run : Type 0 where
  last : System regions_kernel
  reach : Reach regions_kernel loaded last

Outcome-cases : {S A : Type 0} (o : Outcome S A) → (Unit {0}) ⊎ ((a : A) × (s : S) × (o ≡ done a s))
Outcome-cases (done a s) = inr (a, s, refl)
Outcome-cases (failed e) = inl tt

-- Task `i` goes on by one operation.
turn : Run → ℕ → Run
unfolding dec_lt Outcome-cases
turn r i = elim (dec_lt (r.last.shared.alloc_id_counter + 1) (2 ^ 64)) [
  | no _ ↦ r
  | yes room ↦ elim (Outcome-cases (advance regions_kernel (r.last.stage i) r.last.shared)) [
    | inl _ ↦ r
    | inr (g, t, ran) ↦ record { last = _; reach = next r.reach (run i room ran) }
  ]
]

abbrev turns : List ℕ → Run
turns is = foldl turn (record { last = both_called; reach = both_called-Reach }) is

-- Both have returned a pointer.
abbrev both_held : Run
both_held = turns (0 ∷ 1 ∷ 0 ∷ 1 ∷ 0 ∷ 1 ∷ 0 ∷ 1 ∷ 0 ∷ 1 ∷ 0 ∷ 1 ∷ 0 ∷ 1 ∷ [])

both_held_run :
    (both_held.last.stage 0 ≡ held (2 ^ 30) 1) × (both_held.last.stage 1 ≡ held (2 ^ 31) 2)
unfolding turn advance round_to_page munmap_checked mmap
both_held_run = (refl, refl)

both_held_counter : both_held.last.shared.alloc_id_counter + 1 < 2 ^ 64
unfolding turn advance round_to_page munmap_checked mmap
both_held_counter = omega arith

held-Separate_example :
    Separate regions_kernel regions_laws both_held.last 0 1 (2 ^ 30) (2 ^ 31) 1 2
held-Separate_example =
    held-Separate regions_kernel regions_laws loaded both_held.last 0 1 (2 ^ 30) (2 ^ 31) 1 2
      loaded-IsInitial both_held.reach (omega arith) both_held_run.0 both_held_run.1

-- Task 0 is called to give its pointer back, while task 1 holds one.
abbrev one_called : System regions_kernel
one_called = record both_held.last { stage = update both_held.last.stage 0 (put_start (2 ^ 30)) }

one_called-Reach : Reach regions_kernel loaded one_called
one_called-Reach = next both_held.reach (call_put 0 (2 ^ 30) 1 both_held_run.0)

advance-Onward_example :
    Returns
      (λ g t.
        IsSafe regions_kernel (record { shared = t; stage = update one_called.stage 0 g })
        × ((left (one_called.stage 0) ≡ 0) ⊎ (left g < left (one_called.stage 0))))
      (advance regions_kernel (one_called.stage 0) one_called.shared)
advance-Onward_example =
    advance-Onward regions_kernel regions_laws loaded one_called 0 loaded-IsInitial one_called-Reach
      both_held_counter

tracked_alloc_p-held_example :
    (tracked_alloc_p regions_kernel (2 ^ 31) one_called.shared ≡ done true one_called.shared)
    × (tracked_alloc_info regions_kernel (2 ^ 31) one_called.shared
        ≡ done
            (record { id = 2; size = size_at regions_kernel one_called.shared (2 ^ 31) })
            one_called.shared)
tracked_alloc_p-held_example =
    tracked_alloc_p-held regions_kernel regions_laws loaded one_called 1 (2 ^ 31) 2 loaded-IsInitial
      one_called-Reach both_held_run.1

-- No task owns the address 2 ^ 40.
free_address : (j : ℕ) → owns regions_kernel one_called.shared (one_called.stage j) (2 ^ 40) ≡ false
unfolding turn advance round_to_page munmap_checked mmap
free_address zero = refl
free_address (suc zero) = refl
free_address (suc (suc j)) = ground arith

tracked_alloc_p-foreign_example :
    tracked_alloc_p regions_kernel (2 ^ 40) one_called.shared ≡ done false one_called.shared
tracked_alloc_p-foreign_example =
    tracked_alloc_p-foreign regions_kernel regions_laws loaded one_called (2 ^ 40) loaded-IsInitial
      one_called-Reach (omega arith) free_address

alone-sequential_example :
    alone regions_kernel 8 (begin (put (2 ^ 30))) one ≡ sequential regions_kernel (put (2 ^ 30)) one
alone-sequential_example = alone-sequential regions_kernel (put (2 ^ 30)) one

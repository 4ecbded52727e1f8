-- ===== src/Shim/Service/Examples.antt =====
-- Runs of the entry points beside a small underlying allocator, and the theorems at them.
use poireau.TrackedAlloc.Invariant.{view}
use poireau.Prelude.{
  ℕ, ◌/◌, ◌≢◌, ◌+◌, ◌*◌, ◌^◌, false, within, ◌≡◌, inl, inr, none, some, refl, arith, ◌==◌,
  if◌then◌else◌,
}
use poireau.Shim.Init.{passed}
use poireau.Shim.Malloc.{malloc_regular}
use poireau.Shim.Free.{free_regular}
use poireau.Exec.Ends.{Ends}
use poireau.Exec.Returns.{Returns}
use poireau.Kernel.Regions.{Regions, regions_kernel, regions_laws}
use poireau.Sample.Examples.{source, fixed_point, seeded-IsSeeded}
use poireau.TrackedAlloc.Examples.{
  first, beside, beside-IsValid, beside_one, beside_one-IsValid, view-beside_one, beside_counter,
  beside_mapped, beside_empty, beside_apart,
}
use poireau.Shim
use poireau.Shim.{Host, Process}
use poireau.Shim.Examples.{process, patched_loader}
use poireau.Shim.Service.{Ledger, Sound, IsFit, Unlucky, Serves, Frees, Reallocs}
use poireau.Shim.Service.Mallocs.{malloc-Serves, calloc-Serves}
use poireau.Shim.Service.Frees.{free-Frees}
use poireau.Shim.Service.Calls.{realloc-Reallocs}
use poireau.Shim.Service.Client.{Live, answered, drops, Step, History, Serving, Goes}
use poireau.Shim.Service.History.{Went, step-Goes, history-Went}
use poireau.Sample.{xoshiro_step, xoshiro_output}
use poireau.Sample.Examples.{after_seed, awake, awake-IsSeeded, awake_run}
use poireau.Shim.ThreadExamples.{new_thread, awake_draw}
use poireau.Shim.Service.Fresh.{IsFresh, fresh-Reallocs}
use poireau.Shim.Service.Arena.{
  arena, Agrees, books, slots, slots-HostLaws, slots-CopyLaws, slots-ReadLaws,
}

-- Nothing has been given out by the underlying allocator.
abbrev nothing : Ledger
nothing = record { heap = λ x. within arena 12288 x; block = λ q. false; lent = λ x. false }

unused-Agrees : (s : Regions) → ((x : ℕ) → s.contents x ≡ 0) → Agrees nothing s
unused-Agrees s empty = record {
  heap = λ x. refl;
  block = λ q. rw (empty arena, empty (arena + 1)) (ground arith);
  lent = λ x. rw (empty arena, empty (arena + 1)) (ground arith);
}

abbrev now : Process regions_kernel source
now = process beside_one patched_loader

nothing-Sound : Sound regions_kernel books nothing beside_one
nothing-Sound = record {
  valid = beside_one-IsValid;
  owned = record { mapped = beside_mapped; untracked = beside_apart };
  block_in_heap = λ q given. absurd (ground arith);
  block_low = λ q given. absurd (ground arith);
  lent_in_heap = λ x given. absurd (ground arith);
  booked = unused-Agrees beside_one.os beside_empty;
}

now-IsFit : IsFit regions_kernel books source now
now-IsFit = record {
  ready = record { free = refl; realloc = refl; malloc = refl; calloc = refl };
  seeded = seeded-IsSeeded;
}

malloc-Serves_example :
    Ends
      (Serves regions_kernel books source 0 5000 nothing beside_one)
      (Unlucky source fixed_point 3)
      (Shim.malloc regions_kernel source fixed_point slots 3 2 5000 now)
malloc-Serves_example =
    malloc-Serves regions_kernel books regions_laws source fixed_point slots slots-HostLaws 3
      nothing 1 5000 now nothing-Sound now-IsFit (omega arith) beside_counter

calloc-Serves_example :
    Ends
      (Serves regions_kernel books source 0 (50 * 100) nothing beside_one)
      (Unlucky source fixed_point 3)
      (Shim.calloc regions_kernel source fixed_point slots 3 2 50 100 now)
calloc-Serves_example =
    calloc-Serves regions_kernel books regions_laws source fixed_point slots slots-HostLaws 3
      nothing 1 50 100 now nothing-Sound now-IsFit (omega arith) beside_counter

realloc-Reallocs_example :
    Ends
      (Reallocs regions_kernel books source (2 ^ 30) 9000 nothing beside_one)
      (Unlucky source fixed_point 3)
      (Shim.realloc regions_kernel source fixed_point slots 3 2 (2 ^ 30) 9000 now)
realloc-Reallocs_example =
    realloc-Reallocs regions_kernel books regions_laws source fixed_point slots slots-HostLaws
      slots-CopyLaws slots-ReadLaws 3 nothing 1 (2 ^ 30) 9000 now nothing-Sound now-IsFit
      (omega arith) (omega arith) beside_counter (inr (first, view-beside_one))
      (λ given. absurd (ground arith))

free-Frees_example :
    Returns
      (λ _ q. Frees regions_kernel books source (2 ^ 30) nothing beside_one q)
      (Shim.free regions_kernel source fixed_point slots 3 2 (2 ^ 30) now)
free-Frees_example =
    free-Frees regions_kernel books regions_laws source fixed_point slots slots-HostLaws 3 nothing 1
      (2 ^ 30) now nothing-Sound now-IsFit (inr (first, view-beside_one))

-- The program has the first allocation.
abbrev held : Live
held q = if 2 ^ 30 == q then some 5000 else none

held-Serving : Serving regions_kernel books source fixed_point slots 3 held nothing now
held-Serving = record {
  sound = nothing-Sound;
  fit = now-IsFit;
  null = refl;
  place = λ q n has.
      let here : 2 ^ 30 ≡ q = ground arith in
      let size : 5000 ≡ n = ground arith in inl (1, rw (← here, ← size) view-beside_one);
}

-- After a small `malloc`, which the underlying allocator serves.
abbrev after_small : (request : ℕ) → Process regions_kernel source → Process regions_kernel source
after_small request p = record (passed regions_kernel source fixed_point slots 3 p request) {
  tracker = record p.tracker { os = (slots.malloc request p.tracker.os).1 };
}

-- Its answer.
abbrev small : (request : ℕ) → Process regions_kernel source → ℕ
small request p = (slots.malloc request p.tracker.os).0

first_small :
    Step regions_kernel books source fixed_point slots 3 held now 0
      (small 40 now)
      (answered 0 (small 40 now) 40 held)
      (after_small 40 now)
first_small = Step.malloc 1 40 (small 40 now) (after_small 40 now) (omega arith) beside_counter (
    malloc_regular regions_kernel source fixed_point slots 3 now 1 40 (omega arith) (omega arith)
      refl)

abbrev then_held : Live
then_held = answered 0 (small 40 now) 40 held

step-Goes_example :
    Goes regions_kernel books source fixed_point slots 3 0
      (small 40 now)
      held
      nothing
      now
      then_held
      (after_small 40 now)
step-Goes_example =
    step-Goes regions_kernel books regions_laws source fixed_point slots slots-HostLaws
      slots-CopyLaws slots-ReadLaws 3 nothing held-Serving first_small

small_first : small 40 now ≡ arena + 4096
small_first = ground (arith, beside_empty arena)

slot_untracked : view regions_kernel beside_one (arena + 4096) ≡ none
slot_untracked =
    let entry = beside_one-IsValid.entry ((arena + 4096) / 2 ^ 30) in
    let other : beside_one.tracked_alloc_table ((arena + 4096) / 2 ^ 30) ≢ arena + 4096 =
      λ same. omega (arith, same, entry (omega (arith, same))) in
    let test : (beside_one.tracked_alloc_table ((arena + 4096) / 2 ^ 30) == arena + 4096) ≡ false =
      ground (arith, other) in
    rw test refl

-- Its answer is freed, and given out again.
abbrev after_free : Process regions_kernel source
after_free =
    let p = after_small 40 now in
    record p { tracker = record p.tracker { os = slots.free (small 40 now) p.tracker.os } }

freed :
    Step regions_kernel books source fixed_point slots 3 then_held
      (after_small 40 now)
      (small 40 now)
      0
      (drops (small 40 now) then_held)
      after_free
freed =
    let (_, serving, _, _) =
      step-Goes regions_kernel books regions_laws source fixed_point slots slots-HostLaws
        slots-CopyLaws slots-ReadLaws 3 nothing held-Serving first_small in
    Step.free 1 (small 40 now) after_free (inr (40, rw small_first refl)) (
      free_regular regions_kernel regions_laws source fixed_point slots 3 (after_small 40 now)
        serving.sound.valid 1 (small 40 now) (rw small_first (omega arith))
        (rw small_first slot_untracked) refl)

abbrev then_freed : Live
then_freed = drops (small 40 now) then_held

given_again : small 30 after_free ≡ small 40 now
given_again = ground (arith, beside_empty arena, beside_empty (arena + 1))

second_small :
    Step regions_kernel books source fixed_point slots 3 then_freed after_free 0
      (small 30 after_free)
      (answered 0 (small 30 after_free) 30 then_freed)
      (after_small 30 after_free)
second_small =
    Step.malloc 1 30 (small 30 after_free) (after_small 30 after_free) (omega arith) beside_counter
      (malloc_regular regions_kernel source fixed_point slots 3 after_free 1 30 (omega arith)
        (omega arith) refl)

three_calls :
    History regions_kernel books source fixed_point slots 3
      (2 ^ 30)
      held
      now
      (answered 0 (small 30 after_free) 30 then_freed)
      (after_small 30 after_free)
three_calls =
    History.call 0 _
      (History.call (small 40 now) _ (History.call 0 _ History.start first_small (omega arith))
        freed (omega (arith, small_first)))
      second_small (omega arith)

history-Went_example :
    Went regions_kernel books regions_laws source fixed_point slots slots-HostLaws slots-CopyLaws
      slots-ReadLaws 3
      (2 ^ 30)
      nothing
      now
      (answered 0 (small 30 after_free) 30 then_freed)
      (after_small 30 after_free)
history-Went_example =
    history-Went regions_kernel books regions_laws source fixed_point slots slots-HostLaws
      slots-CopyLaws slots-ReadLaws 3 (2 ^ 30) nothing held-Serving three_calls

-- A new thread beside the arena.
abbrev newcomer : Process regions_kernel source
newcomer = record new_thread { tracker = beside }

beside-Sound : Sound regions_kernel books nothing beside
beside-Sound = record {
  valid = beside-IsValid;
  owned = record {
    mapped = λ x mine. ground arith;
    untracked = λ q i info tracked inside. absurd (ground arith);
  };
  block_in_heap = λ q given. absurd (ground arith);
  block_low = λ q given. absurd (ground arith);
  lent_in_heap = λ x given. absurd (ground arith);
  booked = unused-Agrees beside.os (λ x. refl);
}

newcomer-IsFresh :
    IsFresh regions_kernel source fixed_point slots 2 newcomer
      (5 * 10)
      awake
      (xoshiro_step awake.state)
      (xoshiro_output after_seed)
newcomer-IsFresh = record {
  none_left = refl;
  zeroed = refl;
  seeds = awake_run;
  seeded = awake-IsSeeded;
  drawn = awake_draw;
}

fresh-Reallocs_example :
    Ends
      (Serves regions_kernel books source 0 (5 * 10) nothing beside)
      (Unlucky source fixed_point 3)
      (Shim.malloc regions_kernel source fixed_point slots 3 2 (5 * 10) newcomer)
    × Ends
        (Serves regions_kernel books source 0 (5 * 10) nothing beside)
        (Unlucky source fixed_point 3)
        (Shim.calloc regions_kernel source fixed_point slots 3 2 5 10 newcomer)
    × Ends
        (Reallocs regions_kernel books source 0 (5 * 10) nothing beside)
        (Unlucky source fixed_point 3)
        (Shim.realloc regions_kernel source fixed_point slots 3 2 0 (5 * 10) newcomer)
fresh-Reallocs_example =
    fresh-Reallocs regions_kernel books regions_laws source fixed_point slots slots-HostLaws
      slots-CopyLaws slots-ReadLaws 2 nothing newcomer 0 0 5 10 (xoshiro_output after_seed) awake
      (xoshiro_step awake.state) beside-Sound
      (record { free = refl; realloc = refl; malloc = refl; calloc = refl }) newcomer-IsFresh
      (omega arith) (omega arith) (omega arith) (inl (inl refl)) λ given. absurd (ground arith)

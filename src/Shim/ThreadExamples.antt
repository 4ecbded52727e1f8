-- ===== src/Shim/ThreadExamples.antt =====
-- Runs of the first calls and of a `realloc` that leaves the tracked allocations, and the theorems
-- at them.
use poireau.Prelude.{ℕ, ◌+◌, ◌-◌, ◌^◌, ◌≡◌, refl, true, some, Bool, ◌∷◌, arith, within, leb}
use poireau.Exec.{done}
use poireau.Exec.Returns.{Returns}
use poireau.Kernel.Regions.{Regions, regions_kernel, regions_laws}
use poireau.Sample.{xoshiro_step, xoshiro_output}
use poireau.Sample.Draw.{draw}
use poireau.Sample.Examples.{
  source, fixed_point, unseeded, after_seed, awake, awake-IsSeeded, awake_run,
}
use poireau.TrackedAlloc.Examples.{start, one, one-IsValid, first, view-one, one_low}
use poireau.Shim.{Host, Process, malloc, calloc, realloc}
use poireau.Shim.Contents.{CopyLaws}
use poireau.Shim.Init.{passed, patched, looked}
use poireau.Shim.First.{started, first_request_again, malloc_unpatched}
use poireau.Shim.Release.{HeapLaws, Outside}
use poireau.Shim.Regular.{Regular, realloc_to_regular}
use poireau.Shim.Examples.{bump, bump-DlsymLaws, process, fresh_loader, patched_loader}

-- A thread whose generator is all zero.
abbrev pub new_thread : Process regions_kernel source
new_thread = record (process start patched_loader) {
  sampler = record { state = unseeded; source = true };
}

pub awake_draw : draw 3 awake.state ≡ some (xoshiro_output after_seed, xoshiro_step awake.state)
unfolding draw xoshiro_output
awake_draw = refl

-- The thread after its first threshold is drawn.
abbrev running : Process regions_kernel source
running =
    started regions_kernel source fixed_point bump 2 new_thread awake (xoshiro_step awake.state)
      (xoshiro_output after_seed)

first_request_again_example :
    (malloc regions_kernel source fixed_point bump 3 2 50 new_thread
      ≡ malloc regions_kernel source fixed_point bump 3 1 50 running)
    × (calloc regions_kernel source fixed_point bump 3 2 5 10 new_thread
        ≡ calloc regions_kernel source fixed_point bump 3 1 5 10 running)
    × (realloc regions_kernel source fixed_point bump 3 2 (2 ^ 31) 50 new_thread
        ≡ realloc regions_kernel source fixed_point bump 3 1 (2 ^ 31) 50 running)
first_request_again_example =
    first_request_again regions_kernel source fixed_point bump 2 new_thread 1 50 (2 ^ 31) 5 10
      (xoshiro_output after_seed) awake (xoshiro_step awake.state) refl refl awake_run
      awake-IsSeeded awake_draw refl (omega arith)

-- The process after the first request is counted, and the lookups.
abbrev after_lookups : Process regions_kernel source
after_lookups =
    looked regions_kernel source fixed_point bump 3
      (passed regions_kernel source fixed_point bump 3 (process start fresh_loader) 40)

malloc_unpatched_example :
    malloc regions_kernel source fixed_point bump 3 3 40 (process start fresh_loader) ≡ (
      let r = bump.malloc 40 after_lookups.tracker.os in
      done r.0 (record (passed regions_kernel source fixed_point bump 3 after_lookups 40) {
        tracker = record after_lookups.tracker { os = r.1 };
        loader = patched;
      }))
malloc_unpatched_example =
    malloc_unpatched regions_kernel source fixed_point bump 3 (process start fresh_loader) 1 40
      bump-DlsymLaws (omega arith) (omega arith) refl refl refl (omega arith) (omega arith)

-- An allocator with one block above the tracked allocations.
abbrev arena : Host regions_kernel
arena = record bump {
  malloc = λ request s. (2 ^ 46, record s { regions = (2 ^ 46, request) ∷ s.regions });
}

abbrev heap : Regions → ℕ → Bool
heap s x = leb (2 ^ 46) x

arena-HeapLaws : HeapLaws regions_kernel arena heap
arena-HeapLaws = record {
  malloc_keeps = λ request s x ours mapped. (ours, ground arith, refl);
  malloc_block = λ request s i found inside. (ground arith, ground arith);
}

arena-CopyLaws : CopyLaws regions_kernel arena
arena-CopyLaws = record {
  mapped = λ dst src n s x h. refl;
  copied = λ dst src n s i h inside.
      let here : within dst n (dst + i) ≡ true = ground arith in
      let from : dst + i - dst + src ≡ src + i = omega arith in rw (here, from);
  outside = λ dst src n s x h far. rw far;
}

one-Outside : Outside regions_kernel heap one
one-Outside i x live inside = ground (arith, one_low i x live inside)

realloc_to_regular_example :
    Returns
      (Regular regions_kernel regions_laws source fixed_point arena heap arena-HeapLaws
        arena-CopyLaws 3
        (process one patched_loader)
        one-IsValid
        one-Outside
        (2 ^ 30)
        40
        first)
      (realloc regions_kernel source fixed_point arena 3 2 (2 ^ 30) 40 (process one patched_loader))
realloc_to_regular_example =
    realloc_to_regular regions_kernel regions_laws source fixed_point arena heap arena-HeapLaws
      arena-CopyLaws 3 (process one patched_loader) one-IsValid one-Outside 1 (2 ^ 30) 40 first
      (omega arith) (omega arith) refl view-one

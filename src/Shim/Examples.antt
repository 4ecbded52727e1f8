-- ===== src/Shim/Examples.antt =====
-- Runs of the shim over the small kernel with a bump allocator beside it, and the theorems at them.
use poireau.Prelude.{
  ◌%◌, ℕ, ◌+◌, ◌-◌, ◌*◌, ◌^◌, ◌≡◌, refl, true, false, some, ◌∷◌, arith, within, if◌then◌else◌, min,
}
use poireau.Exec.{done}
use poireau.Exec.Returns.{Returns}
use poireau.Kernel.Regions.{Regions, regions_kernel, regions_laws}
use poireau.Probe.{Probe}
use poireau.Sample.{SampleState, xoshiro_step, xoshiro_output}
use poireau.Sample.Draw.{draw}
use poireau.Sample.Reset.{redraw, threshold, at_threshold}
use poireau.Sample.Examples.{source, fixed_point, seeded, seeded-IsSeeded}
use poireau.TrackedAlloc.{Tracker}
use poireau.TrackedAlloc.Examples.{
  start, start-IsValid, one, one-IsValid, first, view-one, one_counter,
}
use poireau.Shim.{Host, Target, Loader, Process, malloc, calloc, realloc, safe_copy}
use poireau.Shim.Init.{DlsymLaws}
use poireau.Shim.Copy.{ReadLaw, OnlyMemory, safe_copy-Returns}
use poireau.Shim.Contents.{CopyLaws, Reallocates}
use poireau.Shim.Realloc.{realloc_tracked}
use poireau.Shim.Malloc.{Traced, malloc_sampled, calloc_overflow}

-- Memory after a copy of `n` bytes.
abbrev pub copied : (dst src n : ℕ) → Regions → Regions
copied dst src n s = record s {
  contents = λ x. if within dst n x then s.contents (x - dst + src) else s.contents x;
}

-- A bump allocator; a lookup takes 4 bytes of it, which the sampler counts.
abbrev pub bump : Host regions_kernel
bump = record {
  dlsym = λ e f p.
      let left = p.sampler.state.bytes_until_next_sample in
      (
        true,
        record p {
          tracker = record p.tracker { os = record p.tracker.os { next = p.tracker.os.next + 4 } };
          sampler = record p.sampler {
            state = record p.sampler.state { bytes_until_next_sample = left - 4 };
          };
        },
      );
  free = λ ptr s. s;
  realloc =
      λ ptr request s. (s.next, copied s.next ptr request (record s { next = s.next + request }));
  malloc = λ request s. (s.next, record s { next = s.next + request });
  calloc = λ num size s. (s.next, record s { next = s.next + num * size });
  malloc_usable_size = λ ptr s. 16;
  memcpy = copied;
  process_vm_readv =
      λ dst src n s. let m = min n (4096 - src % 4096) in (some m, copied dst src m s);
}

abbrev pub fresh_loader : Loader
fresh_loader = record {
  is_done = false;
  is_started = false;
  base_free = Target.dummy;
  base_realloc = Target.dummy;
  base_malloc = Target.dummy;
  base_calloc = Target.dummy;
}

abbrev pub patched_loader : Loader
patched_loader = record {
  is_done = true;
  is_started = true;
  base_free = Target.real;
  base_realloc = Target.real;
  base_malloc = Target.real;
  base_calloc = Target.real;
}

-- A process with the next sample 100 bytes away.
abbrev pub process : Tracker regions_kernel → Loader → Process regions_kernel source
process t l = record { tracker = t; sampler = record { state = seeded; source = true }; loader = l }

pub bump-DlsymLaws : DlsymLaws regions_kernel source bump
bump-DlsymLaws = record { found = λ f p. refl; loader = λ f p h. refl }

-- The sampler's state after the draw of the next threshold, from the threshold `n`.
abbrev pub next_sample : ℕ → SampleState
next_sample n =
    at_threshold source fixed_point (xoshiro_step (at_threshold source fixed_point seeded n))
      (threshold source fixed_point (xoshiro_output seeded))

next_sample_run :
    redraw source fixed_point 3 3 (at_threshold source fixed_point seeded (2 ^ 64 - 4900))
    ≡ some (next_sample (2 ^ 64 - 4900))
unfolding redraw draw threshold xoshiro_output
next_sample_run = refl

no_request_run : redraw source fixed_point 3 3 seeded ≡ some (next_sample 100)
unfolding redraw draw threshold xoshiro_output
no_request_run = refl

calloc_overflow_example :
    calloc regions_kernel source fixed_point bump 3 2
      (2 ^ 40)
      (2 ^ 40)
      (process start patched_loader)
    ≡ done 0 (record (process start patched_loader) {
      tracker = record start { probes = Probe.calloc_overflow (2 ^ 40) (2 ^ 40) ∷ start.probes };
      sampler = record { state = next_sample 100; source = true };
    })
calloc_overflow_example =
    calloc_overflow regions_kernel source fixed_point bump 3 (process start patched_loader) 1
      (2 ^ 40) (2 ^ 40) (next_sample 100) (omega arith) seeded-IsSeeded no_request_run

malloc_sampled_example :
    Returns
      (λ ret q.
        Traced regions_kernel (λ id ret. Probe.malloc id ret 5000) start 5000 ret q.tracker
        × (q.sampler.state ≡ next_sample (2 ^ 64 - 4900)))
      (malloc regions_kernel source fixed_point bump 3 2 5000 (process start patched_loader))
malloc_sampled_example =
    malloc_sampled regions_kernel regions_laws source fixed_point bump 3
      (process start patched_loader) start-IsValid 1 5000 (next_sample (2 ^ 64 - 4900))
      (omega arith) (omega arith) (omega arith) seeded-IsSeeded next_sample_run

bump-CopyLaws : CopyLaws regions_kernel bump
bump-CopyLaws = record {
  mapped = λ dst src n s x h. refl;
  copied = λ dst src n s i h inside.
      let here : within dst n (dst + i) ≡ true = ground arith in
      let from : dst + i - dst + src ≡ src + i = omega arith in rw (here, from);
  outside = λ dst src n s x h far. rw far;
}

next_request_run :
    redraw source fixed_point 3 3 (at_threshold source fixed_point seeded (2 ^ 64 - 8900))
    ≡ some (next_sample (2 ^ 64 - 8900))
unfolding redraw draw threshold xoshiro_output
next_request_run = refl

realloc_tracked_example :
    Returns
      (λ ret q.
        Reallocates regions_kernel (2 ^ 30) ret 9000 first one q.tracker
        × (q.sampler.state ≡ next_sample (2 ^ 64 - 8900)))
      (realloc regions_kernel source fixed_point bump 3 2
        (2 ^ 30)
        9000
        (process one patched_loader))
realloc_tracked_example =
    realloc_tracked regions_kernel regions_laws source fixed_point bump bump-CopyLaws 3
      (process one patched_loader) one-IsValid 1 (2 ^ 30) 9000 first (next_sample (2 ^ 64 - 8900))
      (omega arith) view-one (omega arith) (omega arith) one_counter seeded-IsSeeded
      next_request_run

bump-ReadLaw : ReadLaw regions_kernel bump
bump-ReadLaw dst src n s r same = ground arith

-- A copy of 9000 bytes from the middle of a page.
safe_copy-Returns_example :
    Returns
      (λ _ q. OnlyMemory regions_kernel source fixed_point bump 3 (process one patched_loader) q)
      (safe_copy regions_kernel source fixed_point bump 3 9001
        (2 ^ 31)
        5000
        9000
        (process one patched_loader))
safe_copy-Returns_example =
    safe_copy-Returns regions_kernel source fixed_point bump 3 (2 ^ 31) 5000 9000
      (process one patched_loader) bump-ReadLaw (omega arith)

-- ===== src/Shim/CopyExamples.antt =====
-- A copy of a source that is mapped in part, a `realloc` that copies so, and the theorems at them.
use poireau.Prelude.{
  ℕ, zero, suc, ◌+◌, ◌-◌, ◌^◌, ◌<◌, ◌≡◌, refl, Bool, true, ◌&&◌, some, none, [], ◌∷◌, inl, inr,
  arith, within, if◌then◌else◌, ℕ-cases,
}
use poireau.Exec.Returns.{Returns}
use poireau.Kernel.Regions.{Regions, regions_kernel, regions_laws}
use poireau.Sample.Examples.{source, fixed_point, seeded, seeded-IsSeeded}
use poireau.Sample.{xoshiro_output}
use poireau.Sample.Draw.{draw}
use poireau.Sample.Reset.{redraw, threshold, at_threshold}
use poireau.TrackedAlloc.{Tracker}
use poireau.TrackedAlloc.Invariant.{IsValid}
use poireau.TrackedAlloc.Examples.{start}
use poireau.Shim.{Host, Process, safe_copy, realloc}
use poireau.Shim.MoveIn.{Owns, FreeLaws, IsReadable, Enters}
use poireau.Shim.ToTracked.{realloc_to_tracked}
use poireau.Shim.Copy.{OnlyMemory}
use poireau.Shim.Reading.{ReadLaws, CanRead, Copied}
use poireau.Shim.Prefix.{safe_copy-Copied}
use poireau.Shim.Examples.{copied, bump, process, patched_loader, next_sample}

pub all_mapped : (src n : ℕ) → Regions → Bool
all_mapped src zero s = true
all_mapped src (suc n) s = regions_kernel.mapped s (src + n) && all_mapped src n s

all_mapped_at :
    (src n i : ℕ) (s : Regions)
    → all_mapped src n s ≡ true
    → i < n
    → regions_kernel.mapped s (src + i) ≡ true
unfolding all_mapped
all_mapped_at src zero i s all less = absurd (omega arith)
all_mapped_at src (suc n) i s all less = elim (ℕ-cases i n) [
  | inl last ↦ rw last (ground arith)
  | inr before ↦ all_mapped_at src n i s (ground arith) (omega arith)
]

all_mapped_of_each :
    (src n : ℕ) (s : Regions)
    → ((i : ℕ) → i < n → regions_kernel.mapped s (src + i) ≡ true)
    → all_mapped src n s ≡ true
unfolding all_mapped
all_mapped_of_each src zero s each = refl
all_mapped_of_each src (suc n) s each =
    let rest = all_mapped_of_each src n s (λ i less. each i (omega arith)) in
    let last = each n (omega arith) in rw (last, rest)

-- It reads all or nothing.
abbrev pub reader : Host regions_kernel
reader = record bump {
  process_vm_readv =
      λ dst src n s. if all_mapped src n s then (some n, copied dst src n s) else (none, s);
}

pub reader-ReadLaws : ReadLaws regions_kernel reader
reader-ReadLaws = record {
  whole = λ dst src n s r answer. ground arith;
  reads = λ dst src n s r i answer less. all_mapped_at src n i s (ground arith) less;
  readable = λ dst src n s each room. rw (all_mapped_of_each src n s each);
  copied = λ dst src n s i answer apart less. ground arith;
  outside = λ dst src n s x far. ground arith;
  mapped = λ dst src n s x. ground arith;
}

-- One page of the source is mapped, and two of the destination.
abbrev split : Process regions_kernel source
split =
    process
      (record start {
        os = record {
          regions = (2 ^ 20, 4096) ∷ (2 ^ 30, 8192) ∷ [];
          contents = λ x. x;
          next = 2 ^ 31;
        };
      })
      patched_loader

split-CanRead : CanRead regions_kernel (2 ^ 30) (2 ^ 20) 6000 4096 8192 split.tracker.os
split-CanRead = record {
  dst_below = omega arith;
  src_below = omega arith;
  enough = omega arith;
  page = omega arith;
  prefix = omega arith;
  boundary = inr refl;
  source = λ i less. ground arith;
  writable = λ i less. ground arith;
  disjoint = inr (omega arith, refl);
}

safe_copy-Copied_example :
    Returns
      (λ _ q.
        OnlyMemory regions_kernel source fixed_point reader 3 split q
        × Copied regions_kernel (2 ^ 30) (2 ^ 20) 4096 8192 split.tracker.os q.tracker.os)
      (safe_copy regions_kernel source fixed_point reader 3 6001 (2 ^ 30) (2 ^ 20) 6000 split)
safe_copy-Copied_example =
    safe_copy-Copied regions_kernel source fixed_point reader reader-ReadLaws 3 (2 ^ 30) (2 ^ 20)
      6000 4096 8192 split split-CanRead

-- The underlying allocator has one page, and keeps it.
abbrev heap : ℕ → Bool
heap x = within (2 ^ 20) 4096 x

abbrev small_heap : Tracker regions_kernel
small_heap = record start {
  os = record { regions = (2 ^ 20, 4096) ∷ []; contents = λ x. x; next = 2 ^ 21 };
}

small_heap-IsValid : IsValid regions_kernel small_heap
small_heap-IsValid = grind arith

small_heap-Owns : Owns regions_kernel heap small_heap
small_heap-Owns = record {
  mapped = λ x inside. ground arith;
  untracked = λ q i info tracked inside. ground arith;
}

reader-FreeLaws : FreeLaws regions_kernel reader heap
reader-FreeLaws = record { mapped = λ ptr s x theirs. refl; byte = λ ptr s x theirs. refl }

small_heap-IsReadable : IsReadable regions_kernel (2 ^ 20) 6000 4096 small_heap
small_heap-IsReadable = record {
  some_bytes = omega arith;
  within_request = omega arith;
  boundary = inr refl;
  source = λ i less. ground arith;
}

copied_request_run :
    redraw source fixed_point 3 3 (at_threshold source fixed_point seeded (2 ^ 64 - 5900))
    ≡ some (next_sample (2 ^ 64 - 5900))
unfolding redraw draw threshold xoshiro_output
copied_request_run = refl

realloc_to_tracked_example :
    Returns
      (λ ret q.
        Enters regions_kernel (2 ^ 20) 6000 4096 ret small_heap q.tracker
        × (q.sampler.state ≡ next_sample (2 ^ 64 - 5900)))
      (realloc regions_kernel source fixed_point reader 3 2
        (2 ^ 20)
        6000
        (process small_heap patched_loader))
realloc_to_tracked_example =
    realloc_to_tracked regions_kernel regions_laws source fixed_point reader heap reader-ReadLaws
      reader-FreeLaws 3 1 (2 ^ 20) 6000 4096 (next_sample (2 ^ 64 - 5900))
      (process small_heap patched_loader) small_heap-IsValid small_heap-Owns (omega arith)
      (omega arith) (omega arith) (omega arith) refl small_heap-IsReadable (omega arith) refl
      seeded-IsSeeded copied_request_run

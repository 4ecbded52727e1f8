-- ===== src/TrackedAlloc/Examples.antt =====
-- Runs of the allocator over the small kernel, and the theorems at them.
use poireau.Prelude.{
  ℕ, ◌<◌, ◌≢◌, within, ◌+◌, ◌^◌, ◌≡◌, refl, true, false, none, some, [], ◌∷◌, arith,
}
use poireau.Exec.{Failure, Outcome, done, failed}
use poireau.Exec.Returns.{Returns, at_done}
use poireau.Kernel.Regions.{regions_kernel, regions_laws}
use poireau.TrackedAlloc.{
  Tracker, TrackedAllocInfo, round_to_page, tracked_alloc_get, tracked_alloc_put,
  tracked_alloc_resize, tracked_alloc_p, publish, munmap_checked, aligned_mmap,
}
use poireau.TrackedAlloc.Pages.{pages}
use poireau.TrackedAlloc.Invariant.{footprint, view, IsValid}
use poireau.TrackedAlloc.Get.{Answer, tracked_alloc_get-IsValid}
use poireau.TrackedAlloc.Put.{Puts, tracked_alloc_put-Puts, tracked_alloc_put_invalid}
use poireau.TrackedAlloc.Lookup.{tracked_alloc_p-view}
use poireau.TrackedAlloc.Resize.{Resizes, tracked_alloc_resize-Resizes}
use poireau.TrackedAlloc.RoundTrip.{SameAllocations, get_and_put, tracked_alloc_get-put}
use poireau.TrackedAlloc.Empty.{tracked_alloc_resize_zero-put}

abbrev pub start : Tracker regions_kernel
start = record {
  os = record { regions = []; contents = λ x. 0; next = 2 ^ 20 };
  alloc_id_counter = 1;
  tracked_alloc_table = λ i. 0;
  info_table = λ i. record { id = 0; size = 0 };
  probes = [];
}

pub start-IsValid : IsValid regions_kernel start
start-IsValid = grind arith

-- The state that a run leaves.
abbrev pub left_by : {A : Type 0} → Outcome (Tracker regions_kernel) A → Tracker regions_kernel
left_by (done a s) = s
left_by (failed e) = start

abbrev pub one : Tracker regions_kernel
one = left_by (tracked_alloc_get regions_kernel 5000 start)

one_run : tracked_alloc_get regions_kernel 5000 start ≡ done (2 ^ 30, 1) one
unfolding tracked_alloc_get publish aligned_mmap round_to_page munmap_checked
one_run = refl

tracked_alloc_get-IsValid_example :
    Returns (Answer regions_kernel start 5000) (tracked_alloc_get regions_kernel 5000 start)
tracked_alloc_get-IsValid_example =
    tracked_alloc_get-IsValid regions_kernel regions_laws 5000 start start-IsValid (omega arith)
      (omega arith)

pub one-IsValid : IsValid regions_kernel one
one-IsValid =
    (at_done
      (tracked_alloc_get-IsValid regions_kernel regions_laws 5000 start start-IsValid (omega arith)
        (omega arith))
      one_run).0

-- The allocation of `one`.
abbrev pub first : TrackedAllocInfo
first = record { id = 1; size = 5000 }

pub view-one : view regions_kernel one (2 ^ 30) ≡ some first
unfolding tracked_alloc_get publish aligned_mmap round_to_page munmap_checked
view-one = refl

pub one_counter : one.alloc_id_counter + 1 < 2 ^ 64
unfolding tracked_alloc_get publish aligned_mmap round_to_page munmap_checked
one_counter = omega arith

pub view-one_other : view regions_kernel one (2 ^ 31) ≡ none
unfolding tracked_alloc_get publish aligned_mmap round_to_page munmap_checked
view-one_other = refl

pub one_low :
    (i x : ℕ)
    → one.tracked_alloc_table i ≢ 0
    → within (one.tracked_alloc_table i) (footprint regions_kernel one i) x ≡ true
    → x < 2 ^ 46
unfolding tracked_alloc_get publish aligned_mmap round_to_page munmap_checked
one_low i x live inside = ground arith

-- The same beside three pages at 2 ^ 40 that someone else has mapped.
abbrev pub beside : Tracker regions_kernel
beside = record start {
  os = record { regions = (2 ^ 40, 12288) ∷ []; contents = λ x. 0; next = 2 ^ 20 };
}

pub beside-IsValid : IsValid regions_kernel beside
beside-IsValid = grind arith

abbrev pub beside_one : Tracker regions_kernel
beside_one = left_by (tracked_alloc_get regions_kernel 5000 beside)

beside_run : tracked_alloc_get regions_kernel 5000 beside ≡ done (2 ^ 30, 1) beside_one
unfolding tracked_alloc_get publish aligned_mmap round_to_page munmap_checked
beside_run = refl

pub beside_one-IsValid : IsValid regions_kernel beside_one
beside_one-IsValid =
    (at_done
      (tracked_alloc_get-IsValid regions_kernel regions_laws 5000 beside beside-IsValid
        (omega arith) (omega arith))
      beside_run).0

pub view-beside_one : view regions_kernel beside_one (2 ^ 30) ≡ some first
unfolding tracked_alloc_get publish aligned_mmap round_to_page munmap_checked
view-beside_one = refl

pub beside_counter : beside_one.alloc_id_counter + 1 < 2 ^ 64
unfolding tracked_alloc_get publish aligned_mmap round_to_page munmap_checked
beside_counter = omega arith

pub beside_mapped :
    (x : ℕ) → within (2 ^ 40) 12288 x ≡ true → regions_kernel.mapped beside_one.os x ≡ true
unfolding tracked_alloc_get publish aligned_mmap round_to_page munmap_checked
beside_mapped x inside = ground arith

pub beside_empty : (x : ℕ) → beside_one.os.contents x ≡ 0
unfolding tracked_alloc_get publish aligned_mmap round_to_page munmap_checked
beside_empty x = ground arith

pub beside_apart :
    (q i : ℕ) (info : TrackedAllocInfo)
    → view regions_kernel beside_one q ≡ some info
    → i < pages info.size
    → within (2 ^ 40) 12288 (q + i) ≡ false
unfolding tracked_alloc_get publish aligned_mmap round_to_page munmap_checked
beside_apart q i info tracked inside = ground arith

tracked_alloc_put-Puts_example :
    Returns
      (λ _ u. IsValid regions_kernel u × Puts regions_kernel (2 ^ 30) first one u)
      (tracked_alloc_put regions_kernel (2 ^ 30) one)
tracked_alloc_put-Puts_example =
    tracked_alloc_put-Puts regions_kernel regions_laws one (2 ^ 30) first one-IsValid view-one

tracked_alloc_put_invalid_example :
    tracked_alloc_put regions_kernel (2 ^ 30) start ≡ failed Failure.assertion
tracked_alloc_put_invalid_example =
    tracked_alloc_put_invalid regions_kernel start (2 ^ 30) start-IsValid (omega arith) refl

tracked_alloc_p-view_example : tracked_alloc_p regions_kernel (2 ^ 30) one ≡ done true one
unfolding tracked_alloc_get publish aligned_mmap round_to_page munmap_checked
tracked_alloc_p-view_example =
    tracked_alloc_p-view regions_kernel one (2 ^ 30) one-IsValid (omega arith)

tracked_alloc_resize-Resizes_example :
    Returns
      (λ r u. IsValid regions_kernel u × Resizes regions_kernel (2 ^ 30) first 100 r one u)
      (tracked_alloc_resize regions_kernel (2 ^ 30) 100 one)
tracked_alloc_resize-Resizes_example =
    tracked_alloc_resize-Resizes regions_kernel regions_laws one (2 ^ 30) first 100 one-IsValid
      view-one (omega arith) (omega arith)

tracked_alloc_resize_zero-put_example :
    Returns
      (λ r u. (r ≡ true) × (tracked_alloc_put regions_kernel (2 ^ 30) u ≡ failed Failure.assertion))
      (tracked_alloc_resize regions_kernel (2 ^ 30) 0 one)
tracked_alloc_resize_zero-put_example =
    tracked_alloc_resize_zero-put regions_kernel regions_laws one (2 ^ 30) first one-IsValid
      view-one

tracked_alloc_get-put_example :
    Returns
      (λ _ w. IsValid regions_kernel w × SameAllocations regions_kernel start w)
      (get_and_put regions_kernel 5000 start)
tracked_alloc_get-put_example =
    tracked_alloc_get-put regions_kernel regions_laws 5000 start start-IsValid (omega arith)
      (omega arith)

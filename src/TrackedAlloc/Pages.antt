-- ===== src/TrackedAlloc/Pages.antt =====
-- Rounding of sizes and ends to whole pages, as arithmetic.
use poireau.Prelude.{
  ℕ, ◌+◌, ◌*◌, ◌/◌, ◌%◌, ◌^◌, ◌≤◌, ◌<◌, ◌≤◌, ◌≡◌, ◌≢◌, ◌==◌, ltb, Bool-cases, inl, inr, arith,
}
use poireau.Word.{add64, sub64}
use poireau.Word.Align.{page_down}
use poireau.TrackedAlloc.{round_to_page, page_end, page_size}

-- The bytes of the pages that `size` bytes need.
abbrev pub pages : ℕ → ℕ
pages size = (size + 4095) / 4096 * 4096

pub round_to_page-eq-pages : (size : ℕ) → size < 2 ^ 63 → round_to_page size ≡ pages size
unfolding round_to_page
round_to_page-eq-pages size h =
    omega (arith, page_down (sub64 (add64 size page_size) 1) (omega arith))

pub page_end-eq-pages :
    (begin size : ℕ)
    → begin % 4096 ≡ 0
    → begin < 2 ^ 62
    → size < 2 ^ 63
    → page_end begin size ≡ begin + pages size
unfolding page_end
page_end-eq-pages begin size a b h =
    omega (arith, page_down (sub64 (add64 (add64 begin size) page_size) 1) (omega arith))

-- A request of 2 ^ 63 bytes or more, for which the sum may wrap, ends elsewhere too.
page_end_huge :
    (begin size request : ℕ)
    → begin % 4096 ≡ 0
    → 0 < size
    → begin + pages size ≤ 2 ^ 47
    → 2 ^ 63 ≤ request
    → request < 2 ^ 64
    → page_end begin request ≢ begin + pages size
unfolding page_end
page_end_huge begin size request a b c d e =
    omega (arith, page_down (sub64 (add64 (add64 begin request) page_size) 1) (omega arith))

-- The ends of two sizes agree exactly if they need as many pages, wrapping sums included.
pub page_end_test :
    (begin size request : ℕ)
    → begin % 4096 ≡ 0
    → 0 < size
    → begin + pages size ≤ 2 ^ 47
    → request < 2 ^ 64
    → (page_end begin size == page_end begin request) ≡ (pages size == pages request)
page_end_test begin size request a b c d = elim (Bool-cases (ltb request (2 ^ 63))) [
  | inl small ↦ ground (
    arith,
    page_end-eq-pages begin size a (omega arith) (omega arith),
    page_end-eq-pages begin request a (omega arith) (ground arith),
  )
  | inr huge ↦ ground (
    arith,
    page_end-eq-pages begin size a (omega arith) (omega arith),
    page_end_huge begin size request a b c (ground arith) d,
  )
]

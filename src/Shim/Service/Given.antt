-- ===== src/Shim/Service/Given.antt =====
-- What the two allocators answered, as an answer of the entry point.
use poireau.Prelude.{
  ℕ, ◌+◌, ◌<◌, ◌≡◌, inl, inr, true, false, none, some, arith, ℕ-cases, Option-cases,
}
use poireau.Kernel.{Kernel}
use poireau.TrackedAlloc.{Tracker, TrackedAllocInfo}
use poireau.TrackedAlloc.Get.{Answer, Gets}
use poireau.TrackedAlloc.Invariant.{view}
use poireau.TrackedAlloc.Lookup.{view-IsLive}
use poireau.TrackedAlloc.Put.{live_sized}
use poireau.Shim.Service.{Bookkeeping, Owned, Ledger, Sound, Since, Answers, Keeps, Given}
use poireau.Shim.Service.Tracked.{refuse-Since, get-Since}

module _ (k : Kernel) (own : Bookkeeping k) (ptr : ℕ) (l l1 : Ledger) (t u : Tracker k)
    (since : Since k own ptr l t l1 u) where
  -- What is new was not_held.
  pub not_held :
      (ret : ℕ)
      → view k u ret ≡ none
      → (info : TrackedAllocInfo) → view k t ret ≡ some info
      → ret ≡ ptr
  not_held ret unused info tracked = elim (ℕ-cases ret ptr) [
    | inl same ↦ same
    | inr other ↦ let here = since.keeps.entry ret info tracked other in absurd (cc)
  ]

  no_block :
      (ret id request : ℕ) (w : Tracker k)
      → 0 < request
      → Gets k request ret id u w
      → l.block ret ≡ true
      → ret ≡ ptr
  no_block ret id request w pos gets given = elim (ℕ-cases ret ptr) [
    | inl same ↦ same
    | inr other ↦
        let theirs = since.sound.block_in_heap ret (since.blocks ret other given) in
        let mapped = since.sound.owned.mapped ret theirs in
        absurd (ground (arith, gets.fresh.free ret))
  ]

  -- What `tracked_alloc_get` answered.
  pub fresh-Since :
      (ret id request : ℕ) (w : Tracker k)
      → 0 < request
      → Answer k u request (ret, id) w
      → Since k own ptr l t l1 w × Given k own ptr ret request l t l1 w
  fresh-Since ret id request w pos (valid, inl refused) =
      (refuse-Since k own ptr l l1 t u w since valid refused, inl refused.null)
  fresh-Since ret id request w pos (valid, inr gets) = (
    get-Since k own ptr l l1 t u w since valid gets,
    inr (
      gets.not_null,
      (
        no_block ret id request w pos gets,
        not_held ret gets.unused,
        inl (id, ground (arith, gets.view_after ret)),
      ),
    ),
  )

module _ {k : Kernel} {own : Bookkeeping k} {l : Ledger} {t : Tracker k}
    (sound : Sound k own l t) where
  -- The underlying allocator may be called.
  pub all-Owned : Owned k own l t.os
  all-Owned = (
    sound.booked,
    sound.owned.mapped,
    λ q given. (let low = sound.block_low q given in (sound.block_in_heap q given, low.0, low.1)),
    sound.lent_in_heap,
  )

  -- A block is no tracked allocation.
  pub block_untracked : (q : ℕ) → l.block q ≡ true → view k t q ≡ none
  block_untracked q given = elim (Option-cases (view k t q)) [
    | inl free ↦ free
    | inr (info, tracked) ↦
        let here : q + 0 ≡ q = omega arith in
        let sized = live_sized k t sound.valid q info (view-IsLive k t q info tracked) in
        let ours : l.heap q ≡ false =
          rw here at (sound.owned.untracked q 0 info tracked (omega arith)) in
        let theirs = sound.block_in_heap q given in absurd (cc)
  ]

-- What the underlying allocator answered.
pub answers-Given :
    (k : Kernel) (own : Bookkeeping k) (ptr ret request : ℕ) (l l' : Ledger) (t u : Tracker k)
    → Sound k own l' u
    → Keeps k own ptr t u
    → Answers k own ptr ret request l l'
    → Given k own ptr ret request l t l' u
answers-Given k own ptr ret request l l' t u sound keeps answers = elim (ℕ-cases ret 0) [
  | inl null ↦ inl null
  | inr found ↦
      let given : l'.block ret ≡ true = elim answers.block [
        | inl null ↦ absurd (found null)
        | inr given ↦ given
      ] in
      inr (
        omega arith,
        (
          λ old. elim (answers.fresh old) [ inl null ↦ absurd (found null) | inr same ↦ same ],
          λ info tracked. elim (ℕ-cases ret ptr) [
            | inl same ↦ same
            | inr other ↦
                let here = keeps.entry ret info tracked other in
                let none_there = block_untracked sound ret given in absurd (cc)
          ],
          inr (given, answers.room found),
        ),
      )
]

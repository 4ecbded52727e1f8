-- ===== src/TrackedAlloc/RoundTrip.antt =====
-- `tracked_alloc_get` and then `tracked_alloc_put`.
use poireau.Prelude.{ℕ, ◌+◌, ◌^◌, ◌<◌, ◌≡◌, inl, inr, ◌∙◌, true, false, arith, ◌==◌, if◌then◌else◌}
use poireau.Exec.{pure, ◌>>=◌}
use poireau.Exec.Returns
use poireau.Exec.Returns.{Returns, normally}
use poireau.Kernel.{Kernel, KernelLaws}
use poireau.TrackedAlloc.{Tracker, Track, tracked_alloc_get, tracked_alloc_put}
use poireau.TrackedAlloc.Invariant.{view, IsValid}
use poireau.TrackedAlloc.Get.{allocation, Gets, tracked_alloc_get-IsValid}
use poireau.TrackedAlloc.Put.{Puts, tracked_alloc_put-Puts}

module _ (k : Kernel) where
  -- As before, but for an identifier that is used up.
  pub record SameAllocations (before after : Tracker k) : Type 0 where
    pub counter : after.alloc_id_counter ≡ before.alloc_id_counter + 1
    pub view_after : (q : ℕ) → view k after q ≡ view k before q
    pub mapped : (x : ℕ) → k.mapped after.os x ≡ k.mapped before.os x
    pub byte : (x : ℕ) → k.mapped before.os x ≡ true → k.byte after.os x ≡ k.byte before.os x

  abbrev pub get_and_put : ℕ → Track k (Unit {0})
  get_and_put request = do
    (ptr, id) ← tracked_alloc_get k request
    if ptr == 0 then pure tt else tracked_alloc_put k ptr

  put_back :
      (t u w : Tracker k) (request p id : ℕ)
      → Gets k request p id t u
      → Puts k p (allocation k id request) u w
      → SameAllocations t w
  put_back t u w request p id g put = record {
    counter = put.counter ∙ g.counter;
    view_after = λ q. ground (arith, put.view_after q, g.view_after q, g.unused);
    mapped = λ x. ground (arith, put.gone.mapped x, g.fresh.mapped x, g.fresh.free x);
    byte = λ x before.
        let kept : k.mapped w.os x ≡ true =
          ground (arith, put.gone.mapped x, g.fresh.mapped x, g.fresh.free x) in
        put.gone.byte x kept ∙ g.fresh.byte x before;
  }

module _ (k : Kernel) (laws : KernelLaws k) where
  -- From a valid tracker whose counter is not at its end, `tracked_alloc_get` of at least one
  -- byte, and then `tracked_alloc_put` of its answer unless that is NULL, return to a valid
  -- tracker with the live allocations, the mapped addresses and their bytes as before; the
  -- identifier is used up.
  pub tracked_alloc_get-put :
      (request : ℕ) (t : Tracker k)
      → IsValid k t
      → 0 < request
      → t.alloc_id_counter + 1 < 2 ^ 64
      → Returns (λ _ w. IsValid k w × SameAllocations k t w) (get_and_put k request t)
  tracked_alloc_get-put request t v pos room =
      Returns.bind (tracked_alloc_get-IsValid k laws request t v pos room)
        λ (p, id) u (valid, answer). elim answer [
          | inl refuses ↦
              let null : (p == 0) ≡ true = ground (arith, refuses.null) in
              rw null (
                normally (
                  valid,
                  record {
                    counter = refuses.counter;
                    view_after = refuses.view_after;
                    mapped = refuses.memory.mapped;
                    byte = λ x before. refuses.memory.byte x;
                  },
                ))
          | inr gets ↦
              let found : (p == 0) ≡ false = ground (arith, gets.not_null) in
              rw found (
                Returns.weaken
                  (tracked_alloc_put-Puts k laws u p (allocation k id request) valid
                    (ground (arith, gets.view_after p)))
                  λ _ w (valid_w, put). (valid_w, put_back k t u w request p id gets put))
        ]

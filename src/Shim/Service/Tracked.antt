-- ===== src/Shim/Service/Tracked.antt =====
-- The operations of the tracking allocator, as parts of a call.
use poireau.Prelude.{
  ℕ, ◌+◌, ◌-◌, ◌≤◌, ◌<◌, ◌≡◌, ◌≢◌, ◌∙◌, inl, inr, Bool, true, false, some, arith, ◌==◌, ◌&&◌,
  within, Bool-cases, ℕ-cases,
}
use poireau.Kernel.{Kernel}
use poireau.TrackedAlloc.{Tracker, TrackedAllocInfo}
use poireau.TrackedAlloc.Pages.{pages}
use poireau.TrackedAlloc.Invariant.{view, IsValid}
use poireau.TrackedAlloc.Get.{allocation, Gets, Refuses}
use poireau.TrackedAlloc.Put.{Puts}
use poireau.TrackedAlloc.Resize.{Resizes}
use poireau.Shim.Contents.{live_mapped}
use poireau.Shim.Service.{Bookkeeping, Ledger, Keeps, Since}
use poireau.Shim.Service.Steps.{Apart}

module _ (k : Kernel) (own : Bookkeeping k) (ptr : ℕ) (l l1 : Ledger) (t u w : Tracker k)
    (since : Since k own ptr l t l1 u) (valid_w : IsValid k w) where
  open since use {sound, keeps, blocks}

  -- `tracked_alloc_get` gave out nothing.
  pub refuse-Since : {ret id : ℕ} → Refuses k ret id u w → Since k own ptr l t l1 w
  refuse-Since refused = record {
    sound = record {
      valid = valid_w;
      owned = record {
        mapped = λ x mine. refused.memory.mapped x ∙ sound.owned.mapped x mine;
        untracked = λ q i info tracked inside.
            sound.owned.untracked q i info (ground (arith, refused.view_after q)) inside;
      };
      block_in_heap = sound.block_in_heap;
      block_low = sound.block_low;
      lent_in_heap = sound.lent_in_heap;
      booked =
          own.frame l1 u.os w.os sound.booked (λ x mine. refused.memory.mapped x)
            (λ x mine kept. refused.memory.byte x);
    };
    keeps = record {
      entry = λ q info tracked differ. refused.view_after q ∙ keeps.entry q info tracked differ;
      bytes = λ q i info tracked differ inside.
          refused.memory.byte (q + i) ∙ keeps.bytes q i info tracked differ inside;
    };
    blocks = blocks;
  }

  module _ {ret id request : ℕ} (g : Gets k request ret id u w) where
    -- The chunk has no byte that was mapped.
    new_untracked : (i : ℕ) → i < pages request → l1.heap (ret + i) ≡ false
    new_untracked i inside = ground (arith, sound.owned.mapped (ret + i), g.fresh.free (ret + i))

    untracked_after :
        (q i : ℕ) (info : TrackedAllocInfo)
        → view k w q ≡ some info
        → i < pages info.size
        → l1.heap (q + i) ≡ false
    untracked_after q i info tracked inside = elim (ℕ-cases ret q) [
      | inl same ↦
          let new : some (allocation k id request) ≡ some info = ground (arith, g.view_after q) in
          let size : request ≡ info.size = ground (arith, new) in
          rw (← same) (new_untracked i (ground arith))
      | inr other ↦ sound.owned.untracked q i info (ground (arith, g.view_after q)) inside
    ]

    -- `tracked_alloc_get` gave out `ret`.
    pub get-Since : Since k own ptr l t l1 w
    get-Since = record {
      sound = record {
        valid = valid_w;
        owned = record {
          mapped = λ x mine. ground (arith, g.fresh.mapped x, sound.owned.mapped x);
          untracked = untracked_after;
        };
        block_in_heap = sound.block_in_heap;
        block_low = sound.block_low;
        lent_in_heap = sound.lent_in_heap;
        booked =
            own.frame l1 u.os w.os sound.booked
              (λ x mine.
                ground (arith, g.fresh.mapped x, g.fresh.free x, sound.owned.mapped x mine))
              (λ x mine kept. g.fresh.byte x (sound.owned.mapped x mine));
      };
      keeps = record {
        entry = λ q info tracked differ.
            ground (arith, g.view_after q, g.unused, keeps.entry q info tracked differ);
        bytes = λ q i info tracked differ inside.
            g.fresh.byte (q + i)
              (live_mapped k u q info i sound.valid (keeps.entry q info tracked differ) inside)
            ∙ keeps.bytes q i info tracked differ inside;
      };
      blocks = blocks;
    }

    pub get-Apart : (n : ℕ) → n ≤ pages request → Apart k own ptr l l1 t u since ret n
    get-Apart n small q i info tracked differ inside =
        let live =
          live_mapped k u q info i sound.valid (keeps.entry q info tracked differ) inside in
        ground (arith, g.fresh.free (q + i))

  -- What is still tracked of other allocations is still mapped.
  kept_byte :
      ((q : ℕ) → q ≢ ptr → view k w q ≡ view k u q)
      → ((x : ℕ) → k.mapped w.os x ≡ true → k.byte w.os x ≡ k.byte u.os x)
      → Keeps k own ptr t w
  kept_byte same_view same_byte = record {
    entry = λ q info tracked differ. same_view q differ ∙ keeps.entry q info tracked differ;
    bytes = λ q i info tracked differ inside.
        let here = same_view q differ ∙ keeps.entry q info tracked differ in
        same_byte (q + i) (live_mapped k w q info i valid_w here inside)
        ∙ keeps.bytes q i info tracked differ inside;
  }

  module _ (info : TrackedAllocInfo) (tracked : view k u ptr ≡ some info) where
    theirs_apart : (x : ℕ) → l1.heap x ≡ true → within ptr (pages info.size) x ≡ false
    theirs_apart x theirs = elim (Bool-cases (within ptr (pages info.size) x)) [
      | inr free ↦ free
      | inl inside ↦
          let at : ptr + (x - ptr) ≡ x = ground arith in
          let ours : l1.heap x ≡ false =
            rw at at (sound.owned.untracked ptr (x - ptr) info tracked (ground arith)) in
          absurd (ground arith)
    ]

    -- `tracked_alloc_put` of `ptr`.
    pub put-Since : Puts k ptr info u w → Since k own ptr l t l1 w
    put-Since put = record {
      sound = record {
        valid = valid_w;
        owned = record {
          mapped = λ x mine.
              ground (arith, put.gone.mapped x, theirs_apart x mine, sound.owned.mapped x mine);
          untracked = λ q i info' live inside.
              sound.owned.untracked q i info' (ground (arith, put.view_after q)) inside;
        };
        block_in_heap = sound.block_in_heap;
        block_low = sound.block_low;
        lent_in_heap = sound.lent_in_heap;
        booked =
            own.frame l1 u.os w.os sound.booked
              (λ x mine. ground (arith, put.gone.mapped x, theirs_apart x mine))
              (λ x mine kept. put.gone.byte x (
                ground (arith, put.gone.mapped x, theirs_apart x mine, sound.owned.mapped x mine)));
      };
      keeps = kept_byte (λ q differ. ground (arith, put.view_after q)) put.gone.byte;
      blocks = blocks;
    }

    -- What was resized is no larger than before.
    resized_untracked :
        (request : ℕ) (r : Bool)
        → Resizes k ptr info request r u w
        → (q i : ℕ) (info' : TrackedAllocInfo) → view k w q ≡ some info'
        → i < pages info'.size
        → l1.heap (q + i) ≡ false
    resized_untracked request r resized q i info' live inside = elim (Bool-cases (r && ptr == q)) [
      | inr other ↦ sound.owned.untracked q i info' (ground (arith, resized.view_after q)) inside
      | inl here ↦
          let smaller : pages request ≤ pages info.size = ground (arith, resized.answer) in
          let new : some (allocation k info.id request) ≡ some info' =
            ground (arith, resized.view_after q) in
          let size : request ≡ info'.size = ground (arith, new) in
          let same : ptr ≡ q = ground arith in
          rw (← same) (sound.owned.untracked ptr i info tracked (ground arith))
    ]

    -- `tracked_alloc_resize` of `ptr`.
    pub resize-Since :
        (request : ℕ) (r : Bool) → Resizes k ptr info request r u w → Since k own ptr l t l1 w
    resize-Since request r resized = record {
      sound = record {
        valid = valid_w;
        owned = record {
          mapped = λ x mine.
              ground
                (arith, resized.memory.mapped x, theirs_apart x mine, sound.owned.mapped x mine);
          untracked = resized_untracked request r resized;
        };
        block_in_heap = sound.block_in_heap;
        block_low = sound.block_low;
        lent_in_heap = sound.lent_in_heap;
        booked =
            own.frame l1 u.os w.os sound.booked
              (λ x mine. ground (arith, resized.memory.mapped x, theirs_apart x mine))
              (λ x mine kept. resized.memory.byte x (
                ground (
                  arith,
                  resized.memory.mapped x,
                  theirs_apart x mine,
                  sound.owned.mapped x mine,
                )));
      };
      keeps = kept_byte (λ q differ. ground (arith, resized.view_after q)) resized.memory.byte;
      blocks = blocks;
    }

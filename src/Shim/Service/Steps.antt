-- ===== src/Shim/Service/Steps.antt =====
-- The parts of a call, one after the other: each keeps the tracker sound and the other allocations
-- as they were.
use poireau.Prelude.{ℕ, ◌+◌, ◌-◌, ◌<◌, ◌≡◌, ◌≢◌, ◌∙◌, true, false, some, List, refl, arith, within}
use poireau.Kernel.{Kernel}
use poireau.Probe.{Probe}
use poireau.TrackedAlloc.{Tracker, TrackedAllocInfo}
use poireau.TrackedAlloc.Pages.{pages}
use poireau.TrackedAlloc.Invariant.{slot, view, footprint, IsValid}
use poireau.Shim.Contents.{live_mapped}
use poireau.Shim.Release.{kept-IsValid}
use poireau.Shim.Service.{Bookkeeping, Ledger, Sound, Changes, Since}

module _ (k : Kernel) (own : Bookkeeping k) where
  pub Since-refl :
      (ptr : ℕ) (l : Ledger) (t : Tracker k) → Sound k own l t → Since k own ptr l t l t
  Since-refl ptr l t sound = record {
    sound = sound;
    keeps = record { entry = λ q info e differ. e; bytes = λ q i info e differ inside. refl };
    blocks = λ q differ given. given;
  }

  -- The bytes of a live slot, as bytes of the allocation that starts there.
  pub slot_byte :
      (t : Tracker k) (i x : ℕ)
      → IsValid k t
      → t.tracked_alloc_table i ≢ 0
      → within (t.tracked_alloc_table i) (footprint k t i) x ≡ true
      → (q j : ℕ) × (view k t q ≡ some (t.info_table i)) × (j < footprint k t i) × (q + j ≡ x)
  slot_byte t i x v live inside =
      let q = t.tracked_alloc_table i in
      let at_slot : slot q ≡ i = omega (arith, v.entry i live) in
      (q, x - q, rw at_slot (ground arith), ground arith, ground arith)

module _ (k : Kernel) (own : Bookkeeping k) (ptr : ℕ) (l l1 : Ledger) (t u : Tracker k)
    (since : Since k own ptr l t l1 u) where
  open since use {sound, keeps, blocks}

  -- No tracked byte belongs to the underlying allocator.
  slot_untracked :
      (i x : ℕ)
      → u.tracked_alloc_table i ≢ 0
      → within (u.tracked_alloc_table i) (footprint k u i) x ≡ true
      → l1.heap x ≡ false
  slot_untracked i x live inside =
      let (q, j, tracked, small, at) = slot_byte k own u i x sound.valid live inside in
      rw at at (sound.owned.untracked q j (u.info_table i) tracked small)

  -- A call of the underlying allocator.
  pub host-Since :
      (l2 : Ledger) (s : k.State) (probes : List Probe)
      → Changes k own l1 l2 u.os s
      → ((q : ℕ) → q ≢ ptr → l1.block q ≡ true → l2.block q ≡ true)
      → Since k own ptr l t l2 (record u { os = s; probes = probes })
  host-Since l2 s probes changes others = record {
    sound = record {
      valid =
          kept-IsValid k s probes
            (λ i x live inside.
              (changes.kept x (slot_untracked i x live inside)
                (sound.valid.mapped i x live inside)).1)
            sound.valid;
      owned = record {
        mapped = changes.mapped;
        untracked = λ q i info tracked inside.
            (changes.kept (q + i) (sound.owned.untracked q i info tracked inside)
              (live_mapped k u q info i sound.valid tracked inside)).0;
      };
      block_in_heap = changes.block_in_heap;
      block_low = changes.block_low;
      lent_in_heap = changes.lent_in_heap;
      booked = changes.booked;
    };
    keeps = record {
      entry = keeps.entry;
      bytes = λ q i info tracked differ inside.
          let here = keeps.entry q info tracked differ in
          (changes.kept (q + i) (sound.owned.untracked q i info here inside)
            (live_mapped k u q info i sound.valid here inside)).2
          ∙ keeps.bytes q i info tracked differ inside;
    };
    blocks = λ q differ given. others q differ (blocks q differ given);
  }

  -- `[dst, dst + n)` has no byte of another allocation.
  abbrev pub Apart : (dst n : ℕ) → Type 0
  Apart dst n =
      (q i : ℕ) (info : TrackedAllocInfo)
      → view k t q ≡ some info
      → q ≢ ptr
      → i < pages info.size
      → within dst n (q + i) ≡ false

  -- It has no byte of the underlying allocator's own data.
  abbrev pub Clear : (dst n : ℕ) → Type 0
  Clear dst n = (x : ℕ) → l1.heap x ≡ true → l1.lent x ≡ false → within dst n x ≡ false

  -- A write to `[dst, dst + n)`.
  pub write-Since :
      (dst n : ℕ) (s : k.State) (probes : List Probe)
      → Apart dst n
      → Clear dst n
      → ((x : ℕ) → k.mapped s x ≡ k.mapped u.os x)
      → ((x : ℕ) → within dst n x ≡ false → k.byte s x ≡ k.byte u.os x)
      → Since k own ptr l t l1 (record u { os = s; probes = probes })
  write-Since dst n s probes apart clear mapped outside = record {
    sound = record {
      valid =
          kept-IsValid k s probes (λ i x live inside. mapped x ∙ sound.valid.mapped i x live inside)
            sound.valid;
      owned = record {
        mapped = λ x mine. mapped x ∙ sound.owned.mapped x mine;
        untracked = sound.owned.untracked;
      };
      block_in_heap = sound.block_in_heap;
      block_low = sound.block_low;
      lent_in_heap = sound.lent_in_heap;
      booked =
          own.frame l1 u.os s sound.booked (λ x mine. mapped x)
            (λ x mine kept. outside x (clear x mine kept));
    };
    keeps = record {
      entry = keeps.entry;
      bytes = λ q i info tracked differ inside.
          outside (q + i) (apart q i info tracked differ inside)
          ∙ keeps.bytes q i info tracked differ inside;
    };
    blocks = blocks;
  }

  -- A tracepoint.
  pub probe-Since : (probes : List Probe) → Since k own ptr l t l1 (record u { probes = probes })
  probe-Since probes =
      write-Since 0 0 u.os probes (λ q i info tracked differ inside. ground arith)
        (λ x mine kept. ground arith) (λ x. refl) (λ x far. refl)

-- ===== src/Shim/Service/Fresh.antt =====
-- The first call of a thread, whose generator is not seeded yet, as a part of any history of calls.
use poireau.Prelude.{ℕ, suc, ◌+◌, ◌*◌, ◌^◌, ◌<◌, ◌≡◌, ◌⊎◌, true, some, sym, refl}
use mathlib.Core.Path.{subst}
use poireau.Exec.{done}
use poireau.Exec.Ends.{Ends}
use poireau.Kernel.{Kernel, KernelLaws}
use poireau.Sample.{Entropy, Doubles, Sampler, SampleState, all_zero, seed}
use poireau.Sample.Draw.{IsSeeded, draw, draw-IsDrawn}
use poireau.Sample.Reset.{threshold, at_threshold-IsSeeded}
use poireau.Shim.{Host, Process, malloc, calloc, realloc}
use poireau.Shim.Contents.{CopyLaws}
use poireau.Shim.First.{wrapped, started, first_request_again}
use poireau.Shim.Init.{IsReady}
use poireau.Shim.MoveIn.{IsReadable}
use poireau.Shim.Reading.{ReadLaws}
use poireau.Shim.Service.{
  Bookkeeping, Ledger, Sound, HostLaws, Unlucky, IsRegular, IsTracked, IsFit, Serves, Reallocs,
}
use poireau.Shim.Service.Mallocs.{malloc-Serves, calloc-Serves}
use poireau.Shim.Service.Calls.{realloc-Reallocs}

module _ (k : Kernel) (e : Entropy) (d : Doubles) (h : Host k) (rounds : ℕ) (p : Process k e) where
  -- The thread's state is all zero, and the seeding for this request succeeds: it leaves `m`, from
  -- which `b` is drawn.
  pub record IsFresh (request : ℕ) (m : Sampler e) (st : SampleState) (b : ℕ) : Type 0 where
    pub none_left : p.sampler.state.bytes_until_next_sample ≡ 0
    pub zeroed : all_zero p.sampler.state ≡ true
    pub seeds : seed e (suc rounds) (wrapped k e d h rounds p request) ≡ done tt m
    pub seeded : IsSeeded m.state
    pub drawn : draw (suc rounds) m.state ≡ some (b, st)

module _ (k : Kernel) (own : Bookkeeping k) (laws : KernelLaws k) (e : Entropy) (d : Doubles)
    (h : Host k) (hosts : HostLaws k own h) (copy : CopyLaws k h) (read_laws : ReadLaws k h)
    (rounds : ℕ) (l : Ledger) (p : Process k e) where
  -- With the laws of the kernel, of the underlying allocator, of `memcpy` and of
  -- `process_vm_readv`, and with patched pointers, a sound tracker whose counter is not at its
  -- end, and a thread whose state is all zero, if the seeding succeeds and a first number is
  -- drawn, two units of fuel are enough for its first call: `malloc`, `calloc` and `realloc` of
  -- the same number of bytes, at least one and fewer than 2 ^ 64, each end as they do from a
  -- seeded generator, unless there is a seeded generator from which no threshold is found within
  -- the rounds.
  pub fresh-Reallocs :
      (fuel ptr num size b : ℕ) (m : Sampler e) (st : SampleState)
      → Sound k own l p.tracker
      → IsReady p.loader
      → IsFresh k e d h rounds p (num * size) m st b
      → 0 < num * size
      → num * size < 2 ^ 64
      → p.tracker.alloc_id_counter + 1 < 2 ^ 64
      → IsRegular k own l ptr ⊎ IsTracked k own p.tracker ptr
      → (l.block ptr ≡ true → (n : ℕ) × IsReadable k ptr (num * size) n p.tracker)
      → Ends
          (Serves k own e 0 (num * size) l p.tracker)
          (Unlucky e d (suc rounds))
          (malloc k e d h (suc rounds) (suc (suc fuel)) (num * size) p)
        × Ends
            (Serves k own e 0 (num * size) l p.tracker)
            (Unlucky e d (suc rounds))
            (calloc k e d h (suc rounds) (suc (suc fuel)) num size p)
        × Ends
            (Reallocs k own e ptr (num * size) l p.tracker)
            (Unlucky e d (suc rounds))
            (realloc k e d h (suc rounds) (suc (suc fuel)) ptr (num * size) p)
  fresh-Reallocs fuel ptr num size b m st sound ready fresh pos fits room known source =
      let request = num * size in
      let q = started k e d h rounds p m st b in
      let fit : IsFit k own e q = record {
        ready = ready;
        seeded =
            at_threshold-IsSeeded e d st (threshold e d b)
              (draw-IsDrawn (suc rounds) m.state b st fresh.seeded fresh.drawn).seeded;
      } in
      let (mallocs, callocs, reallocs) =
        first_request_again k e d h rounds p (suc fuel) request ptr num size b m st fresh.none_left
          fresh.zeroed fresh.seeds fresh.seeded fresh.drawn refl fits in
      (
        subst (Ends _ _) (sym mallocs)
            (malloc-Serves k own laws e d h hosts (suc rounds) l fuel request q sound fit pos room),
        subst (Ends _ _) (sym callocs) (
            calloc-Serves k own laws e d h hosts (suc rounds) l fuel num size q sound fit pos room),
        subst (Ends _ _) (sym reallocs) (
            realloc-Reallocs k own laws e d h hosts copy read_laws (suc rounds) l fuel ptr request q
              sound fit pos fits room known source),
      )

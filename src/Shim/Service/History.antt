-- ===== src/Shim/Service/History.antt =====
-- A program and the shim: any sequence of calls, in which the program passes only what it has.
use poireau.Prelude.{ℕ, ◌+◌, ◌*◌, ◌<◌, ◌≡◌, ◌⊎◌, ◌∙◌, inl, inr, true, some, refl, sym, arith}
use poireau.Shim.MoveIn.{IsReadable}
use poireau.Exec.Ends
use poireau.Exec.Returns.{at_done}
use poireau.Kernel.{Kernel, KernelLaws}
use poireau.Sample.{Entropy, Doubles}
use poireau.TrackedAlloc.{Tracker, TrackedAllocInfo}
use poireau.TrackedAlloc.Pages.{pages}
use poireau.TrackedAlloc.Invariant.{view}
use poireau.Shim.{Host, Process}
use poireau.Shim.Contents.{CopyLaws}
use poireau.Shim.Reading.{ReadLaws}
use poireau.Shim.Service.{Bookkeeping, Ledger, Sound, HostLaws}
use poireau.Shim.Service.Mallocs.{malloc-Serves, calloc-Serves}
use poireau.Shim.Service.Frees.{free-Frees}
use poireau.Shim.Service.Calls.{realloc-Reallocs}
use poireau.Shim.Service.Client.{
  Live, Step, History, Serving, Goes, known, drops-Goes, fresh-Goes, answered-Goes, malloc, calloc,
  realloc, free, start, call,
}

-- NULL is no block.
source :
    {k : Kernel} {own : Bookkeeping k} {l : Ledger} {t : Tracker k}
    → Sound k own l t
    → (ptr request m : ℕ) → (ptr ≡ 0) ⊎ IsReadable k ptr request m t
    → l.block ptr ≡ true
    → (m : ℕ) × IsReadable k ptr request m t
source sound ptr request m (inl null) given = absurd (ground (arith, sound.block_low ptr given))
source sound ptr request m (inr readable) given = (m, readable)

module _ (k : Kernel) (own : Bookkeeping k) (laws : KernelLaws k) (e : Entropy) (d : Doubles)
    (h : Host k) (hosts : HostLaws k own h) (copy : CopyLaws k h) (read_laws : ReadLaws k h)
    (rounds : ℕ) where
  -- With the same laws, after any single such call from such a process, the process is such a
  -- process again, and whatever the program has is there; no other tracked allocation with its
  -- bytes and no other block is lost than the pointer that was passed; and an answer that is
  -- neither NULL nor that pointer is nothing that the program had.
  pub step-Goes :
      {ptr ret : ℕ} {live live' : Live} {p q : Process k e} (l : Ledger)
      → Serving k own e d h rounds live l p
      → Step k own e d h rounds live p ptr ret live' q
      → Goes k own e d h rounds ptr ret live l p live' q
  step-Goes l now (malloc fuel request ret q pos room run) =
      fresh-Goes k own e d h rounds request ret q now (
        Ends.at_done
          (malloc-Serves k own laws e d h hosts rounds l fuel request _ now.sound now.fit pos room)
          run)
  step-Goes l now (calloc fuel num size ret q pos room run) =
      fresh-Goes k own e d h rounds (num * size) ret q now (
        Ends.at_done
          (calloc-Serves k own laws e d h hosts rounds l fuel num size _ now.sound now.fit pos room)
          run)
  step-Goes l now (realloc fuel ptr request ret m q may readable pos fits room run) =
      let (l', (since, fit), given, _) =
        Ends.at_done
          (realloc-Reallocs k own laws e d h hosts copy read_laws rounds l fuel ptr request _
            now.sound now.fit pos fits room (known k own e d h rounds now ptr may)
            (source now.sound ptr request m readable))
          run in
      answered-Goes k own e d h rounds now ptr l' q fit ret request since given
  step-Goes l now (free fuel ptr q may run) =
      let (l', leaves, _, _) =
        at_done
          (free-Frees k own laws e d h hosts rounds l fuel ptr _ now.sound now.fit
            (known k own e d h rounds now ptr may))
          run in
      drops-Goes k own e d h rounds ptr now leaves

  -- From the start to here.
  abbrev pub Went : (kept : ℕ) → Ledger → Process k e → Live → Process k e → Type 0
  Went kept l p live' q =
      (l' : Ledger) × Serving k own e d h rounds live' l' q
      × ((info : TrackedAllocInfo)
          → view k p.tracker kept ≡ some info
          → (view k q.tracker kept ≡ some info)
            × ((i : ℕ)
                → i < pages info.size
                → k.byte q.tracker.os (kept + i) ≡ k.byte p.tracker.os (kept + i)))

  -- With the laws of the kernel, of the underlying allocator, which speak of the blocks and the
  -- memory that its own bookkeeping records, of `memcpy` and of `process_vm_readv`, from a
  -- process whose pointers are patched, whose generator is seeded, whose tracker is valid and
  -- apart from that memory, in which the bookkeeping is right and whatever the program has is
  -- there, and after any sequence of calls of the four entry points that return, of at least one
  -- byte, for `realloc` fewer than 2 ^ 64, and before the counter's end, by a program that passes
  -- only NULL or what it has, and to `realloc` only NULL or what can be read, the process is such
  -- a process again; whatever the program has is a tracked allocation of the size that it asked
  -- for or a block of the underlying allocator; and a tracked allocation that was passed to no
  -- call has its identifier, its size and all its bytes.
  pub history-Went :
      (kept : ℕ) (l : Ledger) {live : Live} {p : Process k e} {live' : Live} {q : Process k e}
      → Serving k own e d h rounds live l p
      → History k own e d h rounds kept live p live' q
      → Went kept l p live' q
  history-Went kept l now start = (l, now, λ info tracked. (tracked, λ i inside. refl))
  history-Went kept l now (call ptr ret before step other) =
      let (l1, there, stays) = history-Went kept l now before in
      let (l2, here, since, _) = step-Goes l1 there step in
      (
        l2,
        here,
        λ info tracked.
            let (still, same) = stays info tracked in
            (
              since.keeps.entry kept info still (λ e. other (sym e)),
              λ i inside.
                  since.keeps.bytes kept i info still (λ e. other (sym e)) inside ∙ same i inside,
            ),
      )

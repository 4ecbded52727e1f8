-- ===== src/Shim/Service/Calls.antt =====
-- `realloc` as a part of any history of calls, and all four entry points together.
use poireau.Prelude.{
  ℕ, suc, ◌+◌, ◌^◌, ◌<◌, ◌≡◌, ◌≢◌, ◌⊎◌, inl, inr, true, false, some, refl, sym, arith, leb, ◌==◌,
  if◌then◌else◌, Bool-cases, Option-cases,
}
use mathlib.Core.Path.{subst}
use poireau.Word.{sub64}
use poireau.Exec.{Exec, Outcome}
use poireau.Exec.Ends.{Ends, ends, searches}
use poireau.Exec.Ends
use poireau.Kernel.{Kernel, KernelLaws}
use poireau.Sample.{Entropy, Doubles, sample_request}
use poireau.Sample.Reset.{redraw, redraw-pos, at_threshold-IsSeeded, sample_request_reset-redraw}
use poireau.TrackedAlloc.{Tracker, TrackedAllocInfo, tracked_alloc_p}
use poireau.TrackedAlloc.Invariant.{view}
use poireau.TrackedAlloc.Lookup.{view-IsLive}
use poireau.Shim.{Host, Process, malloc, realloc, free, sampled_realloc}
use poireau.Shim.Contents.{CopyLaws}
use poireau.Shim.Lift.{tracking_then}
use poireau.Shim.MoveIn.{IsReadable}
use poireau.Shim.Reading.{ReadLaws}
use poireau.Shim.Service.{
  Bookkeeping, Ledger, Sound, HostLaws, Unlucky, IsRegular, IsTracked, IsFit, Leaves, Serves,
  Reallocs,
}
use poireau.Shim.Service.Mallocs.{charged, sampled_malloc-Serves}
use poireau.Shim.Service.Frees.{lookup_regular, lookup_tracked}
use poireau.Shim.Service.Reallocs.{base-Reallocs, to_regular-Reallocs}
use poireau.Shim.Service.FromTracked.{from_tracked-Reallocs}
use poireau.Shim.Service.Moves.{move-Reallocs}

not_at_null :
    (k : Kernel) (own : Bookkeeping k) (t : Tracker k) (ptr : ℕ) (info : TrackedAllocInfo)
    → view k t ptr ≡ some info
    → ptr ≢ 0
not_at_null k own t ptr info tracked = omega (arith, (view-IsLive k t ptr info tracked).not_null)

-- A `realloc` of NULL is a `malloc`.
of_Serves :
    (k : Kernel) (own : Bookkeeping k) (e : Entropy) (request : ℕ) (l : Ledger) (t : Tracker k)
    (ret : ℕ) (q : Process k e)
    → Serves k own e 0 request l t ret q
    → Reallocs k own e 0 request l t ret q
of_Serves k own e request l t ret q (l', leaves, given) =
    let lost : 0 ≡ (if ret == 0 then 0 else 0) = ground arith in
    (
      l',
      subst (λ a. Leaves k own e a l t l' q) lost leaves,
      given,
      λ info tracked found. absurd (not_at_null k own t 0 info tracked refl),
    )

module _ (k : Kernel) (own : Bookkeeping k) (laws : KernelLaws k) (e : Entropy) (d : Doubles)
    (h : Host k) (hosts : HostLaws k own h) (copy : CopyLaws k h) (read_laws : ReadLaws k h)
    (rounds : ℕ) (l : Ledger) where
  -- A block, if it is one, can be read.
  abbrev pub Source : (ptr request : ℕ) → Tracker k → Type 0
  Source ptr request t = l.block ptr ≡ true → (m : ℕ) × IsReadable k ptr request m t

  abbrev Outcomes : (ptr request : ℕ) → Tracker k → Outcome (Process k e) ℕ → Type 0
  Outcomes ptr request t = Ends (Reallocs k own e ptr request l t) (Unlucky e d rounds)

  sampled_realloc-Reallocs :
      (again : ℕ → ℕ → Exec (Process k e) ℕ) (mallocs : ℕ → Exec (Process k e) ℕ)
      (frees : ℕ → Exec (Process k e) (Unit {0})) (ptr request : ℕ) (p : Process k e)
      → Sound k own l p.tracker
      → IsFit k own e p
      → 0 < request
      → request < 2 ^ 64
      → p.tracker.alloc_id_counter + 1 < 2 ^ 64
      → IsRegular k own l ptr ⊎ IsTracked k own p.tracker ptr
      → Source ptr request p.tracker
      → Outcomes ptr request p.tracker
          (sampled_realloc k e d h rounds again mallocs frees ptr request p)
  unfolding sampled_realloc
  sampled_realloc-Reallocs again mallocs frees ptr request p sound fit pos fits room known source =
      let drawn = sample_request_reset-redraw e d rounds p.sampler fit.seeded in
      elim (Option-cases (redraw e d rounds rounds p.sampler.state)) [
        | inl missing ↦ rw (drawn, missing) (searches (p.sampler.state, fit.seeded, missing))
        | inr (st, found) ↦
            let seeded = (redraw-pos e d rounds rounds p.sampler.state st fit.seeded found).1 in
            let p' : Process k e = record p { sampler = record p.sampler { state = st } } in
            let fit' : IsFit k own e p' = record { ready = fit.ready; seeded = seeded } in
            rw (drawn, found)
              (elim known [
                | inl (inl null) ↦
                    let test : (ptr == 0) ≡ true = ground arith in
                    rw (test, null)
                      (Ends.weaken
                        (sampled_malloc-Serves k own laws e d h hosts rounds l mallocs request p'
                          sound fit' pos room)
                        (of_Serves k own e request l p.tracker))
                | inl (inr given) ↦
                    let test : (ptr == 0) ≡ false = ground (arith, sound.block_low ptr given) in
                    let (m, readable) = source given in
                    rw test (
                      subst (Ends _ _)
                        (sym (
                          tracking_then k e d h rounds _ p' (tracked_alloc_p k ptr) false p.tracker
                            (lookup_regular sound ptr (inr given))))
                        (Ends.of_Returns (
                          move-Reallocs k own laws e d h hosts read_laws rounds l p' sound fit' ptr
                            request given pos frees m readable room)))
                | inr (info, tracked) ↦
                    let live = view-IsLive k p.tracker ptr info tracked in
                    let test : (ptr == 0) ≡ false = ground (arith, live.not_null) in
                    rw test (
                      subst (Ends _ _)
                        (sym (
                          tracking_then k e d h rounds _ p' (tracked_alloc_p k ptr) true p.tracker
                            (lookup_tracked sound ptr info tracked)))
                        (Ends.of_Returns (
                          from_tracked-Reallocs k own laws e d h hosts copy read_laws rounds l p'
                            sound fit' ptr request info tracked pos fits room)))
              ])
      ]

  -- With those laws and those of `memcpy` and of `process_vm_readv`, from such a process whose
  -- counter is not at its end, `realloc` to at least one byte and fewer than 2 ^ 64 of NULL, of a
  -- block that can be read or of a tracked allocation, sampled or not, ends, unless there is a
  -- seeded generator from which no threshold is found within the rounds: with NULL, and nothing
  -- is lost; or with a new pointer, or the old one, to a tracked allocation of the request or to
  -- a block with room for it, which begins with the bytes of the old allocation if that was
  -- tracked; nothing but the old pointer is lost, and the process is such a process again.
  pub realloc-Reallocs :
      (fuel ptr request : ℕ) (p : Process k e)
      → Sound k own l p.tracker
      → IsFit k own e p
      → 0 < request
      → request < 2 ^ 64
      → p.tracker.alloc_id_counter + 1 < 2 ^ 64
      → IsRegular k own l ptr ⊎ IsTracked k own p.tracker ptr
      → Source ptr request p.tracker
      → Outcomes ptr request p.tracker (realloc k e d h rounds (suc fuel) ptr request p)
  unfolding realloc sample_request
  realloc-Reallocs fuel ptr request p sound fit pos fits room known source =
      let left = p.sampler.state.bytes_until_next_sample in
      let counted = at_threshold-IsSeeded e d p.sampler.state (sub64 left request) fit.seeded in
      let p' = charged k own laws e d h hosts rounds l p request in
      let fit' : IsFit k own e p' = record { ready = fit.ready; seeded = counted } in
      elim (Bool-cases (leb left request)) [
        | inl sampled ↦ rw sampled (
            sampled_realloc-Reallocs (realloc k e d h rounds fuel)
              (malloc k e d h rounds (suc fuel)) (free k e d h rounds (suc fuel)) ptr request p'
              sound fit' pos fits room known source)
        | inr small ↦ rw small (elim known [
          | inl regular ↦
              subst (Ends _ _)
                (sym (
                  tracking_then k e d h rounds _ p' (tracked_alloc_p k ptr) false p.tracker
                    (lookup_regular sound ptr regular)))
                (Ends.of_Returns (
                  base-Reallocs k own laws e d h hosts copy read_laws rounds l p' sound fit' ptr
                    request (realloc k e d h rounds fuel) regular pos))
          | inr (info, tracked) ↦
              subst (Ends _ _)
                (sym (
                  tracking_then k e d h rounds _ p' (tracked_alloc_p k ptr) true p.tracker
                    (lookup_tracked sound ptr info tracked)))
                (to_regular-Reallocs k own laws e d h hosts copy read_laws rounds l p' sound fit'
                  ptr request info tracked pos fuel room)
        ])
      ]

-- ===== src/Shim/Service/Reallocs.antt =====
-- The ways of `realloc`, as parts of any history of calls.
use poireau.Prelude.{
  ℕ, suc, ◌+◌, ◌^◌, ◌<◌, ◌≡◌, ◌≢◌, inl, inr, true, false, some, List, sym, arith, ◌==◌,
  if◌then◌else◌, ℕ-cases,
}
use mathlib.Core.Path.{subst}
use poireau.Exec.{Exec, pure, ◌>>◌}
use poireau.Exec.Ends.{Ends, ends}
use poireau.Exec.Ends
use poireau.Exec.Returns.{Returns, normally}
use poireau.Kernel.{Kernel, KernelLaws}
use poireau.Probe.{Probe}
use poireau.Sample.{Entropy, Doubles}
use poireau.TrackedAlloc.{Tracker, TrackedAllocInfo, tracked_alloc_info, tracked_alloc_put, probe}
use poireau.TrackedAlloc.Invariant.{view}
use poireau.TrackedAlloc.Lookup.{view-IsLive, tracked_alloc_info-live}
use poireau.Shim.{Host, Process, malloc, base_realloc, tracking, sampled_realloc_to_regular}
use poireau.Shim.Contents.{CopyLaws, Preserved, count}
use poireau.Shim.Lift.{tracking_then, tracking-bind}
use poireau.Shim.Reading.{ReadLaws}
use poireau.Shim.Service.{
  Bookkeeping, Ledger, Sound, Since, HostLaws, Given, Unlucky, IsRegular, IsFit, Reallocs,
}
use poireau.Shim.Service.Steps.{Since-refl, host-Since, probe-Since}
use poireau.Shim.Service.Widen.{
  widen-Since, widen-Given, new_pointer, null-Reallocs, found-Reallocs,
}
use poireau.Shim.Service.Given.{all-Owned, answers-Given}
use poireau.Shim.Service.Mallocs.{malloc-Serves}
use poireau.Shim.Service.Patched.{base_realloc-real}
use poireau.Shim.Service.Frees.{regular_untracked, tracked_low}
use poireau.Shim.Service.Copies.{copied_put-Since}

module _ (k : Kernel) (own : Bookkeeping k) (laws : KernelLaws k) (e : Entropy) (d : Doubles)
    (h : Host k) (hosts : HostLaws k own h) (copy : CopyLaws k h) (read_laws : ReadLaws k h)
    (rounds : ℕ) (l : Ledger) (p : Process k e) (sound : Sound k own l p.tracker)
    (fit : IsFit k own e p) (ptr request : ℕ) where
  abbrev Result : ℕ → Process k e → Type 0
  Result = Reallocs k own e ptr request l p.tracker

  -- `base_realloc`.
  pub base-Reallocs :
      (again : ℕ → ℕ → Exec (Process k e) ℕ)
      → IsRegular k own l ptr
      → 0 < request
      → Returns Result (base_realloc k e d h rounds again ptr request p)
  base-Reallocs again regular pos =
      let (l', changes, answers) =
        hosts.realloc ptr request l p.tracker.os pos (all-Owned sound) regular in
      let r = h.realloc ptr request p.tracker.os in
      let u : Tracker k = record p.tracker { os = r.1 } in
      let lost = if r.0 == 0 then 0 else ptr in
      let since : Since k own lost l p.tracker l' u =
        host-Since k own lost l l p.tracker p.tracker (Since-refl k own lost l p.tracker sound) l'
          r.1 p.tracker.probes changes answers.others in
      let given : Given k own lost r.0 request l p.tracker l' u =
        answers-Given k own lost r.0 request l l' p.tracker u since.sound since.keeps answers in
      let fit' : IsFit k own e (record p { tracker = u }) = record {
        ready = fit.ready;
        seeded = fit.seeded;
      } in
      rw (base_realloc-real k e d h rounds again ptr request p fit.ready.realloc) (
        normally (elim (ℕ-cases r.0 0) [
          | inl null ↦
              let none_lost : lost ≡ 0 = ground arith in
              null-Reallocs k own e ptr request l l' p.tracker r.0 (record p { tracker = u }) null
                (subst (λ a. Since k own a l p.tracker l' u) none_lost since, fit')
          | inr found ↦
              let old_lost : lost ≡ ptr = ground arith in
              found-Reallocs k own e ptr request l l' p.tracker r.0 (record p { tracker = u }) found
                (subst (λ a. Since k own a l p.tracker l' u) old_lost since, fit')
                (subst (λ a. Given k own a r.0 request l p.tracker l' u) old_lost given)
                λ info tracked. let free = regular_untracked sound ptr regular in absurd (cc)
        ]))

  module _ (info : TrackedAllocInfo) (tracked : view k p.tracker ptr ≡ some info)
      (pos : 0 < request) where
    -- The old bytes are what `ptr` has, whatever was called since.
    same_info : (a : TrackedAllocInfo) → view k p.tracker ptr ≡ some a → info ≡ a
    same_info a at = cc (tracked, at)

    -- The copy to new bytes, and the release.
    pub copy_put-Reallocs :
        (ret : ℕ) (l1 : Ledger) (u : Tracker k) (q : Process k e) (probes : List Probe)
        → IsFit k own e q
        → Since k own ptr l p.tracker l1 u
        → view k u ptr ≡ some info
        → Preserved k ptr ptr info.size p.tracker u
        → 0 < ret
        → ret ≢ ptr
        → Given k own ptr ret request l p.tracker l1 u
        → Returns Result (
            (do tracking k e d h rounds (tracked_alloc_put k ptr); pure ret)
              (record q {
                tracker = record u {
                  os = h.memcpy ret ptr (count k info request) u.os;
                  probes = probes;
                };
              }))
    copy_put-Reallocs ret l1 u q probes fit_q since here same found other given =
        tracking-bind k e d h rounds _ _ (tracked_alloc_put k ptr)
          (copied_put-Since k own h copy ptr l l1 p.tracker u since info here ret request pos found
            other given laws probes same)
          λ _ z (since_z, given_z, contents). normally (
            found-Reallocs k own e ptr request l l1 p.tracker ret _ (omega arith)
              (since_z, record { ready = fit_q.ready; seeded = fit_q.seeded }) given_z
              λ a at.
                subst (λ b. Preserved k ptr ret (count k b request) p.tracker z) (same_info a at)
                  contents)

    -- The tracked allocation is moved to the underlying allocator, or to a new tracked one if
    -- `malloc` samples the request.
    pub to_regular-Reallocs :
        (fuel : ℕ)
        → p.tracker.alloc_id_counter + 1 < 2 ^ 64
        → Ends Result (Unlucky e d rounds) (
            sampled_realloc_to_regular k e d h rounds
              (malloc k e d h rounds (suc fuel))
              ptr
              request
              p)
    unfolding sampled_realloc_to_regular probe
    to_regular-Reallocs fuel room =
        let live = view-IsLive k p.tracker ptr info tracked in
        let below = tracked_low sound ptr info tracked in
        subst (Ends _ _)
          (sym (
            tracking_then k e d h rounds _ p (tracked_alloc_info k ptr) info p.tracker
              (tracked_alloc_info-live k p.tracker ptr info below live)))
          (Ends.bind
            (malloc-Serves k own laws e d h hosts rounds l fuel request p sound fit pos room)
            λ ret q (l1, (since0, fit_q), given0). elim (ℕ-cases ret 0) [
              | inl null ↦
                  let test : (ret == 0) ≡ true = ground arith in
                  rw test (
                    ends (
                      null-Reallocs k own e ptr request l l1 p.tracker ret _ null (
                        probe-Since k own 0 l l1 p.tracker q.tracker since0 _,
                        record { ready = fit_q.ready; seeded = fit_q.seeded },
                      )))
              | inr found ↦
                  let test : (ret == 0) ≡ false = ground arith in
                  let since = widen-Since k own ptr l l1 p.tracker q.tracker sound since0 in
                  let given =
                    widen-Given k own ptr l l1 p.tracker q.tracker sound ret request given0 in
                  let not_null : ptr ≢ 0 = omega (arith, live.not_null) in
                  let here = since0.keeps.entry ptr info tracked not_null in
                  let other : ret ≢ ptr =
                    new_pointer k own ptr l l1 p.tracker q.tracker sound ret request info tracked
                      found given0 in
                  rw test (
                    Ends.of_Returns (
                      copy_put-Reallocs ret l1 q.tracker q _ fit_q since here
                        (λ i inside. since0.keeps.bytes ptr i info tracked not_null (omega arith))
                        (omega arith) other given))
            ])

-- ===== src/Shim/Service/FromTracked.antt =====
-- `realloc` of a tracked allocation that stays one, as a part of any history of calls.
use poireau.Prelude.{
  ℕ, ◌+◌, ◌^◌, ◌<◌, ◌≡◌, ◌≢◌, ◌∙◌, inl, inr, true, false, some, List, refl, sym, arith, ◌==◌, ◌||◌,
  Bool-cases,
}
use mathlib.Core.Path.{subst}
use poireau.Exec.{pure, ◌>>◌}
use poireau.Exec.Returns.{Returns, normally}
use poireau.Kernel.{Kernel, KernelLaws}
use poireau.Probe.{Probe}
use poireau.Sample.{Entropy, Doubles}
use poireau.TrackedAlloc.{
  Tracker, TrackedAllocInfo, tracked_alloc_info, tracked_alloc_get, tracked_alloc_put,
  tracked_alloc_resize, probe,
}
use poireau.TrackedAlloc.Invariant.{view, IsValid}
use poireau.TrackedAlloc.Get.{allocation, Gets, Refuses, tracked_alloc_get-IsValid}
use poireau.TrackedAlloc.Lookup.{view-IsLive, tracked_alloc_info-live}
use poireau.TrackedAlloc.Resize.{Resizes, tracked_alloc_resize-Resizes}
use poireau.Shim.{Host, Process, tracking, sampled_realloc_from_tracked}
use poireau.Shim.Contents.{CopyLaws, count, not_grown, live_mapped}
use poireau.Shim.Lift.{tracking_then, tracking-bind}
use poireau.Shim.Reading.{ReadLaws}
use poireau.Shim.Service.{Bookkeeping, Ledger, Sound, Since, HostLaws, IsFit, Reallocs}
use poireau.Shim.Service.Steps.{Since-refl, probe-Since}
use poireau.Shim.Service.Widen.{Since-all, null-Reallocs, found-Reallocs}
use poireau.Shim.Service.Tracked.{refuse-Since, resize-Since}
use poireau.Shim.Service.Given.{fresh-Since}
use poireau.Shim.Service.Frees.{tracked_low}
use poireau.Shim.Service.Reallocs.{copy_put-Reallocs}

module _ (k : Kernel) (own : Bookkeeping k) (laws : KernelLaws k) (e : Entropy) (d : Doubles)
    (h : Host k) (hosts : HostLaws k own h) (copy : CopyLaws k h) (read_laws : ReadLaws k h)
    (rounds : ℕ) (l : Ledger) (p : Process k e) (sound : Sound k own l p.tracker)
    (fit : IsFit k own e p) (ptr request : ℕ) (info : TrackedAllocInfo)
    (tracked : view k p.tracker ptr ≡ some info) (pos : 0 < request) where
  abbrev Result : ℕ → Process k e → Type 0
  Result = Reallocs k own e ptr request l p.tracker

  module _ (u : Tracker k) (valid_u : IsValid k u) (since : Since k own ptr l p.tracker l u) where
    -- The allocation was resized in place.
    grown-Reallocs :
        (probes : List Probe)
        → Resizes k ptr info request true p.tracker u
        → Result ptr (record p { tracker = record u { probes = probes } })
    grown-Reallocs probes resized =
        let live = view-IsLive k p.tracker ptr info tracked in
        let here : view k u ptr ≡ some (allocation k info.id request) =
          ground (arith, resized.view_after ptr) in
        found-Reallocs k own e ptr request l l p.tracker ptr _ (omega (arith, live.not_null))
          (
            probe-Since k own ptr l l p.tracker u since _,
            record { ready = fit.ready; seeded = fit.seeded },
          )
          (inr (live.not_null, (λ _. refl, λ _ _. refl, inl (info.id, here))))
          λ a at i inside.
            let one : info ≡ a = cc (tracked, at) in
            resized.memory.byte (ptr + i)
              (live_mapped k u ptr (allocation k info.id request) i valid_u here (ground arith))

    module _ (resized : Resizes k ptr info request false p.tracker u) where
      still : view k u ptr ≡ some info
      still = (not_grown k p.tracker u ptr request info valid_u tracked resized).0 ptr ∙ tracked

      -- It was not, and nothing was lost yet.
      unlost : Since k own 0 l p.tracker l u
      unlost = Since-all k own ptr l l p.tracker u sound info since tracked still λ i inside.
          resized.memory.byte (ptr + i) (live_mapped k u ptr info i valid_u still inside)

      refused-Reallocs :
          (ret id : ℕ) (w : Tracker k) (probes : List Probe)
          → IsValid k w
          → Refuses k ret id u w
          → Result ret (record p { tracker = record w { probes = probes } })
      refused-Reallocs ret id w probes valid_w refuses =
          null-Reallocs k own e ptr request l l p.tracker ret _ refuses.null (
            probe-Since k own 0 l l p.tracker w
                (refuse-Since k own 0 l l p.tracker u w unlost valid_w refuses) _,
            record { ready = fit.ready; seeded = fit.seeded },
          )

      -- It moves to `ret`.
      moved-Reallocs :
          (ret id : ℕ) (w : Tracker k) (probes : List Probe)
          → IsValid k w
          → Gets k request ret id u w
          → ret ≢ ptr
          → Returns Result (
              (do tracking k e d h rounds (tracked_alloc_put k ptr); pure ret)
                (record p {
                  tracker = record w {
                    os = h.memcpy ret ptr (count k info request) w.os;
                    probes = probes;
                  };
                }))
      moved-Reallocs ret id w probes valid_w gets other =
          let (since_w, given_w) =
            fresh-Since k own ptr l l p.tracker u since ret id request w pos (valid_w, inr gets) in
          let same_bytes = (not_grown k p.tracker u ptr request info valid_u tracked resized).1 in
          copy_put-Reallocs k own laws e d h hosts copy read_laws rounds l p sound fit ptr request
            info tracked pos ret l w p probes fit since_w
            (ground (arith, gets.view_after ptr, other, still))
            (λ i inside.
              gets.fresh.byte (ptr + i) (live_mapped k u ptr info i valid_u still (omega arith))
              ∙ same_bytes i inside)
            gets.not_null other given_w

  pub from_tracked-Reallocs :
      request < 2 ^ 64
      → p.tracker.alloc_id_counter + 1 < 2 ^ 64
      → Returns Result (sampled_realloc_from_tracked k e d h rounds ptr request p)
  unfolding sampled_realloc_from_tracked probe
  from_tracked-Reallocs fits room =
      let live = view-IsLive k p.tracker ptr info tracked in
      let below = tracked_low sound ptr info tracked in
      let start = Since-refl k own ptr l p.tracker sound in
      subst (Returns _)
        (sym (
          tracking_then k e d h rounds _ p (tracked_alloc_info k ptr) info p.tracker
            (tracked_alloc_info-live k p.tracker ptr info below live)))
        (tracking-bind k e d h rounds _ p (tracked_alloc_resize k ptr request)
          (tracked_alloc_resize-Resizes k laws p.tracker ptr info request sound.valid tracked pos
            fits)
          λ r u (valid_u, resized).
            let since =
              resize-Since k own ptr l l p.tracker p.tracker u start valid_u info tracked request r
                resized in
            elim (Bool-cases r) [
              | inl grown ↦
                  let r_true =
                    subst (λ b. Resizes k ptr info request b p.tracker u) grown resized in
                  let stays : (ptr == 0 || ptr == ptr) ≡ true = ground arith in
                  rw (grown, stays) (normally (grown-Reallocs u valid_u since _ r_true))
              | inr refused ↦
                  let r_false =
                    subst (λ b. Resizes k ptr info request b p.tracker u) refused resized in
                  let here = still u valid_u since r_false in
                  rw refused (
                    tracking-bind k e d h rounds _ _ (tracked_alloc_get k request)
                      (tracked_alloc_get-IsValid k laws request u valid_u pos
                        (ground (arith, resized.counter)))
                      λ (ret, id) w (valid_w, answer). elim answer [
                        | inl refuses ↦
                            let null : (ret == 0 || ret == ptr) ≡ true =
                              ground (arith, refuses.null) in
                            rw null (
                              normally (
                                refused-Reallocs u valid_u since r_false ret id w _ valid_w
                                  refuses))
                        | inr gets ↦
                            let other : ret ≢ ptr =
                              λ same. let unused = gets.unused in absurd (cc) in
                            let moved : (ret == 0 || ret == ptr) ≡ false =
                              ground (arith, gets.not_null, other) in
                            rw moved
                              (moved-Reallocs u valid_u since r_false ret id w _ valid_w gets other)
                      ])
            ])

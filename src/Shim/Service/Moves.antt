-- ===== src/Shim/Service/Moves.antt =====
-- `realloc` of a block of the underlying allocator that is sampled, as a part of any history of
-- calls: the block becomes a tracked allocation.
use poireau.Prelude.{
  ℕ, suc, ◌+◌, ◌^◌, ◌<◌, ◌≡◌, inl, inr, true, false, none, List, refl, sym, arith, ◌==◌,
}
use mathlib.Core.Path.{subst}
use poireau.Exec.{Exec, pure, ◌>>◌}
use poireau.Exec.Returns
use poireau.Exec.Returns.{Returns, normally}
use poireau.Kernel.{Kernel, KernelLaws}
use poireau.Probe.{Probe}
use poireau.Sample.{Entropy, Doubles}
use poireau.TrackedAlloc.{Tracker, tracked_alloc_get, probe}
use poireau.TrackedAlloc.Pages.{pages}
use poireau.TrackedAlloc.Invariant.{view}
use poireau.TrackedAlloc.Get.{Gets, tracked_alloc_get-IsValid}
use poireau.Shim.{Host, Process, base_free, changing, move_to_tracked, safe_copy}
use poireau.Shim.Contents.{live_mapped}
use poireau.Shim.Lift.{tracking-bind}
use poireau.Shim.MoveIn.{IsReadable, can_read}
use poireau.Shim.Reading.{ReadLaws, Copied}
use poireau.Shim.Prefix.{safe_copy-Copied}
use poireau.Shim.Service.{Bookkeeping, Ledger, Sound, Since, HostLaws, Given, IsFit, Reallocs}
use poireau.Shim.Service.Steps.{Apart, Clear, Since-refl, host-Since, probe-Since, write-Since}
use poireau.Shim.Service.Tracked.{refuse-Since}
use poireau.Shim.Service.Given.{all-Owned, block_untracked, fresh-Since}
use poireau.Shim.Service.Patched.{base_free-real}
use poireau.Shim.Service.Widen.{null-Reallocs, found-Reallocs}

module _ (k : Kernel) (own : Bookkeeping k) (laws : KernelLaws k) (e : Entropy) (d : Doubles)
    (h : Host k) (hosts : HostLaws k own h) (read_laws : ReadLaws k h) (rounds : ℕ) (l : Ledger)
    (p : Process k e) (sound : Sound k own l p.tracker) (fit : IsFit k own e p) (ptr request : ℕ)
    (given : l.block ptr ≡ true) (pos : 0 < request) where
  abbrev Result : ℕ → Process k e → Type 0
  Result = Reallocs k own e ptr request l p.tracker

  untracked : view k p.tracker ptr ≡ none
  untracked = block_untracked sound ptr given

  module _ (m ret id : ℕ) (source : IsReadable k ptr request m p.tracker) (u : Tracker k)
      (gets : Gets k request ret id p.tracker u) (since : Since k own ptr l p.tracker l u)
      (new : Given k own ptr ret request l p.tracker l u) where
    -- The new chunk is apart from the other tracked allocations.
    chunk-Apart : Apart k own ptr l l p.tracker u since ret (pages request)
    chunk-Apart q i info tracked differ inside =
        let mapped = live_mapped k p.tracker q info i sound.valid tracked inside in
        ground (arith, gets.fresh.free (q + i))

    chunk-Clear : Clear k own ptr l l p.tracker u since ret (pages request)
    chunk-Clear x mine kept = ground (arith, gets.fresh.free x, sound.owned.mapped x mine)

    -- The release of the old block.
    released-Reallocs :
        (os : k.State) (probes : List Probe)
        → Copied k ret ptr m (pages request) u.os os
        → let w : Tracker k = record u { os = os; probes = probes } in
          Returns Result
            ((do changing k e d h rounds (h.free ptr); pure ret) (record p { tracker = w }))
    released-Reallocs os probes filled =
        let w : Tracker k = record u { os = os; probes = probes } in
        let since_w : Since k own ptr l p.tracker l w =
          write-Since k own ptr l l p.tracker u since ret (pages request) os probes chunk-Apart
            chunk-Clear filled.mapped filled.outside in
        let (l', changes, answers, _) = hosts.free ptr l os (all-Owned since_w.sound) (inr given) in
        let since_z =
          host-Since k own ptr l l p.tracker w since_w l' (h.free ptr os) probes changes
            answers.others in
        let unheld : l.block ret ≡ true → ret ≡ ptr = elim new [
          | inl null ↦ absurd (ground (arith, gets.not_null))
          | inr (_, (a, _, _)) ↦ a
        ] in
        normally (
          found-Reallocs k own e ptr request l l' p.tracker ret _ (omega (arith, gets.not_null))
            (since_z, record { ready = fit.ready; seeded = fit.seeded })
            (inr (
              gets.not_null,
              (
                unheld,
                λ info tracked. let unused = gets.unused in absurd (cc),
                inl (id, ground (arith, gets.view_after ret)),
              ),
            ))
            λ info tracked. let free = untracked in absurd (cc))

    copy_free-Reallocs :
        (frees : ℕ → Exec (Process k e) (Unit {0})) (probes : List Probe)
        → Returns Result (
            (do
              safe_copy k e d h rounds (suc request) ret ptr request
              base_free k e d h rounds frees ptr
              pure ret)
              (record p { tracker = record u { probes = probes } }))
    copy_free-Reallocs frees probes =
        let p1 : Process k e = record p { tracker = record u { probes = probes } } in
        Returns.bind
          (safe_copy-Copied k e d h read_laws rounds ret ptr request m (pages request) p1 (
            can_read k l.heap p.tracker u sound.valid since.sound.valid sound.owned ptr request m
              ret id pos (sound.block_low ptr given).1 source gets))
          λ _ q ((os, same), filled).
            let filled' =
              subst (λ w. Copied k ret ptr m (pages request) u.os w.tracker.os) same filled in
            let w : Process k e = record p { tracker = record u { os = os; probes = probes } } in
            subst (λ w. Returns Result ((do base_free k e d h rounds frees ptr; pure ret) w))
              (sym same)
              (rw (base_free-real k e d h rounds frees ptr w fit.ready.free)
                (released-Reallocs os probes filled'))

  pub move-Reallocs :
      (frees : ℕ → Exec (Process k e) (Unit {0})) (m : ℕ)
      → IsReadable k ptr request m p.tracker
      → p.tracker.alloc_id_counter + 1 < 2 ^ 64
      → Returns Result (move_to_tracked k e d h rounds frees ptr request p)
  unfolding move_to_tracked probe
  move-Reallocs frees m source room =
      let start = Since-refl k own ptr l p.tracker sound in
      let start0 = Since-refl k own 0 l p.tracker sound in
      tracking-bind k e d h rounds _ p (tracked_alloc_get k request)
        (tracked_alloc_get-IsValid k laws request p.tracker sound.valid pos room)
        λ (ret, id) u (valid, answer). elim answer [
          | inl refuses ↦
              let null : (ret == 0) ≡ true = ground (arith, refuses.null) in
              rw null (
                normally (
                  null-Reallocs k own e ptr request l l p.tracker 0 _ refl (
                    probe-Since k own 0 l l p.tracker u
                        (refuse-Since k own 0 l l p.tracker p.tracker u start0 valid refuses) _,
                    record { ready = fit.ready; seeded = fit.seeded },
                  )))
          | inr gets ↦
              let found : (ret == 0) ≡ false = ground (arith, gets.not_null) in
              let (since, new) =
                fresh-Since k own ptr l l p.tracker p.tracker start ret id request u pos
                  (valid, inr gets) in
              rw found (copy_free-Reallocs m ret id source u gets since new frees _)
        ]

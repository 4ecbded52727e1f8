-- ===== src/Shim/Free.antt =====
-- `free` sends each pointer to the allocator that gave it out.
use poireau.Prelude.{ℕ, suc, ◌^◌, ◌<◌, ◌≡◌, refl, true, false, none, some, arith, ◌∙◌, List, ◌∷◌}
use mathlib.Core.Path.{subst, sym}
use poireau.Exec.{done}
use poireau.Exec.Returns
use poireau.Exec.Returns.{Returns, normally}
use poireau.Kernel.{Kernel, KernelLaws}
use poireau.Probe.{Probe}
use poireau.Sample.{Entropy, Doubles}
use poireau.TrackedAlloc.{Tracker, TrackedAllocInfo, tracked_alloc_p}
use poireau.TrackedAlloc.Invariant.{view, IsValid}
use poireau.TrackedAlloc.Lookup.{tracked_alloc_p-view, tracked_alloc_info-live, view-IsLive}
use poireau.TrackedAlloc.Put.{Puts, tracked_alloc_put-Puts, live_below, live_sized}
use poireau.Shim.Lift.{tracking_then, tracking-Returns}
use poireau.Shim.{Host, Target, Process, base_free, sampled_free, free, traced_put}

module _ (k : Kernel) where
  -- A tracepoint changes nothing that the invariant speaks of.
  pub probe-IsValid :
      {t : Tracker k} (probes : List Probe) → IsValid k t → IsValid k (record t { probes = probes })
  probe-IsValid probes v = record {
    counter_pos = v.counter_pos;
    counter_fits = v.counter_fits;
    entry = v.entry;
    below = v.below;
    sized = v.sized;
    named = v.named;
    issued = v.issued;
    dead = v.dead;
    distinct = v.distinct;
    mapped = v.mapped;
    apart = v.apart;
  }

-- The tracepoint and the release of a live allocation.
pub traced_put-Puts :
    (k : Kernel) (laws : KernelLaws k) (t : Tracker k) (ptr : ℕ) (info : TrackedAllocInfo)
    → IsValid k t
    → ptr < 2 ^ 47
    → view k t ptr ≡ some info
    → Returns (λ _ u. IsValid k u × Puts k ptr info t u) (traced_put k ptr t)
unfolding traced_put
traced_put-Puts k laws t ptr info v below tracked =
    rw (tracked_alloc_info-live k t ptr info below (view-IsLive k t ptr info tracked)) (
      Returns.weaken
        (tracked_alloc_put-Puts k laws
          (record t { probes = Probe.free info.id ptr info.size ∷ t.probes }) ptr info
          (probe-IsValid k _ v) tracked)
        λ _ u (valid, puts). (
          valid,
          record { gone = puts.gone; counter = puts.counter; view_after = puts.view_after },
        ))

module _ (k : Kernel) (laws : KernelLaws k) (e : Entropy) (d : Doubles) (h : Host k) (rounds : ℕ)
    (p : Process k e) (v : IsValid k p.tracker) where
  -- With a valid tracker and a patched `base_free`, a pointer that is no live tracked allocation
  -- goes to the underlying `free`, and nothing else changes.
  pub free_regular :
      (fuel ptr : ℕ)
      → ptr < 2 ^ 47
      → view k p.tracker ptr ≡ none
      → p.loader.base_free ≡ Target.real
      → free k e d h rounds (suc fuel) ptr p
        ≡ done tt (record p { tracker = record p.tracker { os = h.free ptr p.tracker.os } })
  unfolding free base_free
  free_regular fuel ptr below untracked patched =
      let no_entry : tracked_alloc_p k ptr p.tracker ≡ done false p.tracker =
        rw (tracked_alloc_p-view k p.tracker ptr v below, untracked) in
      tracking_then k e d h rounds _ p (tracked_alloc_p k ptr) false p.tracker no_entry ∙ rw patched

  -- With a valid tracker, `free` of a live tracked allocation returns, and the tracker stays
  -- valid: its pages are unmapped, it is no live pointer any more, all others stay, and the
  -- sampler is not touched.
  pub free_tracked :
      (fuel ptr : ℕ) (info : TrackedAllocInfo)
      → view k p.tracker ptr ≡ some info
      → Returns
          (λ _ q.
            IsValid k q.tracker × Puts k ptr info p.tracker q.tracker × (q.sampler ≡ p.sampler))
          (free k e d h rounds (suc fuel) ptr p)
  unfolding free sampled_free
  free_tracked fuel ptr info tracked =
      let live = view-IsLive k p.tracker ptr info tracked in
      let below : ptr < 2 ^ 47 =
        omega
          (arith, live_below k p.tracker v ptr info live, live_sized k p.tracker v ptr info live) in
      let entry : tracked_alloc_p k ptr p.tracker ≡ done true p.tracker =
        rw (tracked_alloc_p-view k p.tracker ptr v below, tracked) in
      subst (Returns _)
        (sym (tracking_then k e d h rounds _ p (tracked_alloc_p k ptr) true p.tracker entry))
        (tracking-Returns k e d h rounds p (traced_put k ptr)
          (traced_put-Puts k laws p.tracker ptr info v below tracked)
          λ _ t (valid, puts). (valid, puts, refl))

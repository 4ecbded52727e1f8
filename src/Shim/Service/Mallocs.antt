-- ===== src/Shim/Service/Mallocs.antt =====
-- `malloc` and `calloc` as parts of any history of calls.
use poireau.Prelude.{
  ℕ, suc, ◌+◌, ◌*◌, ◌%◌, ◌^◌, ◌<◌, ◌≡◌, inl, inr, refl, arith, leb, Bool-cases, Option-cases,
}
use poireau.Word.{sub64, two64}
use poireau.Exec.{Exec}
use poireau.Exec.Ends.{Ends, ends, searches}
use poireau.Exec.Ends
use poireau.Kernel.{Kernel, KernelLaws}
use poireau.Probe.{Probe}
use poireau.Sample.{Entropy, Doubles, sample_request}
use poireau.Sample.Reset.{
  redraw, redraw-pos, at_threshold, at_threshold-IsSeeded, sample_request_reset-redraw,
}
use poireau.TrackedAlloc.{probe}
use poireau.Shim.{
  Host, Process, malloc, sampled_malloc, calloc, sampled_calloc, traced_get, tracking,
}
use poireau.Shim.Lift.{tracking-Returns}
use poireau.Shim.Malloc.{traced_get-Traced}
use poireau.Shim.Service.{
  Bookkeeping, Ledger, Sound, HostLaws, Changes, Answers, Unlucky, IsFit, Serves,
}
use poireau.Shim.Service.Steps.{Since-refl, host-Since, probe-Since}
use poireau.Shim.Service.Given.{fresh-Since, all-Owned, answers-Given}
use poireau.Shim.Service.Patched.{base_malloc-real, base_calloc-real}

module _ (k : Kernel) (own : Bookkeeping k) (laws : KernelLaws k) (e : Entropy) (d : Doubles)
    (h : Host k) (hosts : HostLaws k own h) (rounds : ℕ) (l : Ledger) where
  abbrev Mallocs : (request : ℕ) → Process k e → ℕ → Process k e → Type 0
  Mallocs request p = Serves k own e 0 request l p.tracker

  -- The process after `sample_request`.
  abbrev pub charged : Process k e → ℕ → Process k e
  charged p request = record p {
    sampler = record p.sampler {
      state =
          at_threshold e d p.sampler.state (sub64 p.sampler.state.bytes_until_next_sample request);
    };
  }

  -- What the underlying allocator leaves.
  pub host-Serves :
      (ptr ret request : ℕ) (p : Process k e) (s : k.State) (l' : Ledger)
      → Sound k own l p.tracker
      → IsFit k own e p
      → Changes k own l l' p.tracker.os s
      → Answers k own ptr ret request l l'
      → Serves k own e ptr request l p.tracker ret
          (record p { tracker = record p.tracker { os = s } })
  host-Serves ptr ret request p s l' sound fit changes answers =
      let since =
        host-Since k own ptr l l p.tracker p.tracker (Since-refl k own ptr l p.tracker sound) l' s
          p.tracker.probes changes answers.others in
      (
        l',
        (since, record { ready = fit.ready; seeded = fit.seeded }),
        answers-Given k own ptr ret request l l' p.tracker (record p.tracker { os = s }) since.sound
            since.keeps answers,
      )

  pub traced_get-Serves :
      (tracepoint : ℕ → ℕ → Probe) (request : ℕ) (p : Process k e)
      → Sound k own l p.tracker
      → IsFit k own e p
      → 0 < request
      → p.tracker.alloc_id_counter + 1 < 2 ^ 64
      → Ends
          (Mallocs request p)
          (Unlucky e d rounds)
          (tracking k e d h rounds (traced_get k tracepoint request) p)
  traced_get-Serves tracepoint request p sound fit pos room = Ends.of_Returns (
      tracking-Returns k e d h rounds p (traced_get k tracepoint request)
        (traced_get-Traced k laws tracepoint request p.tracker sound.valid pos room)
        λ ret u (id, answer, _).
          let (since, given) =
            fresh-Since k own 0 l l p.tracker p.tracker (Since-refl k own 0 l p.tracker sound) ret
              id request u pos answer in
          (l, (since, record { ready = fit.ready; seeded = fit.seeded }), given))

  -- `sampled_malloc`, with a seeded generator.
  pub sampled_malloc-Serves :
      (again : ℕ → Exec (Process k e) ℕ) (request : ℕ) (p : Process k e)
      → Sound k own l p.tracker
      → IsFit k own e p
      → 0 < request
      → p.tracker.alloc_id_counter + 1 < 2 ^ 64
      → Ends
          (Mallocs request p)
          (Unlucky e d rounds)
          (sampled_malloc k e d h rounds again request p)
  unfolding sampled_malloc
  sampled_malloc-Serves again request p sound fit pos room =
      let drawn = sample_request_reset-redraw e d rounds p.sampler fit.seeded in
      elim (Option-cases (redraw e d rounds rounds p.sampler.state)) [
        | inl missing ↦ rw (drawn, missing) (searches (p.sampler.state, fit.seeded, missing))
        | inr (st, found) ↦
            let seeded = (redraw-pos e d rounds rounds p.sampler.state st fit.seeded found).1 in
            rw (drawn, found)
              (traced_get-Serves (λ id ret. Probe.malloc id ret request) request
                (record p { sampler = record p.sampler { state = st } }) sound
                (record { ready = fit.ready; seeded = seeded }) pos room)
      ]

  -- With the laws of the kernel and of the underlying allocator, which speak of the blocks and
  -- the memory that its own bookkeeping records, from a process whose pointers are patched, whose
  -- generator is seeded, whose tracker is valid and apart from that memory, and in which the
  -- bookkeeping is right, and whose counter is not at its end, `malloc` of at least one byte,
  -- sampled or not, ends, unless there is a seeded generator from which no threshold is found
  -- within the rounds: with NULL, or with a pointer that was neither tracked nor a block before,
  -- to a tracked allocation of the request or to a block with room for it; nothing is lost, and
  -- the process is such a process again.
  pub malloc-Serves :
      (fuel request : ℕ) (p : Process k e)
      → Sound k own l p.tracker
      → IsFit k own e p
      → 0 < request
      → p.tracker.alloc_id_counter + 1 < 2 ^ 64
      → Ends (Mallocs request p) (Unlucky e d rounds) (malloc k e d h rounds (suc fuel) request p)
  unfolding malloc sample_request
  malloc-Serves fuel request p sound fit pos room =
      let left = p.sampler.state.bytes_until_next_sample in
      let counted = at_threshold-IsSeeded e d p.sampler.state (sub64 left request) fit.seeded in
      let fit' : IsFit k own e (charged p request) = record {
        ready = fit.ready;
        seeded = counted;
      } in
      elim (Bool-cases (leb left request)) [
        | inl sampled ↦ rw sampled (
            sampled_malloc-Serves (malloc k e d h rounds fuel) request (charged p request) sound
              fit' pos room)
        | inr regular ↦
            let (l', changes, answers) = hosts.malloc request l p.tracker.os (all-Owned sound) in
            rw
              (
                regular,
                base_malloc-real k e d h rounds (malloc k e d h rounds fuel) request
                    (charged p request) fit.ready.malloc,
              )
              (ends (host-Serves 0 _ request (charged p request) _ l' sound fit' changes answers))
      ]

  -- With those laws and from such a process whose counter is not at its end, `calloc` of at least
  -- one byte in all, sampled or not, with or without an overflow of the product, ends, unless
  -- there is a seeded generator from which no threshold is found within the rounds: with NULL, or
  -- with a pointer that was neither tracked nor a block before, to a tracked allocation of the
  -- product or to a block with room for it; nothing is lost, and the process is such a process
  -- again.
  pub calloc-Serves :
      (fuel num size : ℕ) (p : Process k e)
      → Sound k own l p.tracker
      → IsFit k own e p
      → 0 < num * size
      → p.tracker.alloc_id_counter + 1 < 2 ^ 64
      → Ends
          (Mallocs (num * size) p)
          (Unlucky e d rounds)
          (calloc k e d h rounds (suc fuel) num size p)
  unfolding calloc sampled_calloc sample_request probe
  calloc-Serves fuel num size p sound fit pos room = elim (Bool-cases (leb two64 (num * size))) [
    | inl over ↦
        let drawn = sample_request_reset-redraw e d rounds p.sampler fit.seeded in
        elim (Option-cases (redraw e d rounds rounds p.sampler.state)) [
          | inl missing ↦
              rw (over, drawn, missing) (searches (p.sampler.state, fit.seeded, missing))
          | inr (st, found) ↦
              let seeded = (redraw-pos e d rounds rounds p.sampler.state st fit.seeded found).1 in
              rw (over, drawn, found)
                (ends (
                  l,
                  (
                    probe-Since k own 0 l l p.tracker p.tracker
                        (Since-refl k own 0 l p.tracker sound) _,
                    record { ready = fit.ready; seeded = seeded },
                  ),
                  inl refl,
                ))
        ]
    | inr small ↦
        let request = num * size in
        let exact : request % two64 ≡ request = ground arith in
        let left = p.sampler.state.bytes_until_next_sample in
        let counted = at_threshold-IsSeeded e d p.sampler.state (sub64 left request) fit.seeded in
        let fit' : IsFit k own e (charged p request) = record {
          ready = fit.ready;
          seeded = counted;
        } in
        elim (Bool-cases (leb left request)) [
          | inr regular ↦
              let (l', changes, answers) =
                hosts.calloc 1 request l p.tracker.os (all-Owned sound) in
              let one_block : 1 * request ≡ request = omega arith in
              rw
                (
                  small,
                  exact,
                  regular,
                  base_calloc-real k e d h rounds (calloc k e d h rounds fuel) 1 request
                      (charged p request) fit.ready.calloc,
                )
                (ends (
                  host-Serves 0 _ request (charged p request) _ l' sound fit' changes
                    (rw one_block at answers)))
          | inl sampled ↦
              let st0 = at_threshold e d p.sampler.state (sub64 left request) in
              let drawn =
                sample_request_reset-redraw e d rounds (record p.sampler { state = st0 }) counted in
              elim (Option-cases (redraw e d rounds rounds st0)) [
                | inl missing ↦
                    rw (small, exact, sampled, drawn, missing) (searches (st0, counted, missing))
                | inr (st, found) ↦
                    let seeded = (redraw-pos e d rounds rounds st0 st counted found).1 in
                    rw (small, exact, sampled, drawn, found)
                      (traced_get-Serves (λ id ret. Probe.calloc num size id ret request) request
                        (record p { sampler = record p.sampler { state = st } }) sound
                        (record { ready = fit.ready; seeded = seeded }) pos room)
              ]
        ]
  ]

-- ===== src/TrackedAlloc/Tasks/Getting.antt =====
-- The operations of `tracked_alloc_get`.
use poireau.Prelude.{
  ℕ, ◌+◌, ◌-◌, ◌%◌, ◌^◌, ◌≤◌, ◌≡◌, inl, inr, true, false, ltb, ◌==◌, arith, ℕ-cases, Bool-cases,
  Option-cases, refl, bit_and,
}
use poireau.Word.{add64, sub64, neg64}
use poireau.Word.Align.{gigabyte_down}
use poireau.Exec.Returns
use poireau.Exec.Returns.{Returns, normally}
use poireau.Kernel.{Kernel, KernelLaws}
use poireau.TrackedAlloc.{
  Tracker, ssize_max, round_to_page, probe, mmap, anonymous_private, mmap_hint,
}
use poireau.TrackedAlloc.Pages.{pages, round_to_page-eq-pages}
use poireau.TrackedAlloc.Mapping.{munmap_checked-Unmapping}
use poireau.TrackedAlloc.Invariant.{slot}
use poireau.TrackedAlloc.Tasks.{
  get_start, get_map, get_front, get_back, get_chunk, get_id, get_size, advance,
}
use poireau.TrackedAlloc.Tasks.Invariant.{Local, next_gigabyte}
use poireau.TrackedAlloc.Tasks.Own.{
  Own, Succeeds, slot_inside, quiet, loads, unmaps, writes, exchanges,
}

module _ (k : Kernel) (laws : KernelLaws k) where
  pub get_start-Succeeds :
      (t : Tracker k) (request : ℕ) → Own k t (get_start request) → Succeeds k t (get_start request)
  unfolding advance
  get_start-Succeeds t request o =
      let next : add64 t.alloc_id_counter 1 ≡ t.alloc_id_counter + 1 = omega (arith, o.room) in
      rw next (
        normally (record {
          counter_grows = omega arith;
          ahead = ground arith;
          ids = inr (inr (refl, omega arith));
          own_locals = (o.locals, o.counter_pos);
          elsewhere = λ n differ. record { table = refl; info = refl };
          kept = λ x is_mapped _. is_mapped;
          mine = λ x mine. absurd (ground arith);
          origin = λ x mine. absurd (ground arith);
          entries = λ n live. inr (live, λ has. omega (arith, has.0));
        }))

  pub get_map-Succeeds :
      (t : Tracker k) (id request : ℕ)
      → Own k t (get_map id request)
      → Succeeds k t (get_map id request)
  unfolding advance probe mmap
  get_map-Succeeds t id request o = elim (Bool-cases (ltb ssize_max request)) [
    | inl huge ↦ rw huge (normally (loads k o tt refl refl refl (ground arith)))
    | inr fits ↦
        let rounded : round_to_page request ≡ pages request =
          round_to_page-eq-pages request (ground arith) in
        let padded : add64 (pages request) (2 ^ 30) ≡ pages request + 2 ^ 30 = ground arith in
        let n : ℕ = pages request + 2 ^ 30 in
        let result = k.mmap (mmap_hint id) n anonymous_private t.os in
        rw (fits, rounded, padded)
          (elim (Option-cases result.0) [
            | inl failed ↦
                let same = laws.mmap_failed (mmap_hint id) n anonymous_private t.os failed in
                rw failed
                  (normally (quiet k o refl refl same.mapped refl tt refl refl refl (ground arith)))
            | inr (b, got) ↦
                let (at_page, not_null, below) =
                  laws.mmap_place (mmap_hint id) n anonymous_private t.os b got (omega arith) in
                let f =
                  laws.mmap_fresh (mmap_hint id) n anonymous_private t.os b got (omega arith)
                    (omega arith) in
                rw got (
                  normally (record {
                    counter_grows = omega arith;
                    ahead = ground arith;
                    ids = inr (inl refl);
                    own_locals = (o.locals.0, o.locals.1, (ground arith, at_page, not_null, below));
                    elsewhere = λ n differ. record { table = refl; info = refl };
                    kept = λ x is_mapped other. ground (arith, f.mapped x);
                    mine = λ x mine. ground (arith, f.mapped x);
                    origin = λ x mine. inr (f.free x mine);
                    entries = λ n live. inr (live, λ has. omega (arith, has.0));
                  }))
          ])
  ]

  chunk_at-eq-next :
      (b : ℕ) → b + 2 ^ 30 ≤ 2 ^ 47 → bit_and (add64 b (2 ^ 30)) (neg64 (2 ^ 30)) ≡ next_gigabyte b
  chunk_at-eq-next b h = omega (arith, gigabyte_down (add64 b (2 ^ 30)) (omega arith))

  pub get_front-Succeeds :
      (t : Tracker k) (id request b : ℕ)
      → Own k t (get_front id request b)
      → Succeeds k t (get_front id request b)
  unfolding advance
  get_front-Succeeds t id request b o =
      let (pos, named, padded) = o.locals in
      let (fits, at_page, not_null, below) = padded in
      let n : ℕ = 2 ^ 30 - b % 2 ^ 30 in
      let moved : (next_gigabyte b == b) ≡ false = ground arith in
      let front : sub64 (next_gigabyte b) b ≡ n = omega arith in
      rw (chunk_at-eq-next b (omega arith), moved, front)
        (Returns.bind
          (munmap_checked-Unmapping k laws b n t at_page (omega arith) (omega arith) (omega arith))
          λ _ u (gone, same). normally (
            unmaps k o b n gone same o.locals (λ x cut. ground arith) (λ x rest. ground arith) refl
              (ground arith)))

  pub get_back-Succeeds :
      (t : Tracker k) (id request b : ℕ)
      → Own k t (get_back id request b)
      → Succeeds k t (get_back id request b)
  unfolding advance
  get_back-Succeeds t id request b o =
      let (pos, named, padded) = o.locals in
      let (fits, at_page, not_null, below) = padded in
      let m : ℕ = b % 2 ^ 30 in
      let p : ℕ = next_gigabyte b in
      let rounded : round_to_page request ≡ pages request =
        round_to_page-eq-pages request (omega arith) in
      let chunk_end : add64 p (pages request) ≡ p + pages request = omega arith in
      let map_end : add64 b (add64 (pages request) (2 ^ 30)) ≡ p + pages request + m =
        omega arith in
      let chunk_found : (p == 0) ≡ false = ground arith in
      let local : Local k t (get_chunk id request p) =
        (named, (omega arith, omega arith, pos, omega arith)) in
      rw (chunk_at-eq-next b (omega arith), rounded, chunk_end, map_end, chunk_found)
        (elim (ℕ-cases m 0) [
          | inl none_left ↦
              let ends : (p + pages request == p + pages request + m) ≡ true = ground arith in
              rw ends (normally (loads k o local refl (omega arith) refl (ground arith)))
          | inr some_left ↦
              let goes_on : (p + pages request == p + pages request + m) ≡ false = ground arith in
              let back : sub64 (p + pages request + m) (p + pages request) ≡ m = omega arith in
              rw (goes_on, back)
                (Returns.bind
                  (munmap_checked-Unmapping k laws (p + pages request) m t (omega arith)
                    (omega arith) (omega arith) (omega arith))
                  λ _ u (gone, same). normally (
                    unmaps k o (p + pages request) m gone same local (λ x cut. ground arith)
                      (λ x rest. ground arith) refl (ground arith)))
        ])

  -- The store of both parts of an entry of `info_table`, and the exchange in the other table.
  pub get_chunk-Succeeds :
      (t : Tracker k) (id request p : ℕ)
      → Own k t (get_chunk id request p)
      → Succeeds k t (get_chunk id request p)
  unfolding advance
  get_chunk-Succeeds t id request p o =
      let (pos, place) = o.locals in
      rw (slot_inside p (omega (arith, place)))
        (normally (writes k o _ (pos, place, ground arith) refl refl refl (ground arith)))

  pub get_id-Succeeds :
      (t : Tracker k) (id request p : ℕ)
      → Own k t (get_id id request p)
      → Succeeds k t (get_id id request p)
  unfolding advance
  get_id-Succeeds t id request p o =
      let (pos, place, named) = o.locals in
      rw (slot_inside p (omega (arith, place))) (
        normally
          (writes k o _ (pos, place, ground arith, ground arith) refl refl refl (ground arith)))

  pub get_size-Succeeds :
      (t : Tracker k) (id request p : ℕ)
      → Own k t (get_size id request p)
      → Succeeds k t (get_size id request p)
  unfolding advance
  get_size-Succeeds t id request p o =
      let (pos, place, named, sized) = o.locals in
      let unused : t.tracked_alloc_table (slot p) ≡ 0 = ground (arith, o.listed place.1, place) in
      rw (slot_inside p (omega (arith, place)), unused)
        (normally (
          exchanges k o p ((ground arith, ground arith, ground arith), named) refl (ground arith)
            place.0 (inl refl) refl (inr refl) (ground arith)))

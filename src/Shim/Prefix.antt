-- ===== src/Shim/Prefix.antt =====
-- `safe_copy`: what it copies. The source may be readable in part only.
use poireau.Prelude.{
  ℕ, zero, suc, ◌+◌, ◌-◌, ◌%◌, ◌^◌, ◌≤◌, ◌<◌, ◌≡◌, refl, true, false, Option, none, some, ltb, leb,
  ◌==◌, arith, Bool-cases, Option-cases, inl, inr, min,
}
use poireau.Word.{add64}
use poireau.Exec.Returns.{Returns, normally}
use poireau.Kernel.{Kernel}
use poireau.Sample.{Entropy, Doubles}
use poireau.Shim.{Host, Process, safe_copy_one_chunk, copied_all, copy_pages, copy_rest, safe_copy}
use poireau.Shim.Copy.{OnlyMemory}
use poireau.Shim.Reading.{
  ReadLaws, CanRead, Copied, read, read_start, read_keeps, must_read, read_extends, finished,
}

module _ (k : Kernel) (e : Entropy) (d : Doubles) (h : Host k) (laws : ReadLaws k h) (rounds : ℕ)
    (dst src request m room : ℕ) (s : k.State) (can : CanRead k dst src request m room s) where
  abbrev Fills : (before after : Process k e) → Type 0
  Fills p q = OnlyMemory k e d h rounds p q × Copied k dst src m room s q.tracker.os

  whole_chunk :
      (r : Option ℕ) (size : ℕ)
      → copied_all k e d h rounds r size ≡ true
      → size < 2 ^ 63
      → r ≡ some size
  whole_chunk none size test small = ground arith
  whole_chunk (some n) size test small = ground arith

  -- A chunk that is not copied in full reaches further than the source can be read.
  cut_short :
      (c size : ℕ) (t : k.State)
      → Copied k dst src (min c m) room s t
      → c + size ≤ room
      → copied_all k e d h rounds (read k h laws dst src request m room s can c size t).0 size
        ≡ false
      → m < c + size
  cut_short c size t done inside stopped = elim (Bool-cases (leb (c + size) m)) [
    | inr short ↦ ground arith
    | inl far ↦
        let read_all =
          must_read k h laws dst src request m room s can c size t done inside (ground arith) in
        absurd (clash read_all stopped)
  ]
    where
      clash : {o : Option ℕ} → o ≡ some size → copied_all k e d h rounds o size ≡ false → ⊥
      clash {o} is_some failed =
          let whole : copied_all k e d h rounds o size ≡ true = rw is_some (ground arith) in
          ground arith

  page_end_reached :
      (c size : ℕ) → m < c + size → (src + c) % 4096 ≡ 0 → size ≡ min (request - c) 4096 → m ≤ c
  page_end_reached c size short here chunk = elim can.boundary [
    | inl all ↦ ground arith
    | inr page ↦ ground arith
  ]

  copy_pages-Fills :
      (fuel c : ℕ) (p : Process k e)
      → request - c < fuel
      → (c < request → (src + c) % 4096 ≡ 0)
      → Copied k dst src (min c m) room s p.tracker.os
      → Returns (λ _ q. Fills p q) (copy_pages k e d h rounds fuel c dst src request p)
  unfolding copy_pages safe_copy_one_chunk
  copy_pages-Fills zero c p enough aligned done = absurd (omega arith)
  copy_pages-Fills (suc fuel) c p enough aligned done = elim (Bool-cases (ltb c request)) [
    | inr all_done ↦ rw all_done (
        normally (
          (p.tracker.os, refl),
          finished k h laws dst src request m room s can c (ground (arith, can.prefix)) done,
        ))
    | inl more ↦
        let here : (src + c) % 4096 ≡ 0 = aligned (ground arith) in
        let size = min (request - c) 4096 in
        let ok : (add64 src c % 4096 == 0) ≡ true = ground (arith, aligned, can.src_below) in
        let to : add64 dst c ≡ dst + c = ground (arith, can.dst_below, can.enough) in
        let from : add64 src c ≡ src + c = ground (arith, can.src_below) in
        let inside : c + size ≤ room = ground (arith, can.enough) in
        let r = read k h laws dst src request m room s can c size p.tracker.os in
        rw (more, ok, to, from)
          (elim (Bool-cases (copied_all k e d h rounds r.0 size)) [
            | inr stopped ↦ rw stopped (
                normally (
                  (r.1, refl),
                  finished k h laws dst src request m room s can c
                      (page_end_reached c size (cut_short c size p.tracker.os done inside stopped)
                        here (ground arith))
                      (read_keeps k h laws dst src request m room s can c size p.tracker.os done
                        inside),
                ))
            | inl whole ↦
                let next : add64 c size ≡ c + size = ground (arith, can.src_below) in
                rw (whole, next)
                  (copy_pages-Fills fuel (c + size) _ (ground arith)
                    (λ less. ground (arith, aligned))
                    (read_extends k h laws dst src request m room s can c size p.tracker.os done
                      inside (whole_chunk r.0 size whole (ground arith))))
          ])
  ]

  copy_rest-Fills :
      (fuel : ℕ) (p : Process k e)
      → request < fuel
      → m < request
      → Copied k dst src (min 0 m) room s p.tracker.os
      → Returns (λ _ q. Fills p q) (copy_rest k e d h rounds fuel dst src request p)
  unfolding copy_rest safe_copy_one_chunk
  copy_rest-Fills fuel p enough short none_yet =
      let size = 4096 - src % 4096 in
      let ok : (add64 src size % 4096 == 0) ≡ true = ground (arith, can.src_below) in
      let inside : 0 + size ≤ room = omega (arith, can.page) in
      let r = read k h laws dst src request m room s can 0 size p.tracker.os in
      let start = read_start k h laws dst src request m room s can size p.tracker.os in
      let from_start : 0 + size ≡ size = omega arith in
      rw (← start) (elim (Bool-cases (copied_all k e d h rounds r.0 size)) [
        | inr stopped ↦ rw stopped (
            normally (
              (r.1, refl),
              finished k h laws dst src request m room s can 0
                  (first_page size (cut_short 0 size p.tracker.os none_yet inside stopped) refl)
                  (read_keeps k h laws dst src request m room s can 0 size p.tracker.os none_yet
                    inside),
            ))
        | inl whole ↦
            rw (whole, ok)
              (copy_pages-Fills fuel size _ (omega arith) (λ less. omega arith)
                (rw from_start at (
                  read_extends k h laws dst src request m room s can 0 size p.tracker.os none_yet
                    inside (whole_chunk r.0 size whole (omega arith)))))
      ])
    where
      first_page : (size : ℕ) → m < 0 + size → size ≡ 4096 - src % 4096 → m ≤ 0
      first_page size less chunk = elim can.boundary [
        | inl all ↦ absurd (omega arith)
        | inr page ↦ omega arith
      ]

module _ (k : Kernel) (e : Entropy) (d : Doubles) (h : Host k) (laws : ReadLaws k h)
    (rounds : ℕ) where
  -- If `process_vm_readv` reads all or nothing, `safe_copy` returns and copies the first m bytes
  -- of a source that can be read so far, to the end of a page or of the request; nothing changes
  -- but the memory, and of that nothing outside the room at the destination. The room holds the
  -- request and a page, and is in front of the source, or behind its first m bytes with an
  -- unmapped byte between them.
  pub safe_copy-Copied :
      (dst src request m room : ℕ) (p : Process k e)
      → CanRead k dst src request m room p.tracker.os
      → Returns
          (λ _ q. OnlyMemory k e d h rounds p q × Copied k dst src m room p.tracker.os q.tracker.os)
          (safe_copy k e d h rounds (suc request) dst src request p)
  unfolding safe_copy safe_copy_one_chunk
  safe_copy-Copied dst src request m room p can =
      let s = p.tracker.os in
      let inside : 0 + request ≤ room = omega (arith, can.enough) in
      let none_yet : Copied k dst src (min 0 m) room s s = record {
        bytes = λ i less. ground arith;
        outside = λ x far. refl;
        mapped = λ x. refl;
      } in
      let r = read k h laws dst src request m room s can 0 request s in
      let start = read_start k h laws dst src request m room s can request s in
      let kept : Copied k dst src (min 0 m) room s r.1 =
        (read_keeps k h laws dst src request m room s can 0 request s none_yet inside) in
      let few : request < 2 ^ 63 = omega (arith, can.src_below) in
      rw (← start) (elim (Bool-cases (copied_all k e d h rounds r.0 request)) [
        | inl whole ↦
            let all : r.0 ≡ some request =
              whole_chunk k e d h laws rounds dst src request m room s can r.0 request whole few in
            rw whole (
              normally (
                (r.1, refl),
                finished k h laws dst src request m room s can (0 + request)
                    (omega (arith, can.prefix))
                    (read_extends k h laws dst src request m room s can 0 request s none_yet inside
                      all),
              ))
        | inr part ↦
            let short : m < 0 + request =
              cut_short k e d h laws rounds dst src request m room s can 0 request s none_yet inside
                part in
            elim (Option-cases r.0) [
              | inl failed_copy ↦
                  rw (part, failed_copy)
                    (copy_rest-Fills k e d h laws rounds dst src request m room s can (suc request)
                      _ (omega arith) (omega arith) kept)
              | inr (n, some_bytes) ↦
                  let all : n ≡ request = laws.whole (dst + 0) (src + 0) request s n some_bytes in
                  let test : (n == request) ≡ false = rw some_bytes at part in ground arith
            ]
      ])

-- ===== src/TrackedAlloc/Mapping.antt =====
-- `aligned_mmap` and `aligned_munmap`: the chunk that is cut out of a padded mapping.
use poireau.Prelude.{
  ℕ, ◌+◌, ◌-◌, ◌%◌, ◌^◌, ◌≤◌, ◌<◌, ◌≡◌, ◌⊎◌, inl, inr, refl, true, false, arith, ◌==◌, Bool-cases,
  Option-cases, ℕ-cases, ◌≢◌, ◌∙◌, if◌then◌else◌, ltb, bit_and,
}
use poireau.Word.{add64, sub64, neg64}
use poireau.Word.Align.{gigabyte_down, gigabyte_low}
use poireau.Exec.{pure, ◌>>◌}
use poireau.Exec.Returns
use poireau.Exec.Returns.{Returns, normally}
use poireau.Kernel.{Kernel, KernelLaws, SameMemory, FreshMapping, Unmapping}
use poireau.Kernel.Cut.{cut_head, cut_tail}
use poireau.TrackedAlloc.{
  Tracker, tracking_alignment, round_to_page, munmap_checked, probe, trim, aligned_mmap,
  aligned_munmap, ssize_max, anonymous_private, mmap_hint,
}
use poireau.TrackedAlloc.Pages.{pages, round_to_page-eq-pages}

module _ (k : Kernel) where
  -- Two states that differ at most in the kernel's state and the tracepoints passed.
  pub record SameTables (before after : Tracker k) : Type 0 where
    pub counter : after.alloc_id_counter ≡ before.alloc_id_counter
    pub table : after.tracked_alloc_table ≡ before.tracked_alloc_table
    pub info : after.info_table ≡ before.info_table

  -- `p` is a chunk of `len` bytes at a multiple of 1 GB that was free before, and so was the
  -- address in front of it.
  pub record IsChunk (len p : ℕ) (before after : Tracker k) : Type 0 where
    pub aligned : p % 2 ^ 30 ≡ 0
    pub not_null : 0 < p
    pub below : p + len ≤ 2 ^ 47
    pub gap : k.mapped before.os (p - 1) ≡ false
    pub fresh : FreshMapping k p len before.os after.os
    pub tables : SameTables before after

  SameTables-trans : {s t u : Tracker k} → SameTables s t → SameTables t u → SameTables s u
  SameTables-trans a b = record {
    counter = b.counter ∙ a.counter;
    table = b.table ∙ a.table;
    info = b.info ∙ a.info;
  }

  -- What `aligned_mmap` leaves: NULL and nothing changed, or a fresh chunk.
  abbrev pub Placed : (size p : ℕ) → (before after : Tracker k) → Type 0
  Placed size p before after =
      ((p ≡ 0) × SameMemory k before.os after.os × SameTables before after)
      ⊎ IsChunk (pages size) p before after

  pub Placed-tables : (size p : ℕ) {s u : Tracker k} → Placed size p s u → SameTables s u
  Placed-tables size p (inl (_, _, same)) = same
  Placed-tables size p (inr c) = c.tables

  -- Only the kernel's state and the tracepoints are new.
  pub SameTables-eq :
      {s u : Tracker k} → SameTables s u → u ≡ record s { os = u.os; probes = u.probes }
  SameTables-eq {u} same = λ i. record {
    os = u.os;
    alloc_id_counter = same.counter i;
    tracked_alloc_table = same.table i;
    info_table = same.info i;
    probes = u.probes;
  }

module _ (k : Kernel) (laws : KernelLaws k) where
  pub munmap_checked-Unmapping :
      (addr len : ℕ) (t : Tracker k)
      → addr % 4096 ≡ 0
      → 0 < len
      → len % 4096 ≡ 0
      → addr + len ≤ 2 ^ 47
      → Returns
          (λ _ u. Unmapping k addr len t.os u.os × SameTables k t u)
          (munmap_checked k addr len t)
  unfolding munmap_checked
  munmap_checked-Unmapping addr len t a b c d =
      let (succeeds, gone) = laws.munmap_ok addr len t.os a b c d in
      rw succeeds (normally (gone, record { counter = refl; table = refl; info = refl }))

  -- The chunk is the aligned part of a padded mapping, and the slop on both sides is given back.
  -- `n` is the length of the slop in front, which is never empty.
  trim_run :
      (b len n : ℕ)
      → n ≡ 2 ^ 30 - b % 2 ^ 30
      → b + (len + 2 ^ 30) ≤ 2 ^ 47
      → trim k b (len + 2 ^ 30) len (2 ^ 30) ≡ (do
        munmap_checked k b n
        if b + n + len == b + (len + 2 ^ 30)
            then pure tt
            else munmap_checked k (b + n + len) (2 ^ 30 - n)
        pure (b + n))
  unfolding trim
  trim_run b len n e d = rw (begins, misaligned, front, ends, last, back)
    where
      begins : bit_and (add64 b (2 ^ 30)) (neg64 (2 ^ 30)) ≡ b + n
      begins = omega (arith, gigabyte_down (add64 b (2 ^ 30)) (omega arith))

      misaligned : (b + n == b) ≡ false
      misaligned = ground arith

      front : sub64 (b + n) b ≡ n
      front = omega arith

      ends : add64 (b + n) len ≡ b + n + len
      ends = omega arith

      last : add64 b (len + 2 ^ 30) ≡ b + (len + 2 ^ 30)
      last = omega arith

      back : sub64 (b + (len + 2 ^ 30)) (b + n + len) ≡ 2 ^ 30 - n
      back = omega arith

  -- The second half of `trim`: `m` bytes of slop follow the chunk.
  trim_back-IsChunk :
      (p len m e : ℕ) (s t : Tracker k)
      → FreshMapping k p (len + m) s.os t.os
      → SameTables k s t
      → p % 2 ^ 30 ≡ 0
      → 0 < p
      → len % 4096 ≡ 0
      → m % 4096 ≡ 0
      → p + (len + m) ≤ 2 ^ 47
      → e ≡ p + (len + m)
      → k.mapped s.os (p - 1) ≡ false
      → Returns
          (λ q u. IsChunk k len q s u)
          ((do if p + len == e then pure tt else munmap_checked k (p + len) m; pure p) t)
  trim_back-IsChunk p len m e s t f same a b c d h i free = elim (ℕ-cases m 0) [
    | inl none_left ↦ rw (ends_here none_left) (
        normally (record {
          aligned = a;
          not_null = b;
          below = omega arith;
          gap = free;
          fresh = rw (exact none_left) at f;
          tables = same;
        }))
    | inr some_left ↦ rw (more some_left) (
        Returns.bind
          (munmap_checked-Unmapping (p + len) m t (omega arith) (omega arith) d (omega arith))
          λ _ u (gone, kept). normally (record {
            aligned = a;
            not_null = b;
            below = omega arith;
            gap = free;
            fresh = cut_tail k p (len + m) len f (rw (left m) gone) (omega arith);
            tables = SameTables-trans k same kept;
          }))
  ]
    where
      ends_here : m ≡ 0 → (p + len == e) ≡ true
      ends_here z = ground arith

      more : m ≢ 0 → (p + len == e) ≡ false
      more z = ground arith

      exact : m ≡ 0 → len + m ≡ len
      exact z = omega arith

      left : (n : ℕ) → len + n - len ≡ n
      left n = omega arith

  trim-IsChunk :
      (b len : ℕ) (s t : Tracker k)
      → FreshMapping k b (len + 2 ^ 30) s.os t.os
      → SameTables k s t
      → b % 4096 ≡ 0
      → len % 4096 ≡ 0
      → b + (len + 2 ^ 30) ≤ 2 ^ 47
      → Returns (λ p u. IsChunk k len p s u) (trim k b (len + 2 ^ 30) len (2 ^ 30) t)
  trim-IsChunk b len s t f same a c d =
      let n : ℕ = 2 ^ 30 - b % 2 ^ 30 in
      let split : len + 2 ^ 30 - n ≡ len + (2 ^ 30 - n) = omega arith in
      rw (trim_run b len n refl d) (
        Returns.bind (munmap_checked-Unmapping b n t a (omega arith) (omega arith) (omega arith))
          λ _ u (gone, kept).
            trim_back-IsChunk (b + n) len (2 ^ 30 - n) (b + (len + 2 ^ 30)) s u
              (rw split at (cut_head k b (len + 2 ^ 30) n f gone (omega arith)))
              (SameTables-trans k same kept) (omega arith) (omega arith) c (omega arith)
              (omega arith) (omega arith) (f.free (b + n - 1) (ground arith)))

  SameTables-refl : {t : Tracker k} (s : k.State) → SameTables k t (record t { os = s })
  SameTables-refl s = record { counter = refl; table = refl; info = refl }

  unchanged : (size : ℕ) {t : Tracker k} → Placed k size 0 t t
  unchanged size = inl (refl, record { mapped = λ x. refl; byte = λ x. refl }, SameTables-refl _)

  -- `aligned_mmap` always returns: NULL with the memory and the tables unchanged, or whole pages
  -- for `size` bytes at a multiple of 1 GB that were free before, and so was the address in front
  -- of them.
  pub aligned_mmap-Placed :
      (id size : ℕ) (t : Tracker k)
      → Returns (λ p u. Placed k size p t u) (aligned_mmap k id size tracking_alignment t)
  unfolding aligned_mmap probe
  aligned_mmap-Placed id size t = elim (Bool-cases (ltb ssize_max size)) [
    | inl huge ↦ rw huge (normally (unchanged size))
    | inr fits ↦
        let rounded : round_to_page size ≡ pages size =
          round_to_page-eq-pages size (ground arith) in
        let padded : add64 (pages size) (2 ^ 30) ≡ pages size + 2 ^ 30 = ground arith in
        let hint = mmap_hint id in
        let len = add64 (round_to_page size) (2 ^ 30) in
        let whole : len ≡ pages size + 2 ^ 30 = rw (rounded, padded) in
        rw fits (elim (Option-cases (k.mmap hint len anonymous_private t.os).0) [
          | inl failed ↦ rw failed (
              normally (
                inl (
                  refl,
                  laws.mmap_failed hint len anonymous_private t.os failed,
                  record { counter = refl; table = refl; info = refl },
                )))
          | inr (b, got) ↦
              let (at_page, not_null, below) =
                laws.mmap_place hint len anonymous_private t.os b got (omega arith) in
              let f =
                laws.mmap_fresh hint len anonymous_private t.os b got (omega arith) (omega arith) in
              rw got (
                rw (whole, rounded)
                  (Returns.weaken
                    (trim-IsChunk b (pages size) t _ (rw whole at f) (SameTables-refl _) at_page
                      (omega arith) (omega arith))
                    λ p u c. inr c))
        ])
  ]

  -- The pages of a live chunk are given back.
  pub aligned_munmap-Unmapping :
      (p size : ℕ) (t : Tracker k)
      → p % 2 ^ 30 ≡ 0
      → 0 < p
      → 0 < size
      → p + pages size ≤ 2 ^ 47
      → Returns
          (λ _ u. Unmapping k p (pages size) t.os u.os × SameTables k t u)
          (aligned_munmap k p size tracking_alignment t)
  unfolding aligned_munmap
  aligned_munmap-Unmapping p size t a b c d =
      let aligned : bit_and p (2 ^ 30 - 1) ≡ 0 = rw gigabyte_low a in
      let not_null : (p == 0) ≡ false = ground arith in
      rw (aligned, not_null, round_to_page-eq-pages size (omega arith))
        (munmap_checked-Unmapping p (pages size) t (omega arith) (omega arith) (omega arith) d)

-- ===== src/Shim/Reading.antt =====
-- One call of `process_vm_readv` inside `safe_copy`, with what is copied already.
use poireau.Prelude.{
  ℕ, ◌+◌, ◌-◌, ◌%◌, ◌^◌, ◌≤◌, ◌<◌, ◌≡◌, ◌⊎◌, ◌∙◌, true, false, Option, some, ltb, leb, arith,
  Bool-cases, inl, inr, min, within,
}
use poireau.Kernel.{Kernel}
use poireau.Shim.{Host}

module _ (k : Kernel) where
  -- What the manual says of `process_vm_readv` with one element: all or nothing; it succeeds
  -- exactly if the source can be read, into room that can be written; and only that is written to.
  pub record ReadLaws (h : Host k) : Type 0 where
    pub whole :
        (dst src n : ℕ) (s : k.State) (r : ℕ) → (h.process_vm_readv dst src n s).0 ≡ some r → r ≡ n
    pub reads :
        (dst src n : ℕ) (s : k.State) (r i : ℕ)
        → (h.process_vm_readv dst src n s).0 ≡ some r
        → i < n
        → k.mapped s (src + i) ≡ true
    pub readable :
        (dst src n : ℕ) (s : k.State)
        → ((i : ℕ) → i < n → k.mapped s (src + i) ≡ true)
        → ((i : ℕ) → i < n → k.mapped s (dst + i) ≡ true)
        → (h.process_vm_readv dst src n s).0 ≡ some n
    pub copied :
        (dst src n : ℕ) (s : k.State) (i : ℕ)
        → (h.process_vm_readv dst src n s).0 ≡ some n
        → (dst + n ≤ src) ⊎ (src + n ≤ dst)
        → i < n
        → k.byte (h.process_vm_readv dst src n s).1 (dst + i) ≡ k.byte s (src + i)
    pub outside :
        (dst src n : ℕ) (s : k.State) (x : ℕ)
        → within dst n x ≡ false
        → k.byte (h.process_vm_readv dst src n s).1 x ≡ k.byte s x
    pub mapped :
        (dst src n : ℕ) (s : k.State) (x : ℕ)
        → k.mapped (h.process_vm_readv dst src n s).1 x ≡ k.mapped s x

  -- The first `m` bytes of the source are mapped, to the end of a page or of the request; the
  -- destination has `room`, for a page at least; and it is in front of the source, or behind it
  -- with an unmapped byte between them.
  pub record CanRead (dst src request m room : ℕ) (s : k.State) : Type 0 where
    pub dst_below : dst + room < 2 ^ 63
    pub src_below : src + request < 2 ^ 62
    pub enough : request ≤ room
    pub page : 4096 ≤ room
    pub prefix : m ≤ request
    pub boundary : (m ≡ request) ⊎ ((src + m) % 4096 ≡ 0)
    pub source : (i : ℕ) → i < m → k.mapped s (src + i) ≡ true
    pub writable : (i : ℕ) → i < room → k.mapped s (dst + i) ≡ true
    pub disjoint : (dst + room ≤ src) ⊎ ((src + m < dst) × (k.mapped s (dst - 1) ≡ false))

  -- `n` bytes are copied, and only the `room` at the destination may have changed.
  pub record Copied (dst src n room : ℕ) (before after : k.State) : Type 0 where
    pub bytes : (i : ℕ) → i < n → k.byte after (dst + i) ≡ k.byte before (src + i)
    pub outside : (x : ℕ) → within dst room x ≡ false → k.byte after x ≡ k.byte before x
    pub mapped : (x : ℕ) → k.mapped after x ≡ k.mapped before x

  fewer :
      {dst src n room : ℕ} {s t : k.State} (n' : ℕ)
      → n' ≤ n
      → Copied dst src n room s t
      → Copied dst src n' room s t
  fewer n' less done = record {
    bytes = λ i inside. done.bytes i (omega arith);
    outside = done.outside;
    mapped = done.mapped;
  }

module _ (k : Kernel) (h : Host k) (laws : ReadLaws k h) (dst src request m room : ℕ) (s : k.State)
    (can : CanRead k dst src request m room s) where
  -- The call for `size` bytes at `c`.
  abbrev pub read : (c size : ℕ) → k.State → Option ℕ × k.State
  read c size t = h.process_vm_readv (dst + c) (src + c) size t

  pub read_start : (size : ℕ) (t : k.State) → read 0 size t ≡ h.process_vm_readv dst src size t
  read_start size t =
      let to : dst + 0 ≡ dst = omega arith in
      let from : src + 0 ≡ src = omega arith in λ i. h.process_vm_readv (to i) (from i) size t

  module _ (c size : ℕ) (t : k.State) (done : Copied k dst src (min c m) room s t)
      (inside : c + size ≤ room) where
    -- Whatever the answer is, what was copied stays.
    pub read_keeps : Copied k dst src (min c m) room s (read c size t).1
    read_keeps = record {
      bytes = λ i less.
          laws.outside (dst + c) (src + c) size t (dst + i) (ground arith) ∙ done.bytes i less;
      outside = λ x far.
          laws.outside (dst + c) (src + c) size t x (ground (arith, inside)) ∙ done.outside x far;
      mapped = λ x. laws.mapped (dst + c) (src + c) size t x ∙ done.mapped x;
    }

    -- A source that is readable that far is read.
    pub must_read : c + size ≤ m → (read c size t).0 ≡ some size
    must_read far =
        laws.readable (dst + c) (src + c) size t
          (λ i less.
            let at : src + c + i ≡ src + (c + i) = omega arith in
            rw at (done.mapped _ ∙ can.source (c + i) (omega arith)))
          (λ i less.
            let at : dst + c + i ≡ dst + (c + i) = omega arith in
            rw at (done.mapped _ ∙ can.writable (c + i) (omega arith)))

    -- A source that was read in full does not meet the destination.
    apart :
        (read c size t).0 ≡ some size
        → c < m
        → (dst + c + size ≤ src + c) ⊎ (src + c + size ≤ dst + c)
    apart whole more = elim can.disjoint [
      | inl behind ↦ inl (omega (arith, inside))
      | inr (before, gap) ↦ elim (Bool-cases (leb (src + c + size) (dst - 1))) [
        | inl clear ↦ inr (ground arith)
        | inr across ↦
            let j = dst - 1 - (src + c) in
            let at : src + c + j ≡ dst - 1 = omega arith in
            let there = laws.reads (dst + c) (src + c) size t size j whole (ground arith) in
            let mapped : k.mapped t (dst - 1) ≡ true = rw at at there in
            let before_too = done.mapped (dst - 1) in absurd (ground arith)
      ]
    ]

    new_byte :
        (read c size t).0 ≡ some size
        → (i : ℕ) → i < c + size
        → i < m
        → k.byte (read c size t).1 (dst + i) ≡ k.byte s (src + i)
    new_byte whole i less needed = elim (Bool-cases (ltb i c)) [
      | inl old ↦ read_keeps.bytes i (ground arith)
      | inr fresh ↦
          let to : dst + i ≡ dst + c + (i - c) = ground arith in
          let from : src + c + (i - c) ≡ src + i = ground arith in
          rw to (
            laws.copied (dst + c) (src + c) size t (i - c) whole (apart whole (ground arith))
              (ground arith)
            ∙ rw from (done.outside (src + i) (ground (arith, can.disjoint))))
    ]

    pub read_extends :
        (read c size t).0 ≡ some size → Copied k dst src (min (c + size) m) room s (read c size t).1
    read_extends whole = record {
      bytes = λ i less. new_byte whole i (ground arith) (ground arith);
      outside = read_keeps.outside;
      mapped = read_keeps.mapped;
    }

  pub finished :
      {t : k.State} (c : ℕ)
      → m ≤ c
      → Copied k dst src (min c m) room s t
      → Copied k dst src m room s t
  finished c far done = fewer k m (ground arith) done

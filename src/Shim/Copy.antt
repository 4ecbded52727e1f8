-- ===== src/Shim/Copy.antt =====
-- `safe_copy`: it always returns.
use poireau.Prelude.{
  ℕ, zero, suc, ◌+◌, ◌-◌, ◌%◌, ◌^◌, ◌≤◌, ◌<◌, ◌≡◌, refl, true, Option, some, ltb, ◌==◌, arith,
  Bool-cases, Option-cases, inl, inr, min,
}
use poireau.Word.{add64, sub64}
use poireau.Exec.Returns.{Returns, normally}
use poireau.Kernel.{Kernel}
use poireau.Sample.{Entropy, Doubles}
use poireau.Shim.{Host, Process, safe_copy_one_chunk, copied_all, copy_pages, copy_rest, safe_copy}

-- `process_vm_readv` does not read more than it was asked to.
abbrev pub ReadLaw : (k : Kernel) → Host k → Type 0
ReadLaw k h =
    (dst src n : ℕ) (s : k.State) (r : ℕ) → (h.process_vm_readv dst src n s).0 ≡ some r → r ≤ n

module _ (k : Kernel) (e : Entropy) (d : Doubles) (h : Host k) (rounds : ℕ) where
  -- Only the memory has changed.
  abbrev pub OnlyMemory : (before after : Process k e) → Type 0
  OnlyMemory p q = (os : k.State) × (q ≡ record p { tracker = record p.tracker { os = os } })

  -- The call for the next chunk.
  abbrev chunk : Process k e → (dst src copied size : ℕ) → Option ℕ × k.State
  chunk p dst src copied size =
      h.process_vm_readv (add64 dst copied) (add64 src copied) size p.tracker.os

  pub copy_pages-Returns :
      (fuel copied dst src request : ℕ) (p : Process k e)
      → request - copied < fuel
      → request < 2 ^ 64
      → (copied < request → (src + copied) % 4096 ≡ 0)
      → Returns (λ _ q. OnlyMemory p q) (copy_pages k e d h rounds fuel copied dst src request p)
  unfolding copy_pages safe_copy_one_chunk
  copy_pages-Returns zero copied dst src request p enough fits aligned = absurd (omega arith)
  copy_pages-Returns (suc fuel) copied dst src request p enough fits aligned =
      elim (Bool-cases (ltb copied request)) [
        | inr all_done ↦ rw all_done (normally (p.tracker.os, refl))
        | inl more ↦
            let size = min (request - copied) 4096 in
            let ok : (add64 src copied % 4096 == 0) ≡ true = ground (arith, aligned) in
            rw (more, ok)
              (elim (Bool-cases (copied_all k e d h rounds (chunk p dst src copied size).0 size)) [
                | inr stopped ↦ rw stopped (normally ((chunk p dst src copied size).1, refl))
                | inl whole ↦
                    let next : add64 copied size ≡ copied + size = ground arith in
                    rw (whole, next)
                      (copy_pages-Returns fuel (copied + size) dst src request _ (ground arith) fits
                        λ less. ground (arith, aligned))
              ])
      ]

  copy_rest-Returns :
      (fuel dst src request : ℕ) (p : Process k e)
      → request < fuel
      → request < 2 ^ 64
      → Returns (λ _ q. OnlyMemory p q) (copy_rest k e d h rounds fuel dst src request p)
  unfolding copy_rest safe_copy_one_chunk
  copy_rest-Returns fuel dst src request p enough fits =
      let size = 4096 - src % 4096 in
      let ok : (add64 src size % 4096 == 0) ≡ true = ground arith in
      let r = h.process_vm_readv dst src size p.tracker.os in
      elim (Bool-cases (copied_all k e d h rounds r.0 size)) [
        | inr stopped ↦ rw stopped (normally (r.1, refl))
        | inl whole ↦
            rw (whole, ok)
              (copy_pages-Returns fuel size dst src request _ (omega arith) fits
                λ less. omega arith)
      ]

  -- If `process_vm_readv` never reads more than it was asked to, `safe_copy` with one unit of
  -- fuel for each byte of the request and one more always returns, without a failed assertion,
  -- and changes nothing but the memory.
  pub safe_copy-Returns :
      (dst src request : ℕ) (p : Process k e)
      → ReadLaw k h
      → request < 2 ^ 64
      → Returns (λ _ q. OnlyMemory p q) (safe_copy k e d h rounds (suc request) dst src request p)
  unfolding safe_copy safe_copy_one_chunk
  safe_copy-Returns dst src request p law fits =
      let r = h.process_vm_readv dst src request p.tracker.os in
      elim (Bool-cases (copied_all k e d h rounds r.0 request)) [
        | inl whole ↦ rw whole (normally (r.1, refl))
        | inr part ↦ elim (Option-cases r.0) [
          | inl failed_copy ↦
              rw (part, failed_copy)
                (copy_rest-Returns (suc request) dst src request _ (omega arith) fits)
          | inr (n, some_bytes) ↦
              let few = law dst src request p.tracker.os n some_bytes in
              let left : sub64 request n ≡ request - n = omega arith in
              rw (part, some_bytes, left)
                (copy_rest-Returns (suc request) (add64 dst n) (add64 src n) (request - n) _
                  (omega arith) (omega arith))
        ]
      ]

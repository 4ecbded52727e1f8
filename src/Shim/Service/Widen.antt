-- ===== src/Shim/Service/Widen.antt =====
-- From nothing lost to one pointer lost, and back.
use poireau.Prelude.{
  ℕ, ◌+◌, ◌<◌, ◌≡◌, ◌≢◌, ◌∙◌, inl, inr, some, sym, arith, ◌==◌, if◌then◌else◌, ℕ-cases,
}
use mathlib.Core.Path.{subst}
use poireau.Kernel.{Kernel}
use poireau.Sample.{Entropy}
use poireau.TrackedAlloc.{Tracker, TrackedAllocInfo}
use poireau.TrackedAlloc.Pages.{pages}
use poireau.TrackedAlloc.Invariant.{view}
use poireau.TrackedAlloc.Lookup.{view-IsLive}
use poireau.Shim.{Process}
use poireau.Shim.Contents.{Preserved, count}
use poireau.Shim.Service.{Bookkeeping, Ledger, Sound, Since, Given, Leaves, Reallocs}
use poireau.Shim.Service.Given.{block_untracked}

module _ (k : Kernel) (own : Bookkeeping k) (ptr : ℕ) (l l' : Ledger) (t t' : Tracker k)
    (sound : Sound k own l t) where
  -- Nothing was lost, so nothing but `ptr` was.
  pub widen-Since : Since k own 0 l t l' t' → Since k own ptr l t l' t'
  widen-Since since = record {
    sound = since.sound;
    keeps = record {
      entry = λ q info tracked differ. since.keeps.entry q info tracked (not_null q info tracked);
      bytes = λ q i info tracked differ inside.
          since.keeps.bytes q i info tracked (not_null q info tracked) inside;
    };
    blocks = λ q differ given. since.blocks q (omega (arith, (sound.block_low q given).0)) given;
  }
    where
      not_null : (q : ℕ) (info : TrackedAllocInfo) → view k t q ≡ some info → q ≢ 0
      not_null q info tracked = omega (arith, (view-IsLive k t q info tracked).not_null)

  pub widen-Given :
      (ret request : ℕ)
      → Given k own 0 ret request l t l' t'
      → Given k own ptr ret request l t l' t'
  widen-Given ret request (inl null) = inl null
  widen-Given ret request (inr (found, (a, b, place))) = inr (
    found,
    (
      λ given. absurd (omega (arith, a given)),
      λ info tracked. absurd (omega (arith, b info tracked)),
      place,
    ),
  )

  pub new_pointer :
      (ret request : ℕ) (info : TrackedAllocInfo)
      → view k t ptr ≡ some info
      → ret ≢ 0
      → Given k own 0 ret request l t l' t'
      → ret ≢ ptr
  new_pointer ret request info tracked found (inl null) same = found null
  new_pointer ret request info tracked found (inr (_, (_, unheld, _))) same =
      found (unheld info (rw same tracked))

  -- If `ptr` was not lost either, nothing was.
  pub Since-all :
      (info : TrackedAllocInfo)
      → Since k own ptr l t l' t'
      → view k t ptr ≡ some info
      → view k t' ptr ≡ some info
      → ((i : ℕ) → i < pages info.size → k.byte t'.os (ptr + i) ≡ k.byte t.os (ptr + i))
      → Since k own 0 l t l' t'
  Since-all info since tracked still same = record {
    sound = since.sound;
    keeps = record {
      entry = λ q a at _. elim (ℕ-cases q ptr) [
        | inr other ↦ since.keeps.entry q a at other
        | inl here ↦
            let at_ptr : view k t ptr ≡ some a = rw here at at in
            rw here (still ∙ sym tracked ∙ at_ptr)
      ];
      bytes = λ q i a at _ inside. elim (ℕ-cases q ptr) [
        | inr other ↦ since.keeps.bytes q i a at other inside
        | inl here ↦
            let at_ptr : view k t ptr ≡ some a = rw here at at in
            let one : info ≡ a = cc in rw here (same i (ground arith))
      ];
    };
    blocks = λ q _ given. elim (ℕ-cases q ptr) [
      | inr other ↦ since.blocks q other given
      | inl here ↦
          let free = block_untracked sound q given in
          let at_q : view k t q ≡ some info = rw here tracked in absurd (cc)
    ];
  }

module _ (k : Kernel) (own : Bookkeeping k) (e : Entropy) (ptr request : ℕ) (l l' : Ledger)
    (t : Tracker k) (ret : ℕ) (q : Process k e) where
  -- NULL: all is as before.
  pub null-Reallocs : ret ≡ 0 → Leaves k own e 0 l t l' q → Reallocs k own e ptr request l t ret q
  null-Reallocs null leaves =
      let lost : (if ret == 0 then 0 else ptr) ≡ 0 = ground arith in
      (
        l',
        subst (λ a. Leaves k own e a l t l' q) (sym lost) leaves,
        inl null,
        λ info tracked found. absurd (found null),
      )

  -- New bytes.
  pub found-Reallocs :
      ret ≢ 0
      → Leaves k own e ptr l t l' q
      → Given k own ptr ret request l t l' q.tracker
      → ((info : TrackedAllocInfo)
          → view k t ptr ≡ some info
          → Preserved k ptr ret (count k info request) t q.tracker)
      → Reallocs k own e ptr request l t ret q
  found-Reallocs found leaves given contents =
      let lost : (if ret == 0 then 0 else ptr) ≡ ptr = ground arith in
      (
        l',
        subst (λ a. Leaves k own e a l t l' q) (sym lost) leaves,
        given,
        λ info tracked _. contents info tracked,
      )

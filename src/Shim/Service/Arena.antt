-- ===== src/Shim/Service/Arena.antt =====
-- A small underlying allocator that meets the laws: an arena of three pages, of which the first one
-- has its own data, a byte for each of two slots, and the others are the slots. It gives a slot out
-- again once it was freed, and resizes in place.
use poireau.Prelude.{
  ℕ, ◌+◌, ◌-◌, ◌*◌, ◌^◌, ◌≤◌, ◌<◌, ◌≡◌, ◌∙◌, inl, inr, Bool, true, false, not, refl, arith, leb,
  sym, ◌==◌, ◌&&◌, ◌||◌, if◌then◌else◌, within, Bool-cases,
}
use mathlib.Core.Path.{subst}
use poireau.Kernel.Regions.{Regions, regions_kernel}
use poireau.Shim.{Host}
use poireau.Shim.Contents.{CopyLaws}
use poireau.Shim.Reading.{ReadLaws}
use poireau.Shim.CopyExamples.{reader, reader-ReadLaws}
use poireau.Shim.Service.{Ledger, Bookkeeping, Changes, Answers, Owned, IsRegular, HostLaws}

abbrev pub arena : ℕ
arena = 2 ^ 40

abbrev used : ℕ → Regions → Bool
used i s = not (s.contents (arena + i) == 0)

-- The byte of slot `i` is `v`.
abbrev marked : (i v : ℕ) → Regions → Regions
marked i v s = record s { contents = λ x. if x == arena + i then v else s.contents x }

abbrev first_slot : ℕ
first_slot = arena + 4096

abbrev second_slot : ℕ
second_slot = arena + 8192

abbrev gives : (request : ℕ) → Regions → ℕ × Regions
gives request s =
    if not (leb request 4096) || (used 0 s && used 1 s)
    then (0, s)
    else if used 0 s
    then (second_slot, marked 1 1 s)
    else (first_slot, marked 0 1 s)

-- The slot is cleared.
abbrev cleared : ℕ × Regions → ℕ × Regions
cleared (ret, s) = (
  ret,
  record s { contents = λ x. if (ret == 0) || not (within ret 4096 x) then s.contents x else 0 },
)

abbrev pub slots : Host regions_kernel
slots = record reader {
  malloc = gives;
  calloc = λ num size s. cleared (gives (num * size) s);
  realloc = λ ptr request s.
      if ptr == 0 then gives request s else if leb request 4096 then (ptr, s) else (0, s);
  free = λ ptr s.
      if ptr == first_slot then marked 0 0 s else if ptr == second_slot then marked 1 0 s else s;
}

abbrev pub ledger : Regions → Ledger
ledger s = record {
  heap = λ x. within arena 12288 x;
  block = λ q. (q == first_slot && used 0 s) || (q == second_slot && used 1 s);
  lent = λ x. (within first_slot 4096 x && used 0 s) || (within second_slot 4096 x && used 1 s);
}

pub record Agrees (l : Ledger) (s : Regions) : Type 0 where
  pub heap : (x : ℕ) → l.heap x ≡ within arena 12288 x
  pub block : (q : ℕ) → l.block q ≡ (ledger s).block q
  pub lent : (x : ℕ) → l.lent x ≡ (ledger s).lent x

ledger-Agrees : (s : Regions) → Agrees (ledger s) s
ledger-Agrees s = record { heap = λ x. refl; block = λ q. refl; lent = λ x. refl }

-- The data of the arena is in bytes that are not lent.
pub same_data :
    (l : Ledger) (s s' : Regions) (i : ℕ)
    → Agrees l s
    → i < 4096
    → ((x : ℕ) → l.heap x ≡ true → l.lent x ≡ false → s'.contents x ≡ s.contents x)
    → s'.contents (arena + i) ≡ s.contents (arena + i)
same_data l s s' i agrees small same =
    same (arena + i) (agrees.heap (arena + i) ∙ ground arith)
      (agrees.lent (arena + i) ∙ ground arith)

abbrev pub books : Bookkeeping regions_kernel
books = record {
  holds = Agrees;
  frame = λ l s s' agrees mapped same.
      let zeroth = same_data l s s' 0 agrees (omega arith) same in
      let first = same_data l s s' 1 agrees (omega arith) same in
      record {
        heap = agrees.heap;
        block = λ q. agrees.block q ∙ rw (zeroth, first) refl;
        lent = λ x. agrees.lent x ∙ rw (zeroth, first) refl;
      };
}

module _ (l : Ledger) (s : Regions) (owned : Owned regions_kernel books l s) where
  agrees : Agrees l s
  agrees = owned.0

  -- A call that writes to the arena alone.
  writes-Changes :
      (s' : Regions)
      → ((x : ℕ) → regions_kernel.mapped s' x ≡ regions_kernel.mapped s x)
      → ((x : ℕ) → within arena 12288 x ≡ false → s'.contents x ≡ s.contents x)
      → Changes regions_kernel books l (ledger s') s s'
  writes-Changes s' mapped same = record {
    mapped = λ x mine. mapped x ∙ owned.1 x (agrees.heap x ∙ mine);
    kept = λ x theirs here.
        (sym (agrees.heap x) ∙ theirs, mapped x ∙ here, same x (sym (agrees.heap x) ∙ theirs));
    block_in_heap = λ q given. ground arith;
    block_low = λ q given. ground arith;
    lent_in_heap = λ x lent. ground arith;
    booked = ledger-Agrees s';
  }

  gives-Answers :
      (request : ℕ)
      → let r = gives request s in Answers regions_kernel books 0 r.0 request l (ledger r.1)
  gives-Answers request = record {
    block = ground arith;
    room = λ found i inside. ground arith;
    fresh = λ given. ground (arith, agrees.block (gives request s).0);
    others = λ q other given. ground (arith, agrees.block q);
  }

  cleared-Answers :
      (request : ℕ)
      → let r = cleared (gives request s) in
        Answers regions_kernel books 0 r.0 request l (ledger r.1)
  cleared-Answers request = record {
    block = ground arith;
    room = λ found i inside. ground arith;
    fresh = λ given. ground (arith, agrees.block (gives request s).0);
    others = λ q other given. ground (arith, agrees.block q);
  }

  cleared_laws :
      (request : ℕ)
      → let r = cleared (gives request s) in
        Changes regions_kernel books l (ledger r.1) s r.1
        × Answers regions_kernel books 0 r.0 request l (ledger r.1)
  cleared_laws request = (
    writes-Changes (cleared (gives request s)).1 (λ x. ground arith) (λ x far. ground arith),
    cleared-Answers request,
  )

  given_laws :
      (request : ℕ)
      → let r = gives request s in
        Changes regions_kernel books l (ledger r.1) s r.1
        × Answers regions_kernel books 0 r.0 request l (ledger r.1)
  given_laws request = (
    writes-Changes (gives request s).1 (λ x. ground arith) (λ x far. ground arith),
    gives-Answers request,
  )

  stays : Changes regions_kernel books l (ledger s) s s
  stays = writes-Changes s (λ x. refl) (λ x far. refl)

  free-Answers :
      (ptr : ℕ)
      → IsRegular regions_kernel books l ptr
      → Answers regions_kernel books ptr 0 0 l (ledger (slots.free ptr s))
  free-Answers ptr regular = record {
    block = inl refl;
    room = λ found. absurd (found refl);
    fresh = λ _. inl refl;
    others = λ q other given. ground (arith, agrees.block q);
  }

  freed :
      (ptr : ℕ)
      → IsRegular regions_kernel books l ptr
      → (ledger (slots.free ptr s)).block ptr ≡ false
  freed ptr regular = ground (arith)

  in_place-Answers :
      (ptr request : ℕ)
      → l.block ptr ≡ true
      → request ≤ 4096
      → Answers regions_kernel books ptr ptr request l (ledger s)
  in_place-Answers ptr request given small = record {
    block = inr (sym (agrees.block ptr) ∙ given);
    room = λ found i inside. ground (arith, agrees.block ptr);
    fresh = λ _. inr refl;
    others = λ q other here. sym (agrees.block q) ∙ here;
  }

  null-Answers : (request : ℕ) → Answers regions_kernel books 0 0 request l (ledger s)
  null-Answers request = record {
    block = inl refl;
    room = λ found. absurd (found refl);
    fresh = λ _. inl refl;
    others = λ q other here. sym (agrees.block q) ∙ here;
  }

  realloc_laws :
      (ptr request : ℕ)
      → IsRegular regions_kernel books l ptr
      → let r = slots.realloc ptr request s in
        Changes regions_kernel books l (ledger r.1) s r.1
        × Answers regions_kernel books (if r.0 == 0 then 0 else ptr) r.0 request l (ledger r.1)
  realloc_laws ptr request (inl null) =
      let (changes, answers) = given_laws request in
      let lost : 0 ≡ (if (gives request s).0 == 0 then 0 else 0) = ground arith in
      rw null (
        changes,
        subst
            (λ a.
              Answers regions_kernel books a (gives request s).0 request l
                (ledger (gives request s).1))
            lost answers,
      )
  realloc_laws ptr request (inr given) =
      let some_ptr : (ptr == 0) ≡ false = ground (arith, agrees.block ptr) in
      elim (Bool-cases (leb request 4096)) [
        | inl small ↦
            rw (some_ptr, small)
              (rw some_ptr (stays, in_place-Answers ptr request given (ground arith)))
        | inr large ↦ rw (some_ptr, large) (stays, null-Answers request)
      ]

pub slots-HostLaws : HostLaws regions_kernel books slots
slots-HostLaws = record {
  malloc = λ request l s owned.
      let (changes, answers) = given_laws l s owned request in
      (ledger (gives request s).1, changes, answers);
  calloc = λ num size l s owned.
      let (changes, answers) = cleared_laws l s owned (num * size) in
      (ledger (cleared (gives (num * size) s)).1, changes, answers);
  realloc = λ ptr request l s pos owned regular.
      let (changes, answers) = realloc_laws l s owned ptr request regular in
      (ledger (slots.realloc ptr request s).1, changes, answers);
  free = λ ptr l s owned regular. (
    ledger (slots.free ptr s),
    writes-Changes l s owned (slots.free ptr s) (λ x. ground arith) (λ x far. ground arith),
    free-Answers l s owned ptr regular,
    freed l s owned ptr regular,
  );
}

pub slots-CopyLaws : CopyLaws regions_kernel slots
slots-CopyLaws = record {
  mapped = λ dst src n s x h. refl;
  copied = λ dst src n s i h inside.
      let here : within dst n (dst + i) ≡ true = ground arith in
      let from : dst + i - dst + src ≡ src + i = omega arith in rw (here, from);
  outside = λ dst src n s x h far. rw far;
}

pub slots-ReadLaws : ReadLaws regions_kernel slots
slots-ReadLaws = record {
  whole = reader-ReadLaws.whole;
  reads = reader-ReadLaws.reads;
  readable = reader-ReadLaws.readable;
  copied = reader-ReadLaws.copied;
  outside = reader-ReadLaws.outside;
  mapped = reader-ReadLaws.mapped;
}

-- ===== src/Shim/Service.antt =====
-- What the four entry points of src/shim.c promise together to a program that calls them, whatever
-- it has called before. The promise is stated with a ledger: which bytes belong to the underlying
-- allocator, and which pointers and bytes it has given out. The shim has no such ledger; it is the
-- underlying allocator that keeps it, in a form of its own.
pub mod Steps
pub mod Tracked
pub mod Given
pub mod Patched
pub mod Mallocs
pub mod Copies
pub mod Frees
pub mod Widen
pub mod Reallocs
pub mod FromTracked
pub mod Moves
pub mod Calls
pub mod Fresh
pub mod Client
pub mod History
pub mod Arena
pub mod Examples
use poireau.Prelude.{
  ℕ, suc, ◌+◌, ◌*◌, ◌%◌, ◌^◌, ◌≤◌, ◌<◌, ◌≡◌, ◌≢◌, ◌⊎◌, Bool, true, false, none, some, List, refl,
  ◌==◌, if◌then◌else◌,
}
use poireau.Exec.{Exec}
use poireau.Kernel.{Kernel}
use poireau.Sample.{Entropy, Doubles, SampleState}
use poireau.Sample.Draw.{IsSeeded}
use poireau.Sample.Reset.{redraw}
use poireau.TrackedAlloc.{Tracker, TrackedAllocInfo}
use poireau.TrackedAlloc.Pages.{pages}
use poireau.TrackedAlloc.Invariant.{view, IsValid}
use poireau.TrackedAlloc.Get.{allocation}
use poireau.Shim.{Host, Process, malloc, calloc, realloc, free}
use poireau.Shim.Contents.{Preserved, count}
use poireau.Shim.MoveIn.{Owns, IsReadable}
use poireau.Shim.Init.{IsReady}

-- `heap` are the bytes of the underlying allocator, those where it keeps its own data among them;
-- `block` are the pointers that are given out, and `lent` are the bytes behind them.
pub record Ledger : Type 0 where
  pub heap : ℕ → Bool
  pub block : ℕ → Bool
  pub lent : ℕ → Bool

-- Which ledger is the true one is for the underlying allocator to say. It keeps its own data in its
-- own bytes: a change elsewhere, or in the bytes that are lent, does not make the ledger wrong.
pub record Bookkeeping (k : Kernel) : Type 1 where
  pub holds : Ledger → k.State → Type 0
  pub frame :
      (l : Ledger) (s s' : k.State)
      → holds l s
      → ((x : ℕ) → l.heap x ≡ true → k.mapped s' x ≡ k.mapped s x)
      → ((x : ℕ) → l.heap x ≡ true → l.lent x ≡ false → k.byte s' x ≡ k.byte s x)
      → holds l s'

module _ (k : Kernel) (own : Bookkeeping k) where
  pub record Sound (l : Ledger) (t : Tracker k) : Type 0 where
    pub valid : IsValid k t
    pub owned : Owns k l.heap t
    pub block_in_heap : (q : ℕ) → l.block q ≡ true → l.heap q ≡ true
    pub block_low : (q : ℕ) → l.block q ≡ true → (0 < q) × (q < 2 ^ 47)
    pub lent_in_heap : (x : ℕ) → l.lent x ≡ true → l.heap x ≡ true
    pub booked : own.holds l t.os

  -- What a call of the underlying allocator may do: nothing to the bytes that were mapped and not
  -- its own; and what it owns afterwards is mapped.
  pub record Changes (l l' : Ledger) (s s' : k.State) : Type 0 where
    pub mapped : (x : ℕ) → l'.heap x ≡ true → k.mapped s' x ≡ true
    pub kept :
        (x : ℕ)
        → l.heap x ≡ false
        → k.mapped s x ≡ true
        → (l'.heap x ≡ false) × (k.mapped s' x ≡ true) × (k.byte s' x ≡ k.byte s x)
    pub block_in_heap : (q : ℕ) → l'.block q ≡ true → l'.heap q ≡ true
    pub block_low : (q : ℕ) → l'.block q ≡ true → (0 < q) × (q < 2 ^ 47)
    pub lent_in_heap : (x : ℕ) → l'.lent x ≡ true → l'.heap x ≡ true
    pub booked : own.holds l' s'

  -- NULL, or a new block of `request` bytes; `ptr` is none any more, and all others stay.
  pub record Answers (ptr ret request : ℕ) (l l' : Ledger) : Type 0 where
    pub block : (ret ≡ 0) ⊎ (l'.block ret ≡ true)
    pub room : ret ≢ 0 → (i : ℕ) → i < request → l'.lent (ret + i) ≡ true
    pub fresh : l.block ret ≡ true → (ret ≡ 0) ⊎ (ret ≡ ptr)
    pub others : (q : ℕ) → q ≢ ptr → l.block q ≡ true → l'.block q ≡ true

  abbrev Owned : Ledger → k.State → Type 0
  Owned l s =
      own.holds l s
      × ((x : ℕ) → l.heap x ≡ true → k.mapped s x ≡ true)
      × ((q : ℕ) → l.block q ≡ true → (l.heap q ≡ true) × (0 < q) × (q < 2 ^ 47))
      × ((x : ℕ) → l.lent x ≡ true → l.heap x ≡ true)

  -- NULL, or a block that was given out.
  abbrev pub IsRegular : Ledger → ℕ → Type 0
  IsRegular l ptr = (ptr ≡ 0) ⊎ (l.block ptr ≡ true)

  -- What the C standard and the manuals say of the four functions of the underlying allocator, of
  -- `realloc` to at least one byte.
  pub record HostLaws (h : Host k) : Type 0 where
    pub malloc :
        (request : ℕ) (l : Ledger) (s : k.State)
        → Owned l s
        → let (ret, s') = h.malloc request s in
          (l' : Ledger) × Changes l l' s s' × Answers 0 ret request l l'
    pub calloc :
        (num size : ℕ) (l : Ledger) (s : k.State)
        → Owned l s
        → let (ret, s') = h.calloc num size s in
          (l' : Ledger) × Changes l l' s s' × Answers 0 ret (num * size) l l'
    pub realloc :
        (ptr request : ℕ) (l : Ledger) (s : k.State)
        → 0 < request
        → Owned l s
        → IsRegular l ptr
        → let (ret, s') = h.realloc ptr request s in
          (l' : Ledger) × Changes l l' s s' × Answers (if ret == 0 then 0 else ptr) ret request l l'
    pub free :
        (ptr : ℕ) (l : Ledger) (s : k.State)
        → Owned l s
        → IsRegular l ptr
        → (l' : Ledger) × Changes l l' s (h.free ptr s)
          × Answers ptr 0 0 l l'
          × (l'.block ptr ≡ false)

  -- The tracked allocations other than `ptr` stay, with their bytes.
  pub record Keeps (ptr : ℕ) (before after : Tracker k) : Type 0 where
    pub entry :
        (q : ℕ) (info : TrackedAllocInfo)
        → view k before q ≡ some info
        → q ≢ ptr
        → view k after q ≡ some info
    pub bytes :
        (q i : ℕ) (info : TrackedAllocInfo)
        → view k before q ≡ some info
        → q ≢ ptr
        → i < pages info.size
        → k.byte after.os (q + i) ≡ k.byte before.os (q + i)

  -- All is sound, and nothing was lost but `ptr`.
  pub record Since (ptr : ℕ) (l : Ledger) (t : Tracker k) (l' : Ledger) (t' : Tracker k)
      : Type 0 where
    pub sound : Sound l' t'
    pub keeps : Keeps ptr t t'
    pub blocks : (q : ℕ) → q ≢ ptr → l.block q ≡ true → l'.block q ≡ true

  -- NULL; or `request` bytes at `ret`, tracked or in a block of the underlying allocator, which
  -- nobody held before, unless it is `ptr`.
  abbrev pub Given :
      (ptr ret request : ℕ) (l : Ledger) (t : Tracker k) (l' : Ledger) (t' : Tracker k) → Type 0
  Given ptr ret request l t l' t' =
      (ret ≡ 0)
      ⊎ ((0 < ret)
          × ((l.block ret ≡ true → ret ≡ ptr)
              × ((info : TrackedAllocInfo) → view k t ret ≡ some info → ret ≡ ptr)
              × (((id : ℕ) × (view k t' ret ≡ some (allocation k id request)))
                  ⊎ ((l'.block ret ≡ true) × ((i : ℕ) → i < request → l'.lent (ret + i) ≡ true)))))

  abbrev pub IsTracked : Tracker k → ℕ → Type 0
  IsTracked t ptr = (info : TrackedAllocInfo) × (view k t ptr ≡ some info)

-- There is a seeded generator that does not find a threshold within the rounds.
abbrev pub Unlucky : Entropy → Doubles → (rounds : ℕ) → Type 0
Unlucky e d rounds = (st : SampleState) × IsSeeded st × (redraw e d rounds rounds st ≡ none)

module _ (k : Kernel) (own : Bookkeeping k) (e : Entropy) where
  -- The thread has been seeded, and the pointers are patched.
  pub record IsFit (p : Process k e) : Type 0 where
    pub ready : IsReady p.loader
    pub seeded : IsSeeded p.sampler.state

  -- A call that may have released `ptr` leaves `q`.
  abbrev pub Leaves : (ptr : ℕ) → Ledger → Tracker k → Ledger → Process k e → Type 0
  Leaves ptr l t l' q = Since k own ptr l t l' q.tracker × IsFit q

  -- It answers `ret`, for `request` bytes.
  abbrev pub Serves : (ptr request : ℕ) → Ledger → Tracker k → (ret : ℕ) → Process k e → Type 0
  Serves ptr request l t ret q =
      (l' : Ledger) × Leaves ptr l t l' q × Given k own ptr ret request l t l' q.tracker

  -- The pointer is released.
  abbrev pub Frees : (ptr : ℕ) → Ledger → Tracker k → Process k e → Type 0
  Frees ptr l t q =
      (l' : Ledger) × Leaves ptr l t l' q × (view k q.tracker ptr ≡ none) × (l'.block ptr ≡ false)

  -- NULL, and nothing is lost; or the new bytes, which begin like those of `ptr` if it was tracked.
  abbrev pub Reallocs : (ptr request : ℕ) → Ledger → Tracker k → (ret : ℕ) → Process k e → Type 0
  Reallocs ptr request l t ret q =
      (l' : Ledger) × Leaves (if ret == 0 then 0 else ptr) l t l' q
      × Given k own ptr ret request l t l' q.tracker
      × ((info : TrackedAllocInfo)
          → view k t ptr ≡ some info
          → ret ≢ 0
          → Preserved k ptr ret (count k info request) t q.tracker)

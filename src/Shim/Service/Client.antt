-- ===== src/Shim/Service/Client.antt =====
-- A program that calls the shim: what it has, what it may pass, and what its calls do to both.
use poireau.Prelude.{
  ℕ, suc, ◌+◌, ◌*◌, ◌^◌, ◌<◌, ◌≡◌, ◌≢◌, ◌⊎◌, inl, inr, true, false, Option, none, some, refl, sym,
  ap, arith, ◌==◌, if◌then◌else◌, ℕ-cases, Option-cases,
}
use mathlib.Core.Path.{subst}
use poireau.Exec.{done}
use poireau.Kernel.{Kernel}
use poireau.Sample.{Entropy, Doubles}
use poireau.TrackedAlloc.Invariant.{view}
use poireau.TrackedAlloc.Get.{allocation}
use poireau.Shim
use poireau.Shim.{Host, Process}
use poireau.Shim.MoveIn.{IsReadable}
use poireau.Shim.Service.{
  Bookkeeping, Ledger, Sound, Since, Given, IsRegular, IsTracked, IsFit, Leaves, Serves,
}
use poireau.Shim.Service.Widen.{widen-Since}

-- The pointers that the program has, with the sizes that it asked for.
abbrev pub Live : Type 0
Live = ℕ → Option ℕ

abbrev pub gains : (ret request : ℕ) → Live → Live
gains ret request live q = if ret == q then some request else live q

abbrev pub drops : ℕ → Live → Live
drops ptr live q = if ptr == q then none else live q

-- NULL changes nothing.
abbrev pub answered : (ptr ret request : ℕ) → Live → Live
answered ptr ret request live = if ret == 0 then live else gains ret request (drops ptr live)

abbrev pub May : Live → ℕ → Type 0
May live ptr = (ptr ≡ 0) ⊎ ((n : ℕ) × (live ptr ≡ some n))

module _ (k : Kernel) (own : Bookkeeping k) (e : Entropy) (d : Doubles) (h : Host k)
    (rounds : ℕ) where
  -- A call that returns, for at least one byte, before the counter's end: the pointer that it got,
  -- its answer, and what the program has afterwards.
  pub data Step (live : Live) (p : Process k e) : (ptr ret : ℕ) → Live → Process k e → Type 0 where
    malloc :
        (fuel request ret : ℕ) (q : Process k e)
        → 0 < request
        → p.tracker.alloc_id_counter + 1 < 2 ^ 64
        → Shim.malloc k e d h rounds (suc fuel) request p ≡ done ret q
        → Step live p 0 ret (answered 0 ret request live) q
    calloc :
        (fuel num size ret : ℕ) (q : Process k e)
        → 0 < num * size
        → p.tracker.alloc_id_counter + 1 < 2 ^ 64
        → Shim.calloc k e d h rounds (suc fuel) num size p ≡ done ret q
        → Step live p 0 ret (answered 0 ret (num * size) live) q
    realloc :
        (fuel ptr request ret m : ℕ) (q : Process k e)
        → May live ptr
        → (ptr ≡ 0) ⊎ IsReadable k ptr request m p.tracker
        → 0 < request
        → request < 2 ^ 64
        → p.tracker.alloc_id_counter + 1 < 2 ^ 64
        → Shim.realloc k e d h rounds (suc fuel) ptr request p ≡ done ret q
        → Step live p ptr ret (answered ptr ret request live) q
    free :
        (fuel ptr : ℕ) (q : Process k e)
        → May live ptr
        → Shim.free k e d h rounds (suc fuel) ptr p ≡ done tt q
        → Step live p ptr 0 (drops ptr live) q

  -- Calls that are never given `kept`.
  pub data History (kept : ℕ) (live : Live) (p : Process k e) : Live → Process k e → Type 0 where
    start : History kept live p live p
    call :
        {live1 live2 : Live} {p1 p2 : Process k e} (ptr ret : ℕ)
        → History kept live p live1 p1
        → Step live1 p1 ptr ret live2 p2
        → ptr ≢ kept
        → History kept live p live2 p2

  -- What the program has is there: tracked with its size, or a block of the underlying allocator.
  pub record Serving (live : Live) (l : Ledger) (p : Process k e) : Type 0 where
    pub sound : Sound k own l p.tracker
    pub fit : IsFit k own e p
    pub null : live 0 ≡ none
    pub place :
        (q n : ℕ)
        → live q ≡ some n
        → ((id : ℕ) × (view k p.tracker q ≡ some (allocation k id n))) ⊎ (l.block q ≡ true)

  -- After a call: all is sound, nothing but `ptr` was lost, and an answer is none of the others.
  abbrev pub Goes : (ptr ret : ℕ) → Live → Ledger → Process k e → Live → Process k e → Type 0
  Goes ptr ret live l p live' q =
      (l' : Ledger) × Serving live' l' q
      × Since k own ptr l p.tracker l' q.tracker
      × (ret ≢ 0 → ret ≢ ptr → live ret ≡ none)

  module _ {live : Live} {l : Ledger} {p : Process k e} (now : Serving live l p) where
    pub known : (ptr : ℕ) → May live ptr → IsRegular k own l ptr ⊎ IsTracked k own p.tracker ptr
    known ptr (inl null) = inl (inl null)
    known ptr (inr (n, held)) = elim (now.place ptr n held) [
      | inl (id, tracked) ↦ inr (allocation k id n, tracked)
      | inr block ↦ inl (inr block)
    ]

    not_null : (a n : ℕ) → live a ≡ some n → a ≢ 0
    not_null a n held zero =
        let free = now.null in let here : live 0 ≡ some n = rw zero at held in absurd (cc)

    -- What was not lost has its place.
    place_after :
        (ptr a n : ℕ) (l' : Ledger) (q : Process k e)
        → Since k own ptr l p.tracker l' q.tracker
        → live a ≡ some n
        → a ≢ ptr
        → ((id : ℕ) × (view k q.tracker a ≡ some (allocation k id n))) ⊎ (l'.block a ≡ true)
    place_after ptr a n l' q since held other = elim (now.place a n held) [
      | inl (id, tracked) ↦ inl (id, since.keeps.entry a (allocation k id n) tracked other)
      | inr block ↦ inr (since.blocks a other block)
    ]

    module _ (ptr : ℕ) (l' : Ledger) (q : Process k e) (fit : IsFit k own e q) where
      -- Nothing that the program has is answered again.
      unheld :
          (ret request : ℕ)
          → Given k own ptr ret request l p.tracker l' q.tracker
          → ret ≢ 0
          → ret ≢ ptr
          → live ret ≡ none
      unheld ret request (inl null) found other = absurd (found null)
      unheld ret request (inr (_, (fresh_block, fresh_entry, _))) found other =
          elim (Option-cases (live ret)) [
            | inl unseen ↦ unseen
            | inr (n, held) ↦ elim (now.place ret n held) [
              | inl (id, tracked) ↦ absurd (other (fresh_entry (allocation k id n) tracked))
              | inr block ↦ absurd (other (fresh_block block))
            ]
          ]

      -- The program has `ret` in place of `ptr`.
      gains-Serving :
          (ret request : ℕ)
          → ret ≢ 0
          → Since k own ptr l p.tracker l' q.tracker
          → Given k own ptr ret request l p.tracker l' q.tracker
          → Serving (gains ret request (drops ptr live)) l' q
      gains-Serving ret request found since given = record {
        sound = since.sound;
        fit = fit;
        null = let null = now.null in ground arith;
        place = λ a n held. elim (ℕ-cases ret a) [
          | inl here ↦
              let size : request ≡ n = ground arith in
              rw (← here, ← size)
                (elim given [
                  | inl null ↦ absurd (found null)
                  | inr (_, (_, _, inl tracked)) ↦ inl tracked
                  | inr (_, (_, _, inr (block, _))) ↦ inr block
                ])
          | inr other ↦ place_after ptr a n l' q since (ground arith) (ground arith)
        ];
      }

      pub answered-Goes :
          (ret request : ℕ)
          → Since k own (if ret == 0 then 0 else ptr) l p.tracker l' q.tracker
          → Given k own ptr ret request l p.tracker l' q.tracker
          → Goes ptr ret live l p (answered ptr ret request live) q
      answered-Goes ret request since given = elim (ℕ-cases ret 0) [
        | inl null ↦
            let test : (ret == 0) ≡ true = ground arith in
            let lost : (if ret == 0 then 0 else ptr) ≡ 0 = ground arith in
            let same : answered ptr ret request live ≡ live =
              ap (λ b. if b then live else gains ret request (drops ptr live)) test in
            let all = subst (λ a. Since k own a l p.tracker l' q.tracker) lost since in
            (
              l',
              subst (λ a. Serving a l' q) (sym same)
                  (record {
                    sound = all.sound;
                    fit = fit;
                    null = now.null;
                    place = λ a n held. place_after 0 a n l' q all held (not_null a n held);
                  }),
              widen-Since k own ptr l l' p.tracker q.tracker now.sound all,
              unheld ret request given,
            )
        | inr found ↦
            let test : (ret == 0) ≡ false = ground arith in
            let lost : (if ret == 0 then 0 else ptr) ≡ ptr = ground arith in
            let same : answered ptr ret request live ≡ gains ret request (drops ptr live) =
              ap (λ b. if b then live else gains ret request (drops ptr live)) test in
            let rest = subst (λ a. Since k own a l p.tracker l' q.tracker) lost since in
            (
              l',
              subst (λ a. Serving a l' q) (sym same) (gains-Serving ret request found rest given),
              rest,
              unheld ret request given,
            )
      ]

  pub drops-Goes :
      {live : Live} {l l' : Ledger} {p q : Process k e} (ptr : ℕ)
      → Serving live l p
      → Leaves k own e ptr l p.tracker l' q
      → Goes ptr 0 live l p (drops ptr live) q
  drops-Goes {live} {l} {l'} {p} {q} ptr now (since, fit) = (
    l',
    record {
      sound = since.sound;
      fit = fit;
      null = let null = now.null in ground arith;
      place = λ a n held. place_after now ptr a n l' q since (ground arith) (ground arith);
    },
    since,
    λ found. absurd (found refl),
  )

  -- `malloc` and `calloc` have no old pointer.
  pub fresh-Goes :
      {live : Live} {l : Ledger} {p : Process k e} (request ret : ℕ) (q : Process k e)
      → Serving live l p
      → Serves k own e 0 request l p.tracker ret q
      → Goes 0 ret live l p (answered 0 ret request live) q
  fresh-Goes {live} {l} {p} request ret q now (l', (since, fit), given) =
      let lost : 0 ≡ (if ret == 0 then 0 else 0) = ground arith in
      answered-Goes now 0 l' q fit ret request
        (subst (λ a. Since k own a l p.tracker l' q.tracker) lost since) given

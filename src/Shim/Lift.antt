-- ===== src/Shim/Lift.antt =====
-- Runs of the allocator and of the sampler inside a process.
use poireau.Prelude.{ℕ, ◌≡◌}
use poireau.Exec.{Outcome, done, and_then, ◌>>=◌, Exec}
use poireau.Exec.Returns.{Returns, normally}
use poireau.Kernel.{Kernel}
use poireau.Sample.{Entropy, Doubles}
use poireau.TrackedAlloc.{Tracker, Track}
use poireau.Shim.{Host, Process, tracking, with_tracker}

module _ (k : Kernel) (e : Entropy) (d : Doubles) (h : Host k) (rounds : ℕ) {A B : Type 0}
    (f : A → Exec (Process k e) B) (p : Process k e) where
  pub tracking_then :
      (m : Track k A) (a : A) (t : Tracker k)
      → m p.tracker ≡ done a t
      → (tracking k e d h rounds m >>= f) p ≡ f a (record p { tracker = t })
  tracking_then m a t run = rw (tracking, run)

module _ (k : Kernel) (e : Entropy) (d : Doubles) (h : Host k) (rounds : ℕ) {A : Type 0}
    {P : A → Tracker k → Type 0} {Q : A → Process k e → Type 0} (p : Process k e) where
  -- A run of the allocator at the end.
  pub tracking-Returns :
      (m : Track k A)
      → Returns P (m p.tracker)
      → ((a : A) (t : Tracker k) → P a t → Q a (record p { tracker = t }))
      → Returns Q (tracking k e d h rounds m p)
  tracking-Returns m r imp = lift r
    where
      lift : {o : Outcome (Tracker k) A} → Returns P o → Returns Q (with_tracker k e d h rounds p o)
      lift (normally a) = normally (imp _ _ a)

module _ (k : Kernel) (e : Entropy) (d : Doubles) (h : Host k) (rounds : ℕ) {A B : Type 0}
    {P : A → Tracker k → Type 0} {Q : B → Process k e → Type 0} (f : A → Exec (Process k e) B)
    (p : Process k e) where
  -- A run of the allocator, and what comes after it.
  pub tracking-bind :
      (m : Track k A)
      → Returns P (m p.tracker)
      → ((a : A) (t : Tracker k) → P a t → Returns Q (f a (record p { tracker = t })))
      → Returns Q ((tracking k e d h rounds m >>= f) p)
  tracking-bind m r next = lift r
    where
      lift :
          {o : Outcome (Tracker k) A}
          → Returns P o
          → Returns Q (and_then (with_tracker k e d h rounds p o) f)
      lift (normally a) = next _ _ a

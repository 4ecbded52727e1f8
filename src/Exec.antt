-- ===== src/Exec.antt =====
-- Runs of C code over an explicit state: a result with the new state, or the reason why the
-- process does not get there. The sources keep `assert` enabled (make.sh sets no NDEBUG), so a
-- failed assertion stops the process.
pub mod Returns
pub mod Ends
use poireau.Prelude.{Bool, true, false, if◌then◌else◌}

pub data Failure : Type 0 where
  assertion out_of_bounds out_of_fuel null_call : Failure

pub data Outcome (S A : Type 0) : Type 0 where
  done : A → S → Outcome S A
  failed : Failure → Outcome S A

abbrev pub Exec : Type 0 → Type 0 → Type 0
Exec S A = S → Outcome S A

module _ {S : Type 0} where
  abbrev pub pure : {A : Type 0} → A → Exec S A
  pure a = λ s. done a s

  abbrev pub fail : {A : Type 0} → Failure → Exec S A
  fail e = λ _. failed e

  abbrev pub and_then : {A B : Type 0} → Outcome S A → (A → Exec S B) → Outcome S B
  and_then (done a s) k = k a s
  and_then (failed e) k = failed e

  infixl 5 ◌>>=◌ ◌>>◌
  abbrev pub ◌>>=◌ : {A B : Type 0} → Exec S A → (A → Exec S B) → Exec S B
  m >>= k = λ s. and_then (m s) k

  abbrev pub ◌>>◌ : {A B : Type 0} → Exec S A → Exec S B → Exec S B
  m >> n = m >>= λ _. n

  abbrev pub gets : {A : Type 0} → (S → A) → Exec S A
  gets f = λ s. done (f s) s

  abbrev pub modify : (S → S) → Exec S (Unit {0})
  modify f = λ s. done tt (f s)

  -- `assert(c)`
  abbrev pub check : Bool → Exec S (Unit {0})
  check c = if c then pure tt else fail Failure.assertion

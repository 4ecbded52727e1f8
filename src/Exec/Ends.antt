-- ===== src/Exec/Ends.antt =====
-- Runs that search: they end normally, or the search does not succeed within its rounds.
use mathlib.Core.Path.{◌≡◌, subst}
use poireau.Exec.{Failure, Outcome, done, failed, Exec, and_then}
use poireau.Exec.Returns.{Returns, normally}

-- `Q` says which search was not successful.
pub data Ends {S A : Type 0} (P : A → S → Type 0) (Q : Type 0) : Outcome S A → Type 0 where
  ends : {a : A} {s : S} → P a s → Ends P Q (done a s)
  searches : Q → Ends P Q (failed Failure.out_of_fuel)

module _ {S A : Type 0} {P : A → S → Type 0} {Q : Type 0} where
  pub bind :
      {B : Type 0} {R : B → S → Type 0} {r : Outcome S A} {k : A → Exec S B}
      → Ends P Q r
      → ((a : A) (s : S) → P a s → Ends R Q (k a s))
      → Ends R Q (and_then r k)
  bind (ends p) next = next _ _ p
  bind (searches q) next = searches q

  pub of_Returns : {r : Outcome S A} → Returns P r → Ends P Q r
  of_Returns (normally p) = ends p

  pub weaken :
      {R : A → S → Type 0} {r : Outcome S A}
      → Ends P Q r
      → ((a : A) (s : S) → P a s → R a s)
      → Ends R Q r
  weaken (ends p) imp = ends (imp _ _ p)
  weaken (searches q) imp = searches q

-- What is known of the result, at a run that is known to end.
pub at_done :
    {S A : Type 0} {P : A → S → Type 0} {Q : Type 0} {r : Outcome S A} {a : A} {s : S}
    → Ends P Q r
    → r ≡ done a s
    → P a s
at_done {S} {A} {P} {Q} p e = inverse (subst (Ends P Q) e p)
  where
    inverse : {a : A} {s : S} → Ends P Q (done a s) → P a s
    inverse (ends q) = q

-- ===== src/Exec/Returns.antt =====
-- Total correctness: a run ends normally, with a result and a state that meet a postcondition.
use mathlib.Core.Path.{◌≡◌, subst}
use poireau.Exec.{Outcome, done, Exec, and_then}

pub data Returns {S A : Type 0} (P : A → S → Type 0) : Outcome S A → Type 0 where
  normally : {a : A} {s : S} → P a s → Returns P (done a s)

module _ {S A : Type 0} {P : A → S → Type 0} where
  pub bind :
      {B : Type 0} {Q : B → S → Type 0} {r : Outcome S A} {k : A → Exec S B}
      → Returns P r
      → ((a : A) (s : S) → P a s → Returns Q (k a s))
      → Returns Q (and_then r k)
  bind (normally p) next = next _ _ p

  pub weaken :
      {Q : A → S → Type 0} {r : Outcome S A}
      → Returns P r
      → ((a : A) (s : S) → P a s → Q a s)
      → Returns Q r
  weaken (normally p) imp = normally (imp _ _ p)

-- What is known of the result, at a run that is known to end.
pub at_done :
    {S A : Type 0} {P : A → S → Type 0} {r : Outcome S A} {a : A} {s : S}
    → Returns P r
    → r ≡ done a s
    → P a s
at_done {S} {A} {P} p e = inverse (subst (Returns P) e p)
  where
    inverse : {a : A} {s : S} → Returns P (done a s) → P a s
    inverse (normally q) = q

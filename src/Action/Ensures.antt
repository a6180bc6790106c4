-- ===== src/Action/Ensures.antt =====
-- What holds after an action that succeeds, one rule for each way to build an action.
use lethe_project.Prelude.{◌≡◌, refl, Bool, true, false, Option, none, some, arith}
use lethe_project.Error.{Result, ok, err, AppError}
use lethe_project.Action.{Action, or_fail, guard, ◌>>=◌, continue}

-- Where `m` succeeds, `Q` holds of its result and of the state after it.
pub record Ensures {S A : Type 0} (Q : A → S → Type 0) (m : Action S A) : Type 0 where
  pub at : (s : S) (a : A) (s' : S) → m s ≡ (ok a, s') → Q a s'

module _ {S A B : Type 0} {Q : B → S → Type 0} where
  continue-Ensures :
      (f : A → Action S B) (r : Result AppError A) (s : S) (b : B) (s' : S)
      → ((a : A) → Ensures Q (f a))
      → continue f r s ≡ (ok b, s')
      → Q b s'
  continue-Ensures f (ok a) s b s' k h = (k a).at s b s' h
  continue-Ensures f (err e) s b s' k h = ground arith

  -- Only what the rest ensures is kept.
  pub Ensures-bind :
      (m : Action S A) (f : A → Action S B) → ((a : A) → Ensures Q (f a)) → Ensures Q (m >>= f)
  unfolding ◌>>=◌
  Ensures-bind m f k = record {
    at = λ s b s' h. let (r, t) = m s in continue-Ensures f r t b s' k h;
  }

  pub Ensures-or_fail :
      (o : Option A) (e : AppError) (f : A → Action S B)
      → ((a : A) → o ≡ some a → Ensures Q (f a))
      → Ensures Q (or_fail o e >>= f)
  unfolding ◌>>=◌
  Ensures-or_fail none e f k = record { at = λ s b s' h. ground arith }
  Ensures-or_fail (some a) e f k = record { at = λ s b s' h. (k a refl).at s b s' h }

pub Ensures-guard :
    {S B : Type 0} {Q : B → S → Type 0} (t : Bool) (e : AppError) (f : Unit {0} → Action S B)
    → (t ≡ true → Ensures Q (f tt))
    → Ensures Q (guard t e >>= f)
unfolding ◌>>=◌
Ensures-guard true e f k = record { at = λ s b s' h. (k refl).at s b s' h }
Ensures-guard false e f k = record { at = λ s b s' h. ground arith }

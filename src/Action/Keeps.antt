-- ===== src/Action/Keeps.antt =====
-- What an action leaves true of the state, on every way out.
use lethe_project.Prelude.{Bool, true, false, Option, none, some}
use lethe_project.Error.{Result, ok, err, AppError}
use lethe_project.Action.{Action, pure, fail, gets, modify, or_fail, guard, ◌>>=◌, continue}

-- Where `P` holds before `action`, it holds after it, also where `action` answers with an error.
pub record Keeps {S A : Type 0} (P : S → Type 0) (action : Action S A) : Type 0 where
  pub at : (before : S) → P before → P (action before).1

module _ {S A : Type 0} {P : S → Type 0} where
  pub Keeps-modify : (write : S → A × S) → ((s : S) → P s → P (write s).1) → Keeps P (modify write)
  unfolding modify
  Keeps-modify write kept = record { at = kept }

  pub Keeps-or_fail : (found : Option A) (e : AppError) → Keeps P (or_fail found e)
  unfolding or_fail
  Keeps-or_fail (some a) e = record { at = λ s p. p }
  Keeps-or_fail none e = record { at = λ s p. p }

  pub Keeps-gets : (read : S → A) → Keeps P (gets read)
  unfolding gets
  Keeps-gets read = record { at = λ s p. p }

  pub Keeps-fail : (e : AppError) → Keeps P (fail {A = A} e)
  unfolding fail
  Keeps-fail e = record { at = λ s p. p }

  pub Keeps-pure : (answer : A) → Keeps P (pure answer)
  unfolding pure
  Keeps-pure answer = record { at = λ s p. p }

pub Keeps-guard : {S : Type 0} {P : S → Type 0} (b : Bool) (e : AppError) → Keeps P (guard b e)
unfolding guard
Keeps-guard true e = record { at = λ s h. h }
Keeps-guard false e = record { at = λ s h. h }

module _ {S A B : Type 0} {P : S → Type 0} where
  continue-Keeps :
      (f : A → Action S B) (r : Result AppError A) (s : S)
      → ((a : A) → Keeps P (f a))
      → P s
      → P (continue f r s).1
  continue-Keeps f (ok a) s k h = (k a).at s h
  continue-Keeps f (err e) s k h = h

  pub Keeps-bind :
      (first : Action S A) (rest : A → Action S B)
      → Keeps P first
      → ((answer : A) → Keeps P (rest answer))
      → Keeps P (first >>= rest)
  unfolding ◌>>=◌
  Keeps-bind first rest kept going = record {
    at = λ s p. let (r, t) = first s in continue-Keeps rest r t going (kept.at s p);
  }

pub ruleset keeps_rules =
    (Keeps-pure, Keeps-fail, Keeps-gets, Keeps-or_fail, Keeps-guard, Keeps-bind)

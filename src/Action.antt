-- ===== src/Action.antt =====
-- Handlers: they read and write the database and may fail with `?`. A statement that ran before the
-- failure stays written, so the state comes back beside the error too.
pub mod Keeps
pub mod Ensures
pub mod Steps
use lethe_project.Prelude.{Bool, true, false, Option, none, some}
use lethe_project.Error.{Result, ok, err, AppError}

abbrev pub Action : Type 0 → Type 0 → Type 0
Action S A = S → Result AppError A × S

module _ {S A : Type 0} where
  unfoldable pub pure : A → Action S A
  pure a s = (ok a, s)

  unfoldable pub fail : AppError → Action S A
  fail e s = (err e, s)

  -- a query
  unfoldable pub gets : (S → A) → Action S A
  gets f s = (ok (f s), s)

  -- a statement, with what it returns
  unfoldable pub modify : (S → A × S) → Action S A
  modify f s = let (a, s') = f s in (ok a, s')

  -- `.ok_or(e)?`
  unfoldable pub or_fail : Option A → AppError → Action S A
  or_fail none e s = (err e, s)
  or_fail (some a) e s = (ok a, s)

-- `if !test { return Err(e); }`
unfoldable pub guard : {S : Type 0} → Bool → AppError → Action S (Unit {0})
guard true e s = (ok tt, s)
guard false e s = (err e, s)

module _ {S A B : Type 0} where
  abbrev pub continue : (A → Action S B) → Result AppError A → S → Result AppError B × S
  continue f (ok a) s = f a s
  continue f (err e) s = (err e, s)

  infixl 10 ◌>>=◌ ◌>>◌
  -- opening this opens the actions above too
  unfoldable pub ◌>>=◌ : Action S A → (A → Action S B) → Action S B
  unfolding pure fail gets modify or_fail guard
  ◌>>=◌ m f s = let (r, s') = m s in continue f r s'

  abbrev pub ◌>>◌ : Action S A → Action S B → Action S B
  ◌>>◌ m n = m >>= λ _. n

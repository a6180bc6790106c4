-- ===== src/Action/Steps.antt =====
-- An action that succeeds, taken apart into its steps.
use lethe_project.Prelude.{◌≡◌, refl, sym, ap, subst, Bool, true, false, Option, none, some, arith}
use lethe_project.Action.{Action, continue, or_fail, pure, guard, ◌>>=◌}
use lethe_project.Action.Keeps.{Keeps}
use lethe_project.Error.{Result, ok, err, AppError}

-- A block that succeeds has a first step that succeeds.
continue-ok :
    {S A B : Type 0} (f : A → Action S B) (r : Result AppError A) (t : S) (b : B) (s' : S)
    → continue f r t ≡ (ok b, s')
    → (a : A) × (u : S) × (◌≡◌ {A = Result AppError A × S} (r, t) (ok a, u)) × (f a u ≡ (ok b, s'))
continue-ok f (ok a) t b s' h = (a, t, refl, h)
continue-ok f (err e) t b s' h = ground arith

pub bind-ok :
    {S A B : Type 0} (m : Action S A) (f : A → Action S B) (s : S) (b : B) (s' : S)
    → (m >>= f) s ≡ (ok b, s')
    → (a : A) × (t : S) × (m s ≡ (ok a, t)) × (f a t ≡ (ok b, s'))
unfolding ◌>>=◌
bind-ok m f s b s' h = let (r, t) = m s in continue-ok f r t b s' h

answer : {A : Type 0} → Result AppError A → Option A
answer (ok a) = some a
answer (err e) = none

pub or_fail-ok :
    {S A : Type 0} (o : Option A) (e : AppError) (a : A) (s t : S)
    → or_fail o e s ≡ (ok a, t)
    → (t ≡ s) × (o ≡ some a)
unfolding or_fail answer
or_fail-ok none e a s t h = ground arith
or_fail-ok (some b) e a s t h = (sym (ap (λ r. r.1) h), ap (λ r. answer r.0) h)

pub pure-ok : {S A : Type 0} (a b : A) (s t : S) → pure a s ≡ (ok b, t) → a ≡ b
unfolding pure answer
pure-ok a b s t h = let e : some a ≡ some b = ap (λ r. answer r.0) h in ground (arith, e)

pub guard-ok :
    {S : Type 0} (b : Bool) (e : AppError) (s : S) (u : Unit {0}) (t : S)
    → guard b e s ≡ (ok u, t)
    → b ≡ true
unfolding guard
guard-ok true e s u t h = refl
guard-ok false e s u t h = ground arith

-- Where `action` starts in a state of `P` and succeeds, `Q` holds of its result and of the state after it.
pub record Runs {S A : Type 0} (P : S → Type 0) (Q : A → S → Type 0) (action : Action S A)
    : Type 0 where
  pub at : (s : S) (a : A) (t : S) → P s → action s ≡ (ok a, t) → Q a t

kept-state :
    {S A : Type 0} {P : S → Type 0} (m : Action S A) (s t : S) (a : A)
    → Keeps P m
    → P s
    → m s ≡ (ok a, t)
    → P t
kept-state {P = P} m s t a kept p e = subst P (ap (λ r. r.1) e) (kept.at s p)

-- A first step that keeps `P` and whose results are all of `C`
pub Runs-bind :
    {S A B : Type 0} {P : S → Type 0} {Q : B → S → Type 0} (C : A → Type 0) (m : Action S A)
    (f : A → Action S B)
    → Keeps P m
    → ((s : S) (a : A) (t : S) → P s → m s ≡ (ok a, t) → C a)
    → ((a : A) → C a → Runs P Q (f a))
    → Runs P Q (m >>= f)
Runs-bind C m f kept yields rest = record {
  at = λ s b u p h.
      (let (a, t, e, k) = bind-ok m f s b u h in
        (rest a (yields s a t p e)).at t b u (kept-state m s t a kept p e) k);
}

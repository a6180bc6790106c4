-- ===== src/Paging/Walk/Order.antt =====
-- Rows whose keys differ are put into one strict order.
use lethe_project.Prelude.{
  suc, ◌≤◌, length, ◌≡◌, refl, Bool, true, false, Bool-cases, inl, inr, ◌⊎◌, List, [], ◌∷◌, All,
  All-weaken, arith, if◌then◌else◌,
}
use lethe_project.Table.{select, place, order_by}
use lethe_project.Table.Every.{All-select, All-place, All-order_by}

-- A strict order
pub record IsOrder {A : Type 0} (before : A → A → Bool) : Type 0 where
  pub irrefl : (a : A) → before a a ≡ false
  pub trans : (a b c : A) → before a b ≡ true → before b c ≡ true → before a c ≡ true

module _ {A : Type 0} (before : A → A → Bool) where
  -- One of the two comes first.
  abbrev pub IsApart : A → A → Type 0
  IsApart a b = (before a b ≡ true) ⊎ (before b a ≡ true)

  abbrev pub AreDistinct : List A → Type 0
  AreDistinct [] = Unit
  AreDistinct (x ∷ xs) = All (IsApart x) xs × AreDistinct xs

  abbrev pub IsSorted : List A → Type 0
  IsSorted [] = Unit
  IsSorted (x ∷ xs) = All (λ y. before x y ≡ true) xs × IsSorted xs

  pub asym : IsOrder before → (a b : A) → before a b ≡ true → before b a ≡ false
  asym o a b h = elim (Bool-cases (before b a)) [
    | inl t ↦ absurd (ground (arith, o.irrefl a, o.trans a b a h t))
    | inr t ↦ t
  ]

  first_of : (a b : A) → IsApart a b → before b a ≡ false → before a b ≡ true
  first_of a b (inl u) h = u
  first_of a b (inr u) h = ground arith

  place-IsSorted :
      IsOrder before
      → (x : A) (ys : List A) → All (IsApart x) ys
      → IsSorted ys
      → IsSorted (place before x ys)
  unfolding place
  place-IsSorted o x [] h k = (tt, tt)
  place-IsSorted o x (y ∷ ys) (h, hs) (k, ks) = elim (Bool-cases (before y x)) [
    | inl t ↦ rw t (All-place before (λ z. before y z ≡ true) x ys t k, place-IsSorted o x ys hs ks)
    | inr t ↦
        let x_y = first_of x y h t in
        rw t ((x_y, All-weaken (λ z. before x z ≡ true) ys (λ z. o.trans x y z x_y) k), (k, ks))
  ]

  pub order-IsSorted :
      IsOrder before → (xs : List A) → AreDistinct xs → IsSorted (order_by before xs)
  unfolding order_by
  order-IsSorted o [] h = tt
  order-IsSorted o (x ∷ xs) (h, hs) =
      place-IsSorted o x (order_by before xs) (All-order_by before (IsApart x) xs h)
        (order-IsSorted o xs hs)

  -- Every later row comes after a row that comes before the first.
  place-first :
      (x : A) (ys : List A) → All (λ y. before y x ≡ false) ys → place before x ys ≡ x ∷ ys
  unfolding place
  place-first x [] h = refl
  place-first x (y ∷ ys) (h, hs) = rw h refl

  select-place :
      IsOrder before
      → (p : A → Bool) (x : A) (ys : List A) → All (IsApart x) ys
      → IsSorted ys
      → select p (place before x ys) ≡ (if p x then place before x (select p ys) else select p ys)
  unfolding select place
  select-place o p x [] h k = refl
  select-place o p x (y ∷ ys) (h, hs) (k, ks) = elim (Bool-cases (before y x)) [
    | inl t ↦ let rest = select-place o p x ys hs ks in ground arith
    | inr t ↦
        let x_y = first_of x y h t in
        let f = place-first x (select p ys) (
          All-select (λ z. before z x ≡ false) p ys
            (All-weaken (λ z. before z x ≡ false) ys (λ z u. asym o x z (o.trans x y z x_y u))
              k)) in
        ground arith
  ]

  pub select-order :
      IsOrder before
      → (p : A → Bool) (xs : List A) → AreDistinct xs
      → select p (order_by before xs) ≡ order_by before (select p xs)
  unfolding select order_by
  select-order o p [] h = refl
  select-order o p (x ∷ xs) (h, hs) =
      let s =
        select-place o p x (order_by before xs) (All-order_by before (IsApart x) xs h)
          (order-IsSorted o xs hs) in
      let rest = select-order o p xs hs in ground arith

  pub AreDistinct-select : (p : A → Bool) (xs : List A) → AreDistinct xs → AreDistinct (select p xs)
  unfolding select
  AreDistinct-select p [] h = tt
  AreDistinct-select p (x ∷ xs) (h, hs) = elim (Bool-cases (p x)) [
    | inl t ↦ rw t (All-select (IsApart x) p xs h, AreDistinct-select p xs hs)
    | inr t ↦ rw t (AreDistinct-select p xs hs)
  ]

  length-place : (x : A) (ys : List A) → length (place before x ys) ≡ suc (length ys)
  unfolding place
  length-place x [] = refl
  length-place x (y ∷ ys) = ground (arith, length-place x ys)

  pub length-order : (xs : List A) → length (order_by before xs) ≡ length xs
  unfolding order_by
  length-order [] = refl
  length-order (x ∷ xs) = omega (arith, length-place x (order_by before xs), length-order xs)

pub length-select-le : {A : Type 0} (p : A → Bool) (xs : List A) → length (select p xs) ≤ length xs
unfolding select
length-select-le p [] = omega arith
length-select-le p (x ∷ xs) = ground (arith, length-select-le p xs)

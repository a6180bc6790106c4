-- ===== src/Paging/Walk.antt =====
-- Walking through the pages of a list of rows, each page after the last row of the one before.
pub mod Order
pub mod Next
use lethe_project.Prelude.{
  ℕ, zero, suc, ◌≤◌, ◌<◌, ◌+◌, ◌≡◌, refl, sym, ap, ◌∙◌, subst, Bool, true, false, Bool-cases, inl,
  inr, ◌⊎◌, Option, none, some, List, [], ◌∷◌, ◌++◌, length, take, drop, last, take-drop,
  length-drop-le, last-cons, All, All-weaken, arith, if◌then◌else◌,
}
use lethe_project.Table.{select}
use lethe_project.Table.Rows.{select-select}
use lethe_project.Table.Every.{All-order_by, All-select, All-select_test}
use lethe_project.Paging.{is_after, in_order, page}
use lethe_project.Paging.Walk.Order.{
  IsSorted, AreDistinct, IsOrder, asym, length-order, length-select-le, AreDistinct-select,
  order-IsSorted, select-order,
}

-- Page after page, each from the key of the last row before it, with at most so many requests
unfoldable pub follow : {A K : Type 0} → (Option K → List A) → (A → K) → ℕ → Option K → List A
follow next key zero cursor = []
follow next key (suc fuel) cursor = elim (last (next cursor)) [
  | none ↦ []
  | some r ↦ next cursor ++ follow next key fuel (some (key r))
]

module _ {A K : Type 0} (before : K → K → Bool) (key : A → K) where
  -- All pages of a list of rows
  unfoldable pub walk : ℕ → Option K → ℕ → List A → List A
  unfolding follow page
  walk fuel cursor limit rows = follow (λ c. page before key c limit rows) key fuel cursor

  unfoldable pub row_before : A → A → Bool
  row_before a b = before (key a) (key b)

  module _ (o : IsOrder before) where
    row-IsOrder : IsOrder row_before
    unfolding row_before
    row-IsOrder = record {
      irrefl = λ a. o.irrefl (key a);
      trans = λ a b c. o.trans (key a) (key b) (key c);
    }

    select_later :
        (x : A) (ys : List A)
        → All (λ y. row_before x y ≡ true) ys
        → select (is_after before key (some (key x))) ys ≡ ys
    unfolding select is_after row_before
    select_later x [] h = refl
    select_later x (y ∷ ys) (h, hs) = rw (h, select_later x ys hs) refl

    last-one : (y : A) → last (y ∷ []) ≡ some y
    unfolding last
    last-one y = refl

    last-take_nil : (n : ℕ) → last {A = A} (take (suc n) []) ≡ none
    unfolding take last
    last-take_nil n = refl

    first_to_last :
        (y z x : A)
        → row_before y z ≡ true
        → (row_before z x ≡ true) ⊎ (z ≡ x)
        → row_before y x ≡ true
    first_to_last y z x h (inl r) = row-IsOrder.trans y z x h r
    first_to_last y z x h (inr r) = subst (λ w. row_before y w ≡ true) r h

    select-skip :
        (c : K) (y : A) (ys : List A)
        → before c (key y) ≡ false
        → select (is_after before key (some c)) (y ∷ ys) ≡ select (is_after before key (some c)) ys
    unfolding select is_after
    select-skip c y ys h = rw h refl

    -- The rows after the last row of a page are those that the page leaves out.
    after-last :
        (n : ℕ) (y : A) (ys : List A)
        → IsSorted row_before (y ∷ ys)
        → (x : A) × ((last (take (suc n) (y ∷ ys)) ≡ some x)
            × ((select (is_after before key (some (key x))) (y ∷ ys) ≡ drop (suc n) (y ∷ ys))
                × ((row_before y x ≡ true) ⊎ (y ≡ x))))
    unfolding take drop row_before
    after-last zero y ys (h, hs) = (
      y,
      (last-one y, (select-skip (key y) y ys (o.irrefl (key y)) ∙ select_later y ys h, inr refl)),
    )
    after-last (suc n) y [] (h, hs) = (
      y,
      (last-one y, (select-skip (key y) y [] (o.irrefl (key y)) ∙ select_later y [] tt, inr refl)),
    )
    after-last (suc n) y (z ∷ zs) ((h, h'), hs) =
        let (x, (l, (e, r))) = after-last n z zs hs in
        let y_x = first_to_last y z x h r in
        (
          x,
          (
            last-cons y x _ l,
            (select-skip (key x) y (z ∷ zs) (asym before o (key y) (key x) y_x) ∙ e, inl y_x),
          ),
        )

    select-everything : (rows : List A) → select (is_after before key none) rows ≡ rows
    unfolding select is_after
    select-everything [] = refl
    select-everything (x ∷ xs) = rw (select-everything xs) refl

    -- The rows that are left after a cursor
    unfoldable pub left : Option K → List A → List A
    left c rows = in_order before key (select (is_after before key c) rows)

    left-order :
        (c : Option K) (rows : List A)
        → AreDistinct row_before rows
        → select (is_after before key c) (in_order before key rows) ≡ left c rows
    unfolding left in_order row_before
    left-order c rows h = select-order row_before row-IsOrder (is_after before key c) rows h

    is_after-last :
        (c : Option K) (y x : A)
        → is_after before key c y ≡ true
        → (row_before y x ≡ true) ⊎ (y ≡ x)
        → (a : A) → is_after before key (some (key x)) a ≡ true
        → is_after before key c a ≡ true
    unfolding is_after row_before
    is_after-last none y x h r a k = refl
    is_after-last (some c) y x h (inl r) a k =
        o.trans c (key x) (key a) (o.trans c (key y) (key x) h r) k
    is_after-last (some c) y x h (inr r) a k =
        o.trans c (key x) (key a) (subst (λ w. before c (key w) ≡ true) r h) k

    left-after :
        (c : Option K) (rows : List A) → All (λ x. is_after before key c x ≡ true) (left c rows)
    unfolding left in_order
    left-after c rows =
        All-order_by _ (λ x. is_after before key c x ≡ true) _
          (All-select_test (is_after before key c) rows)

    length-drop-lt :
        (n fuel : ℕ) (y : A) (ys : List A)
        → length (y ∷ ys) < suc fuel
        → length (drop (suc n) (y ∷ ys)) < fuel
    unfolding drop
    length-drop-lt n fuel y ys h = omega (arith, length-drop-le n ys, h)

    pub page-left :
        (c : Option K) (n : ℕ) (rows xs : List A)
        → left c rows ≡ xs
        → page before key c n rows ≡ take n xs
    unfolding left page
    page-left c n rows xs h = ap (take n) h

    left-next :
        (c : Option K) (rows : List A) (n : ℕ) (y : A) (ys : List A) (x : A)
        → AreDistinct row_before rows
        → left c rows ≡ y ∷ ys
        → is_after before key c y ≡ true
        → (row_before y x ≡ true) ⊎ (y ≡ x)
        → select (is_after before key (some (key x))) (y ∷ ys) ≡ drop (suc n) (y ∷ ys)
        → left (some (key x)) rows ≡ drop (suc n) (y ∷ ys)
    left-next c rows n y ys x d h k r e =
        sym (left-order (some (key x)) rows d)
        ∙ (sym (
              select-select _ (is_after before key c) (in_order before key rows)
                (is_after-last c y x k r))
            ∙ (ap (select (is_after before key (some (key x)))) (left-order c rows d ∙ h) ∙ e))

    walk-step :
        (fuel n : ℕ) (c : Option K) (rows xs : List A)
        → AreDistinct row_before rows
        → ((c' : Option K)
            → length (left c' rows) < fuel
            → walk fuel c' (suc n) rows ≡ left c' rows)
        → left c rows ≡ xs
        → IsSorted row_before xs
        → All (λ x. is_after before key c x ≡ true) xs
        → length xs < suc fuel
        → walk (suc fuel) c (suc n) rows ≡ xs
    unfolding walk follow
    walk-step fuel n c rows [] d ih h s a l =
        rw (walk, follow, page-left c (suc n) rows [] h, last-take_nil n) refl
    walk-step fuel n c rows (y ∷ ys) d ih h s (a, _) l =
        let (x, (t, (e, r))) = after-last n y ys s in
        let next = left-next c rows n y ys x d h a r e in
        let bound : length (left (some (key x)) rows) < fuel =
          rw next (length-drop-lt n fuel y ys l) in
        rw
          (
            walk,
            follow,
            page-left c (suc n) rows (y ∷ ys) h,
            t,
            page-left c (suc n) rows (y ∷ ys) h,
            ih (some (key x)) bound,
            next,
          )
          (take-drop (suc n) (y ∷ ys))

    left-IsSorted :
        (c : Option K) (rows : List A)
        → AreDistinct row_before rows
        → IsSorted row_before (left c rows)
    unfolding left in_order row_before is_after
    left-IsSorted c rows d =
        order-IsSorted row_before row-IsOrder _
          (AreDistinct-select row_before (is_after before key c) rows d)

    pub walk-left :
        (fuel n : ℕ) (c : Option K) (rows : List A)
        → AreDistinct row_before rows
        → length (left c rows) < fuel
        → walk fuel c (suc n) rows ≡ left c rows
    walk-left zero n c rows d l = absurd (omega (arith, l))
    walk-left (suc fuel) n c rows d l =
        walk-step fuel n c rows (left c rows) d (λ c' k. walk-left fuel n c' rows d k) refl
          (left-IsSorted c rows d) (left-after c rows) l

    pub length-left-le : (c : Option K) (rows : List A) → length (left c rows) ≤ length rows
    unfolding left in_order row_before
    length-left-le c rows = omega (
      arith,
      length-order row_before (select (is_after before key c) rows),
      length-select-le (is_after before key c) rows,
    )

    pub left-all : (rows : List A) → left none rows ≡ in_order before key rows
    unfolding left
    left-all rows = ap (in_order before key) (select-everything rows)

    -- Every row comes once, in order, whatever the size of a page.
    pub walk-all :
        (fuel n : ℕ) (rows : List A)
        → AreDistinct row_before rows
        → length rows < fuel
        → walk fuel none (suc n) rows ≡ in_order before key rows
    walk-all fuel n rows d h =
        walk-left fuel n none rows d (omega (arith, length-left-le none rows, h)) ∙ left-all rows

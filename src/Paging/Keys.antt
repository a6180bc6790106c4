-- ===== src/Paging/Keys.antt =====
-- The keys that the queries page by are strictly ordered, and rows with different ids are apart.
use lethe_project.Prelude.{
  ℕ, ◌≡◌, refl, true, false, ◌⊎◌, inl, inr, [], ◌∷◌, Bytes, same, lex_lt, arith,
}
use lethe_project.Db.{Date}
use lethe_project.Paging.{ℤ, pos, negsuc, ltz, same_day, earlier, later}
use lethe_project.Paging.Walk.Order.{IsOrder}

lex_lt_irrefl : (a : Bytes) → lex_lt a a ≡ false
unfolding lex_lt
lex_lt_irrefl [] = refl
lex_lt_irrefl (x ∷ xs) = ground (arith, lex_lt_irrefl xs)

lex_lt_trans : (a b c : Bytes) → lex_lt a b ≡ true → lex_lt b c ≡ true → lex_lt a c ≡ true
unfolding lex_lt
lex_lt_trans a b [] h k = ground arith
lex_lt_trans a [] (z ∷ zs) h k = ground arith
lex_lt_trans [] (y ∷ ys) (z ∷ zs) h k = refl
lex_lt_trans (x ∷ xs) (y ∷ ys) (z ∷ zs) h k = ground (arith, lex_lt_trans xs ys zs)

lex_lt-total : (a b : Bytes) → same a b ≡ false → (lex_lt a b ≡ true) ⊎ (lex_lt b a ≡ true)
unfolding lex_lt same
lex_lt-total [] [] h = ground arith
lex_lt-total [] (y ∷ ys) h = inl refl
lex_lt-total (x ∷ xs) [] h = inr refl
lex_lt-total (x ∷ xs) (y ∷ ys) h = ground (arith, lex_lt-total xs ys)

earlier_irrefl : (a : ℤ × Bytes) → earlier a a ≡ false
unfolding earlier ltz same_day
earlier_irrefl (pos n, i) = ground (arith, lex_lt_irrefl i)
earlier_irrefl (negsuc n, i) = ground (arith, lex_lt_irrefl i)

earlier_trans : (a b c : ℤ × Bytes) → earlier a b ≡ true → earlier b c ≡ true → earlier a c ≡ true
unfolding earlier ltz same_day
earlier_trans (pos l, i) (pos m, j) (pos n, k) g h = ground (arith, lex_lt_trans i j k)
earlier_trans (negsuc l, i) (negsuc m, j) (negsuc n, k) g h = ground (arith, lex_lt_trans i j k)
earlier_trans (negsuc l, i) b (pos n, k) g h = refl
earlier_trans (pos l, i) (negsuc m, j) c g h = ground arith
earlier_trans a (pos m, j) (negsuc n, k) g h = ground arith

pub earlier-IsOrder : IsOrder earlier
earlier-IsOrder = record { irrefl = earlier_irrefl; trans = earlier_trans }

later_irrefl : (a : Date × Bytes) → later a a ≡ false
unfolding later
later_irrefl (d, i) = ground (arith, lex_lt_irrefl i)

later_trans : (a b c : Date × Bytes) → later a b ≡ true → later b c ≡ true → later a c ≡ true
unfolding later
later_trans (l, i) (m, j) (n, k) g h = ground (arith, lex_lt_trans k j i)

pub later-IsOrder : IsOrder later
later-IsOrder = record { irrefl = later_irrefl; trans = later_trans }

pub earlier-apart :
    (d e : ℕ) (i j : Bytes)
    → same i j ≡ false
    → (earlier (pos d, i) (pos e, j) ≡ true) ⊎ (earlier (pos e, j) (pos d, i) ≡ true)
unfolding earlier ltz same_day
earlier-apart d e i j h = ground (arith, lex_lt-total i j h)

pub later-apart :
    (d e : ℕ) (i j : Bytes)
    → same i j ≡ false
    → (later (d, i) (e, j) ≡ true) ⊎ (later (e, j) (d, i) ≡ true)
unfolding later
later-apart d e i j h = ground (arith, lex_lt-total i j h)

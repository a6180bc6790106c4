-- ===== src/Federation/Cursor/RoundTrip.antt =====
-- A server reads back the cursor that it gave to a peer.
use lethe_project.Prelude.{
  ℕ, zero, suc, ◌+◌, ◌/◌, ◌%◌, ◌<◌, ◌≡◌, refl, sym, ap, ◌∙◌, append-nil, Bool, true, none, some, [],
  ◌∷◌, ◌++◌, length, Bytes, Text, ltb, Bool-cases, inl, inr, All, All-append, arith, append_assoc,
  map_option,
}
use lethe_project.Env.{Env}
use lethe_project.Paging.{ℤ, pos}
use lethe_project.Federation.Cursor.{
  digits, display, is_digit, value, number, nonnegative, parse_i32, split_once, parse_parts,
  parse_some, parse_cursor, encode_cursor,
}

IsDigit : ℕ → Type 0
IsDigit c = is_digit c ≡ true

digits-AreDigits : (k n : ℕ) → All (λ c. is_digit c ≡ true) (digits k n)
unfolding digits is_digit
digits-AreDigits zero n = tt
digits-AreDigits (suc k) n = elim (Bool-cases (ltb n 10)) [
  | inl t ↦ rw t (ground arith, tt)
  | inr t ↦
      rw t (All-append _ (digits k (n / 10)) _ (digits-AreDigits k (n / 10)) (ground arith, tt))
]

value-digits : (k n : ℕ) (cs : Text) → n < k → value 0 (digits k n ++ cs) ≡ value n cs
unfolding digits value is_digit
value-digits zero n cs h = absurd (omega (arith, h))
value-digits (suc k) n cs h = elim (Bool-cases (ltb n 10)) [
  | inl t ↦ rw t (ground arith)
  | inr t ↦
      rw
        (
          t,
          append_assoc (digits k (n / 10)) ((48 + n % 10) ∷ []) cs,
          value-digits k (n / 10) ((48 + n % 10) ∷ cs) (ground arith),
        )
        (ground arith)
]

split-digits :
    (ds id : Text) → All (λ c. is_digit c ≡ true) ds → split_once 46 (ds ++ 46 ∷ id) ≡ some (ds, id)
unfolding split_once is_digit
split-digits [] id h = refl
split-digits (d ∷ ds) id (h, hs) = rw (split-digits ds id hs) (ground arith)

number-append : (xs : Text) (c : ℕ) (cs : Text) → number (xs ++ c ∷ cs) ≡ value 0 (xs ++ c ∷ cs)
unfolding number
number-append [] c cs = refl
number-append (x ∷ xs) c cs = refl

number-value : (k n : ℕ) → number (digits (suc k) n) ≡ value 0 (digits (suc k) n)
unfolding digits
number-value k n = elim (Bool-cases (ltb n 10)) [
  | inl t ↦ rw t (number-append [] (48 + n) [])
  | inr t ↦ rw t (number-append (digits k (n / 10)) (48 + n % 10) [])
]

number-digits : (n : ℕ) → number (digits (suc n) n) ≡ some n
unfolding value
number-digits n =
    number-value n n
    ∙ (ap (value 0) (sym (append-nil (digits (suc n) n))) ∙ value-digits (suc n) n [] (omega arith))

parse-number :
    (ds : Text) (n : ℕ)
    → All (λ c. is_digit c ≡ true) ds
    → number ds ≡ some n
    → n < 2147483648
    → parse_i32 ds ≡ some (pos n)
unfolding parse_i32 is_digit nonnegative number
parse-number [] n h k l = ground arith
parse-number (c ∷ cs) n (h, hs) k l = rw k (ground arith)

split_nil : split_once 46 [] ≡ none
unfolding split_once
split_nil = refl

module _ (env : Env) (is_day : ℤ → Bool) where
  parse_some-lem :
      (t day id : Text)
      → split_once 46 t ≡ some (day, id)
      → parse_some env is_day t ≡ map_option some (parse_parts env is_day day id)
  unfolding parse_some
  parse_some-lem [] day id h = absurd (ground (arith, split_nil))
  parse_some-lem (c ∷ cs) day id h = rw (parse_some, h) refl

  -- A server reads back the cursor that it encoded, for a day that is an i32 and a date, and an id of 16 bytes that
  -- base64 reads back.
  pub parse-encode_cursor :
      (n : ℕ) (id : Bytes)
      → n < 2147483648
      → is_day (pos n) ≡ true
      → length id ≡ 16
      → env.unb64 (env.b64 id) ≡ some id
      → parse_cursor env is_day (some (encode_cursor env is_day (pos n) id))
        ≡ some (some (pos n, id))
  unfolding parse_cursor encode_cursor display
  parse-encode_cursor n id l d h b =
      parse_some-lem (display (pos n) ++ 46 ∷ env.b64 id) (display (pos n)) (env.b64 id)
        (split-digits _ _ (digits-AreDigits (suc n) n))
      ∙ rw
          (
            parse_parts,
            parse-number (display (pos n)) n (digits-AreDigits (suc n) n) (number-digits n) l,
            d,
            b,
            h,
          )
          refl

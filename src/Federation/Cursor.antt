-- ===== src/Federation/Cursor.antt =====
-- `parse_cursor` and `encode_cursor` of crates/lethe-server/src/federation/route.rs, with the
-- decimal form of an i32.
pub mod RoundTrip
use lethe_project.Prelude.{
  ℕ, zero, suc, ◌+◌, ◌-◌, ◌*◌, ◌/◌, ◌%◌, ◌^◌, Bool, true, false, ◌&&◌, Option, none, some, List, [],
  ◌∷◌, ◌++◌, length, Bytes, Text, leb, ltb, ◌==◌, if◌then◌else◌, map_option,
}
use lethe_project.Env.{Env}
use lethe_project.Paging.{ℤ, pos, negsuc}

-- The decimal digits of a number below the fuel.
unfoldable pub digits : ℕ → ℕ → Text
digits zero n = []
digits (suc k) n =
    let rest = digits k (n / 10) in if ltb n 10 then (48 + n) ∷ [] else rest ++ (48 + n % 10) ∷ []

-- Display of an i32
unfoldable pub display : ℤ → Text
unfolding digits
display (pos n) = digits (suc n) n
display (negsuc n) = 45 ∷ digits (suc (suc n)) (suc n)

unfoldable pub is_digit : ℕ → Bool
is_digit c = leb 48 c && leb c 57

unfoldable pub value : ℕ → Text → Option ℕ
unfolding is_digit
value acc [] = some acc
value acc (c ∷ cs) = let rest = value (acc * 10 + (c - 48)) cs in if is_digit c then rest else none

unfoldable pub number : Text → Option ℕ
unfolding value
number [] = none
number (c ∷ cs) = value 0 (c ∷ cs)

unfoldable pub nonnegative : Option ℕ → Option ℤ
nonnegative none = none
nonnegative (some n) = if ltb n (2 ^ 31) then some (pos n) else none

unfoldable pub negative : Option ℕ → Option ℤ
negative none = none
negative (some zero) = some (pos 0)
negative (some (suc n)) = if ltb n (2 ^ 31) then some (negsuc n) else none

-- `str::parse::<i32>`
unfoldable pub parse_i32 : Text → Option ℤ
unfolding number nonnegative negative
parse_i32 [] = none
parse_i32 (c ∷ cs) =
    if c == 43
    then nonnegative (number cs)
    else if c == 45
    then negative (number cs)
    else nonnegative (number (c ∷ cs))

-- `split_once`
unfoldable pub split_once : ℕ → Text → Option (Text × Text)
split_once sep [] = none
split_once sep (c ∷ cs) =
    let rest = split_once sep cs in
    if c == sep then some ([], cs) else map_option (λ p. (c ∷ p.0, p.1)) rest

module _ (env : Env)
    -- `Date::from_julian_day` succeeds
    (is_day : ℤ → Bool) where
  -- The end of `parse_cursor`; `none` is its error.
  unfoldable pub parse_parts : Text → Text → Option (ℤ × Bytes)
  unfolding parse_i32
  parse_parts day_str id_str = elim (parse_i32 day_str) [
    | none ↦ none
    | some day ↦
        if is_day day
        then elim (env.unb64 id_str) [
          | none ↦ none
          | some id ↦ if length id == 16 then some (day, id) else none
        ]
        else none
  ]

  unfoldable pub parse_some : Text → Option (Option (ℤ × Bytes))
  unfolding split_once parse_parts
  parse_some [] = some none
  parse_some (c ∷ cs) = elim (split_once 46 (c ∷ cs)) [
    | none ↦ none
    | some (day_str, id_str) ↦ map_option some (parse_parts day_str id_str)
  ]

  unfoldable pub parse_cursor : Option Text → Option (Option (ℤ × Bytes))
  unfolding parse_some
  parse_cursor none = some none
  parse_cursor (some s) = parse_some s

  unfoldable pub encode_cursor : ℤ → Bytes → Text
  unfolding display
  encode_cursor d id = display d ++ 46 ∷ env.b64 id

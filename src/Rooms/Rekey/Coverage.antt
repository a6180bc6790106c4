-- ===== src/Rooms/Rekey/Coverage.antt =====
-- Whose keys a rekey replaces.
use lethe_project.Prelude.{
  ℕ, ◌+◌, ◌≤◌, ◌≡◌, ◌∙◌, sym, refl, Bool, true, false, List, [], ◌∷◌, map, Bytes, arith, same,
  same-eq, same_refl, ◌&&◌, Bool-cases, inl, inr, if◌then◌else◌, All, All-map, length, &&-eq-true,
}
use lethe_project.Table.{any, update, select, delete}
use lethe_project.Table.Every.{All-select_where}
use lethe_project.Error.{ok}
use lethe_project.Db.{Db, Date, Member}
use lethe_project.Rooms.Queries.{has_box, is_active_in, is_active_box, holds}
use lethe_project.Rooms.Rekey.Success.{left, success}
use lethe_project.Rooms.Rekey.{
  Wrap, apply_wraps, wrap_row, survivors, all_survive, remove_and_rekey,
}

-- The key `b` is the box of a wrap.
abbrev pub named : Bytes → List Wrap → Bool
named b wraps = any (λ (w : Wrap). same w.0 b) wraps

-- No box stands in two wraps.
abbrev pub Distinct : List Wrap → Type 0
Distinct [] = Unit
Distinct (w ∷ ws) = (named w.0 ws ≡ false) × Distinct ws

-- A wrap for the row's box holds the row's wrapped key.
abbrev pub has_wrap : List Wrap → Member → Bool
has_wrap wraps m = any (λ (w : Wrap). same w.0 m.member_box_pubkey && holds m.wrapped_key w.1) wraps

-- What the loop does to one row.
rewrap : Bytes → List Wrap → Member → Member
rewrap r [] m = m
rewrap r ((b, w) ∷ ws) m = rewrap r ws (if is_active_box r b m then wrap_row w m else m)

map-update :
    (r : Bytes) (b w : Bytes) (ws : List Wrap) (rows : List Member)
    → map (rewrap r ws) (update (is_active_box r b) (wrap_row w) rows)
      ≡ map (rewrap r ((b, w) ∷ ws)) rows
unfolding rewrap update
map-update r b w ws [] = refl
map-update r b w ws (m ∷ rows) = cc (map-update r b w ws rows)

map-nothing : (r : Bytes) (rows : List Member) → map (rewrap r []) rows ≡ rows
unfolding rewrap
map-nothing r [] = refl
map-nothing r (m ∷ rows) = cc (map-nothing r rows)

apply_wraps-eq_map :
    (r : Bytes) (ws : List Wrap) (rows : List Member)
    → apply_wraps r ws rows ≡ map (rewrap r ws) rows
unfolding apply_wraps
apply_wraps-eq_map r [] rows = sym (map-nothing r rows)
apply_wraps-eq_map r ((b, w) ∷ ws) rows =
    apply_wraps-eq_map r ws (update (is_active_box r b) (wrap_row w) rows)
    ∙ map-update r b w ws rows

-- A row whose box is not named stays as it is.
rewrap-unnamed :
    (r : Bytes) (ws : List Wrap) (m : Member)
    → named m.member_box_pubkey ws ≡ false
    → rewrap r ws m ≡ m
unfolding rewrap any is_active_box has_box
rewrap-unnamed r [] m h = refl
rewrap-unnamed r ((b, w) ∷ ws) m h =
    ground (arith, rewrap-unnamed r ws m, same-eq m.member_box_pubkey b, same_refl b)

rewrap-active :
    (r : Bytes) (ws : List Wrap) (m : Member) → is_active_in r (rewrap r ws m) ≡ is_active_in r m
unfolding rewrap is_active_in
rewrap-active r [] m = refl
rewrap-active r ((b, w) ∷ ws) m =
    ground (arith, rewrap-active r ws m, rewrap-active r ws (wrap_row w m))

rewrap-covered :
    (r : Bytes) (ws : List Wrap) (m : Member)
    → Distinct ws
    → is_active_in r m ≡ true
    → named m.member_box_pubkey ws ≡ true
    → has_wrap ws (rewrap r ws m) ≡ true
unfolding rewrap any is_active_box has_box is_active_in holds
rewrap-covered r [] m d a h = ground arith
rewrap-covered r ((b, w) ∷ ws) m (d, ds) a h = elim (Bool-cases (same b m.member_box_pubkey)) [
  | inr f ↦ ground (arith, rewrap-covered r ws m ds a, same-eq m.member_box_pubkey b, same_refl b)
  | inl t ↦ ground (
    arith,
    same-eq b m.member_box_pubkey t,
    same_refl b,
    same_refl w,
    rewrap-unnamed r ws (wrap_row w m),
  )
]

-- Keys other than `b`.
without : Bytes → List Bytes → List Bytes
without b keys = delete (λ k. same k b) keys

length-without :
    (b : Bytes) (keys : List Bytes)
    → any (λ k. same k b) keys ≡ true
    → length (without b keys) + 1 ≤ length keys
unfolding without delete any
length-without b [] h = ground arith
length-without b (k ∷ keys) h = ground (arith, length-without b keys, length-without_le b keys)
  where
    length-without_le : (b : Bytes) (keys : List Bytes) → length (without b keys) ≤ length keys
    length-without_le b [] = omega arith
    length-without_le b (k ∷ keys) = ground (arith, length-without_le b keys)

any-without :
    (b c : Bytes) (keys : List Bytes)
    → same b c ≡ false
    → any (λ k. same k c) keys ≡ true
    → any (λ k. same k c) (without b keys) ≡ true
unfolding without delete any
any-without b c [] n h = ground arith
any-without b c (k ∷ keys) n h =
    ground (arith, any-without b c keys n, same-eq k b, same-eq k c, same_refl c)

survive-without :
    (b : Bytes) (ws : List Wrap) (keys : List Bytes)
    → named b ws ≡ false
    → all_survive ws keys ≡ true
    → all_survive ws (without b keys) ≡ true
unfolding all_survive any
survive-without b [] keys n h = refl
survive-without b ((c, w) ∷ ws) keys n h = ground (
  arith,
  survive-without b ws keys,
  any-without b c keys,
  same-eq b c,
  same_refl c,
  &&-eq-true (any (λ k. same k c) keys) (all_survive ws keys) h,
)

-- As many different wraps as keys, all of them for keys: every key has a wrap.
pigeonhole :
    (ws : List Wrap) (keys : List Bytes) (k : Bytes)
    → Distinct ws
    → all_survive ws keys ≡ true
    → length keys ≤ length ws
    → any (λ c. same c k) keys ≡ true
    → named k ws ≡ true
unfolding all_survive any
pigeonhole [] [] k d h l a = ground arith
pigeonhole [] (c ∷ keys) k d h l a = absurd (omega arith)
pigeonhole ((b, w) ∷ ws) keys k (d, ds) h l a = elim (Bool-cases (same b k)) [
  | inl t ↦ rw t
  | inr f ↦
      let (here, rest) = &&-eq-true (any (λ c. same c b) keys) (all_survive ws keys) h in
      let ih : named k ws ≡ true =
        pigeonhole ws (without b keys) k ds (survive-without b ws keys d rest)
          (omega (arith, length-without b keys here)) (any-without b k keys f a) in
      rw (f, ih)
]

-- The boxes of the active rows are among the keys.
Listed : Bytes → List Bytes → Member → Type 0
Listed r keys m = is_active_in r m ≡ true → any (λ c. same c m.member_box_pubkey) keys ≡ true

survivors-Listed :
    (r : Bytes) (keys : List Bytes) (rows : List Member)
    → ((k : Bytes)
        → any (λ c. same c k) (survivors r rows) ≡ true
        → any (λ c. same c k) keys ≡ true)
    → All (Listed r keys) rows
unfolding survivors select any Listed
survivors-Listed r keys [] f = tt
survivors-Listed r keys (m ∷ rows) f = elim (Bool-cases (is_active_in r m)) [
  | inl t ↦ (
    λ _. f m.member_box_pubkey (rw (t, same_refl m.member_box_pubkey)),
    survivors-Listed r keys rows (λ k h. f k (rw t (ground arith))),
  )
  | inr n ↦ (λ t. absurd (cc), survivors-Listed r keys rows (λ k h. f k (rw n h)))
]

abbrev pub Covered : Bytes → List Wrap → Member → Type 0
Covered r wraps m = is_active_in r m ≡ true → has_wrap wraps m ≡ true

apply_wraps-Covered :
    (r : Bytes) (ws : List Wrap) (keys : List Bytes) (rows : List Member)
    → Distinct ws
    → all_survive ws keys ≡ true
    → length keys ≡ length ws
    → All (Listed r keys) rows
    → All (λ m. Covered r ws (rewrap r ws m)) rows
unfolding Listed
apply_wraps-Covered r ws keys [] d h l a = tt
apply_wraps-Covered r ws keys (m ∷ rows) d h l (b, a) = (
  λ active.
      let active' : is_active_in r m ≡ true = sym (rewrap-active r ws m) ∙ active in
      rewrap-covered r ws m d active'
        (pigeonhole ws keys m.member_box_pubkey d h (omega arith) (b active')),
  apply_wraps-Covered r ws keys rows d h l a,
)

module _ (room_id target : Bytes) (wraps : List Wrap) (now : Date) (s s' : Db) (epoch : ℕ) where
  -- Where no box stands in two wraps and the rekey succeeds, every active member of the room holds
  -- the new key that some wrap gives for the member's box.
  pub remove_and_rekey-covers :
      Distinct wraps
      → remove_and_rekey room_id target wraps now s ≡ (ok epoch, s')
      → All (λ m. has_wrap wraps m ≡ true) (select (is_active_in room_id) s'.room_members)
  remove_and_rekey-covers d h =
      let won = success room_id target wraps now s s' epoch h in
      let rows = left room_id target wraps now s s' epoch in
      All-select_where (λ m. has_wrap wraps m ≡ true) (is_active_in room_id) s'.room_members
        (rw (won.rows, apply_wraps-eq_map room_id wraps rows)
          (All-map (Covered room_id wraps) (rewrap room_id wraps) rows (
            apply_wraps-Covered room_id wraps (survivors room_id rows) rows d won.survive
              won.counted (survivors-Listed room_id (survivors room_id rows) rows (λ k e. e)))))

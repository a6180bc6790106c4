-- ===== src/Rooms/Rekey/Skipped.antt =====
-- The checks of a rekey count wraps and not members: a box that is named twice lets another one go
-- without a new key.
use lethe_project.Prelude.{
  ℕ, ◌+◌, ◌≡◌, ◌∙◌, refl, true, false, some, List, [], ◌∷◌, Bytes, arith, length, same_refl,
  same-eq, map_option, same,
}
use lethe_project.Table.{update, count, any, first, select}
use lethe_project.Error.{ok}
use lethe_project.Db.{Db, Date, Member, Room}
use lethe_project.Rooms.Queries.{is_active_box, remove_row, has_box, has_id, current_epoch}
use lethe_project.Rooms.Rekey.{
  Wrap, apply_wraps, survivors, all_survive, remove_and_rekey, bump_epoch, next_epoch, wrap_row,
}
use lethe_project.Rooms.Rekey.Coverage.{named}

first-next_epoch :
    (r : Bytes) (rooms : List Room)
    → map_option
        (λ (x : Room). x.current_epoch)
        (first (has_id r) (update (has_id r) next_epoch rooms))
      ≡ map_option
          (λ e. e + 1)
          (map_option (λ (x : Room). x.current_epoch) (first (has_id r) rooms))
unfolding first update has_id
first-next_epoch r [] = refl
first-next_epoch r (x ∷ rooms) = ground (arith, first-next_epoch r rooms)

-- A bump raises the room's epoch by one.
pub current_epoch-bump :
    (r : Bytes) (e : ℕ) (s : Db)
    → current_epoch r s ≡ some e
    → current_epoch r (record s { rooms = update (has_id r) next_epoch s.rooms }) ≡ some (e + 1)
unfolding current_epoch
current_epoch-bump r e s h = first-next_epoch r s.rooms ∙ (rw h)

select-update :
    (r b c w : Bytes) (rows : List Member)
    → same c b ≡ false
    → select (has_box r b) (update (is_active_box r c) (wrap_row w) rows)
      ≡ select (has_box r b) rows
unfolding select update has_box is_active_box
select-update r b c w [] h = refl
select-update r b c w (m ∷ rows) h = ground (
  arith,
  select-update r b c w rows h,
  same-eq m.member_box_pubkey b,
  same-eq m.member_box_pubkey c,
  same_refl b,
  same_refl c,
)

-- The loop does not touch the rows of a box that no wrap names.
select-apply_wraps :
    (r b : Bytes) (ws : List Wrap) (rows : List Member)
    → named b ws ≡ false
    → select (has_box r b) (apply_wraps r ws rows) ≡ select (has_box r b) rows
unfolding apply_wraps any
select-apply_wraps r b [] rows h = refl
select-apply_wraps r b ((c, w) ∷ ws) rows h =
    select-apply_wraps r b ws (update (is_active_box r c) (wrap_row w) rows) (ground arith)
    ∙ select-update r b c w rows (ground arith)

module _ (room_id target b : Bytes) (wraps : List Wrap) (now : Date) (s : Db) (epoch : ℕ) where
  abbrev pub remaining : List Member
  remaining = update (is_active_box room_id target) (remove_row now) s.room_members

  abbrev pub rekeyed_db : Db
  rekeyed_db = record s {
    room_members = apply_wraps room_id wraps remaining;
    rooms = update (has_id room_id) next_epoch s.rooms;
  }

  -- Where the target is an active member once, the wraps are as many as the survivors and each of
  -- them is for a survivor, and the room exists, the rekey succeeds with the next epoch, also where a
  -- survivor `b` is named by no wrap; the rows of `b` are then as they were after the removal, with
  -- the old key.
  pub rekey_may_skip :
      count (is_active_box room_id target) s.room_members ≡ 1
      → length (survivors room_id remaining) ≡ length wraps
      → all_survive wraps (survivors room_id remaining) ≡ true
      → current_epoch room_id s ≡ some epoch
      → any (λ k. same k b) (survivors room_id remaining) ≡ true
      → named b wraps ≡ false
      → (remove_and_rekey room_id target wraps now s ≡ (ok (epoch + 1), rekeyed_db))
        × (select (has_box room_id b) rekeyed_db.room_members
            ≡ select (has_box room_id b) remaining)
  unfolding remove_and_rekey bump_epoch current_epoch
  rekey_may_skip f l a e k n = (
    ground (
      arith,
      current_epoch-bump room_id epoch
          (record s { room_members = apply_wraps room_id wraps remaining }) e,
    ),
    select-apply_wraps room_id b wraps remaining n,
  )

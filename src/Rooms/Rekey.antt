-- ===== src/Rooms/Rekey.antt =====
-- `remove_and_rekey` of crates/lethe-server/src/db/rooms.rs, one transaction: an error rolls back.
pub mod Success
pub mod Coverage
pub mod Skipped
use lethe_project.Prelude.{
  ℕ, ◌+◌, Bool, true, not, ◌&&◌, List, [], ◌∷◌, map, Bytes, same, ◌==◌, if◌then◌else◌, length, none,
  some,
}
use lethe_project.Table.{select, any, count, update}
use lethe_project.Error.{Result, ok, err, DbError, row_not_found, protocol}
use lethe_project.Db.{Db, Date, Room, Member}
use lethe_project.Rooms.Queries.{is_active_box, is_active_in, has_id, remove_row, current_epoch}

-- A box key with the new wrapped key for it.
abbrev pub Wrap : Type 0
Wrap = Bytes × Bytes

unfoldable pub survivors : Bytes → List Member → List Bytes
survivors room_id members =
    map (λ (m : Member). m.member_box_pubkey) (select (is_active_in room_id) members)

-- `survivor_set.contains` for each wrap
unfoldable pub all_survive : List Wrap → List Bytes → Bool
all_survive [] keys = true
all_survive ((box, wrapped) ∷ wraps) keys = any (λ k. same k box) keys && all_survive wraps keys

abbrev pub wrap_row : Bytes → Member → Member
wrap_row wrapped m = record m { wrapped_key = some wrapped }

-- The loop of step 3.
unfoldable pub apply_wraps : Bytes → List Wrap → List Member → List Member
apply_wraps room_id [] members = members
apply_wraps room_id ((box, wrapped) ∷ wraps) members =
    apply_wraps room_id wraps (update (is_active_box room_id box) (wrap_row wrapped) members)

abbrev pub next_epoch : Room → Room
next_epoch r = record r { current_epoch = r.current_epoch + 1 }

-- `fetch_one` of step 4 finds no row where the room is gone.
unfoldable pub bump_epoch : Bytes → Db → Db → Result DbError ℕ × Db
bump_epoch room_id before s =
    let s' = record s { rooms = update (has_id room_id) next_epoch s.rooms } in
    elim (current_epoch room_id s') [
      | none ↦ (err row_not_found, before)
      | some epoch ↦ (ok epoch, s')
    ]

unfoldable pub remove_and_rekey : Bytes → Bytes → List Wrap → Date → Db → Result DbError ℕ × Db
unfolding bump_epoch
remove_and_rekey room_id target_box wraps now s =
    let left = update (is_active_box room_id target_box) (remove_row now) s.room_members in
    if not (count (is_active_box room_id target_box) s.room_members == 1)
    then (err row_not_found, s)
    else if not (length (survivors room_id left) == length wraps)
    then (err (protocol "wrap count mismatch with surviving member count"), s)
    else if not (all_survive wraps (survivors room_id left))
    then (err (protocol "wrap target is not a surviving member"), s)
    else bump_epoch room_id s (record s { room_members = apply_wraps room_id wraps left })

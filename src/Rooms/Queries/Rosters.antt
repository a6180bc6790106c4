-- ===== src/Rooms/Queries/Rosters.antt =====
-- The statements on room_rosters in crates/lethe-server/src/db/rooms.rs.
use lethe_project.Prelude.{
  ℕ, ◌+◌, Bool, true, false, not, ◌&&◌, Option, List, [], ◌∷◌, ◌++◌, Bytes, same, ◌==◌,
  if◌then◌else◌, length,
}
use lethe_project.Table.{first, any, count, update}
use lethe_project.Error.{Result, ok, err, DbError, database}
use lethe_project.Db.{Db, Date, Room, Roster}

unfoldable pub is_roster : Bytes → ℕ → Roster → Bool
is_roster room_id epoch r = same r.room_id room_id && r.epoch == epoch

unfoldable pub roster_at : Bytes → ℕ → Db → Option Roster
unfolding is_roster
roster_at room_id epoch s = first (is_roster room_id epoch) s.room_rosters

-- WHERE id = $1 AND roster_epoch = $2 - 1
unfoldable pub at_epoch_before : Bytes → ℕ → Room → Bool
at_epoch_before room_id epoch r = same r.id room_id && r.roster_epoch + 1 == epoch

abbrev pub publish_roster : ℕ → Room → Room
publish_roster epoch r = record r { roster_epoch = epoch; vouching_enabled = true }

unfoldable pub roster_row : Bytes → ℕ → List Bytes → Bytes → Date → Roster
roster_row room_id epoch member_sig_pubkeys creator_sig signed_at = record {
  room_id = room_id;
  epoch = epoch;
  member_sig_pubkeys = member_sig_pubkeys;
  creator_sig = creator_sig;
  signed_at = signed_at;
}

-- The CHECK on `epoch` and the primary key of room_rosters are tested on the insert.
unfoldable pub insert_roster : Bytes → ℕ → List Bytes → Bytes → Date → Db → Result DbError Bool × Db
unfolding at_epoch_before is_roster roster_row
insert_roster room_id epoch member_sig_pubkeys creator_sig signed_at s =
    if not (count (at_epoch_before room_id epoch) s.rooms == 1)
    then (ok false, s)
    else if any (is_roster room_id epoch) s.room_rosters
    then (err (database "room_rosters_pkey"), s)
    else if not (length creator_sig == 64)
    then (err (database "room_rosters_creator_sig_check"), s)
    else (
      ok true,
      record s {
        rooms = update (at_epoch_before room_id epoch) (publish_roster epoch) s.rooms;
        room_rosters =
            s.room_rosters
            ++ roster_row room_id epoch member_sig_pubkeys creator_sig signed_at ∷ [];
      },
    )

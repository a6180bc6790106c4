-- ===== src/Rooms/Membership/Arrival.antt =====
-- What the creator test says of a newcomer.
use lethe_project.Prelude.{◌≡◌, true, false, Bytes, arith, same_refl}
use lethe_project.Table.{any}
use lethe_project.Table.Rows.{any-append}
use lethe_project.Error.{ok}
use lethe_project.Db.{Db, Date}
use lethe_project.Rooms.Queries.{
  has_box, has_id, add_member, pending_row, is_creator_by_sig, is_creator_row,
}

-- A box key that has no row in an existing room is added, and the signing key it is added with
-- passes the creator test of that room at once, whoever created it.
pub newcomer_is_creator :
    (room_id box sig : Bytes) (today : Date) (s : Db)
    → any (has_id room_id) s.rooms ≡ true
    → any (has_box room_id box) s.room_members ≡ false
    → ((add_member room_id box sig today s).0 ≡ ok tt)
      × (is_creator_by_sig room_id sig (add_member room_id box sig today s).1 ≡ true)
unfolding add_member is_creator_by_sig is_creator_row pending_row
newcomer_is_creator room_id box sig today s h k = ground (
  arith,
  any-append (is_creator_row room_id sig) s.room_members (pending_row room_id box sig today),
  same_refl room_id,
  same_refl sig,
)

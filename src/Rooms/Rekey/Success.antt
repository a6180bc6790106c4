-- ===== src/Rooms/Rekey/Success.antt =====
-- What a successful rekey has checked and done.
use lethe_project.Prelude.{ℕ, ◌≡◌, true, some, Bytes, arith, length, List}
use lethe_project.Table.{update, count}
use lethe_project.Error.{ok}
use lethe_project.Db.{Db, Date, Member}
use lethe_project.Rooms.Queries.{is_active_box, remove_row, has_id, current_epoch}
use lethe_project.Rooms.Rekey.{
  Wrap, apply_wraps, survivors, all_survive, remove_and_rekey, bump_epoch, next_epoch,
}

module _ (room_id target : Bytes) (wraps : List Wrap) (now : Date) (s s' : Db) (epoch : ℕ) where
  -- the rows after step 1
  abbrev pub left : List Member
  left = update (is_active_box room_id target) (remove_row now) s.room_members

  pub record Success : Type 0 where
    pub found : count (is_active_box room_id target) s.room_members ≡ 1
    pub counted : length (survivors room_id left) ≡ length wraps
    pub survive : all_survive wraps (survivors room_id left) ≡ true
    pub rows : s'.room_members ≡ apply_wraps room_id wraps left
    pub rooms : s'.rooms ≡ update (has_id room_id) next_epoch s.rooms
    pub epoch_is : current_epoch room_id s' ≡ some epoch

  pub success : remove_and_rekey room_id target wraps now s ≡ (ok epoch, s') → Success
  unfolding remove_and_rekey bump_epoch
  success h = record {
    found = ground arith;
    counted = ground arith;
    survive = ground arith;
    rows = ground arith;
    rooms = ground arith;
    epoch_is = ground arith;
  }

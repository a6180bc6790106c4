-- ===== src/Rooms/Queries.antt =====
-- crates/lethe-server/src/db/rooms.rs: the statements on rooms, room_members and room_rosters.
-- Rows come in the order of insertion where a statement leaves their order open.
pub mod Rosters
unfoldable pub use Rosters.{is_roster, roster_at, at_epoch_before, roster_row, insert_roster}
pub use Rosters.{publish_roster}
use lethe_project.Prelude.{
  ℕ, ◌+◌, Bool, true, false, not, ◌&&◌, Option, none, some, List, [], ◌∷◌, ◌++◌, map, Bytes, Text,
  same, lex_lt, ltb, ◌==◌, if◌then◌else◌, is_some, is_none, map_option, length,
}
use lethe_project.Table.{select, first, any, count, update, order_by}
use lethe_project.Error.{Result, ok, err, DbError, database}
use lethe_project.Env.{Env}
use lethe_project.Rooms.Requests.{MemberView}
use lethe_project.Db.{Db, Date, Room, Thread, Member, Roster, unverified, continuity}

-- `Vec<u8>` options in a column compared with a value
unfoldable pub holds : Option Bytes → Bytes → Bool
holds none b = false
holds (some a) b = same a b

-- WHERE room_id = $1 AND member_box_pubkey = $2
unfoldable pub has_box : Bytes → Bytes → Member → Bool
has_box room_id box m = same m.room_id room_id && same m.member_box_pubkey box

unfoldable pub has_sig : Bytes → Bytes → Member → Bool
has_sig room_id sig m = same m.room_id room_id && same m.member_sig_pubkey sig

unfoldable pub is_active : Member → Bool
is_active m = is_none m.removed_at

unfoldable pub is_active_in : Bytes → Member → Bool
unfolding is_active
is_active_in room_id m = same m.room_id room_id && is_active m

unfoldable pub is_active_box : Bytes → Bytes → Member → Bool
unfolding has_box is_active
is_active_box room_id box m = has_box room_id box m && is_active m

unfoldable pub is_active_sig : Bytes → Bytes → Member → Bool
unfolding has_sig is_active
is_active_sig room_id sig m = has_sig room_id sig m && is_active m

unfoldable pub is_accepted_in : Bytes → Member → Bool
unfolding is_active_in is_active
is_accepted_in room_id m = is_active_in room_id m && is_some m.wrapped_key

unfoldable pub has_id : Bytes → Room → Bool
has_id id r = same r.id id

unfoldable pub has_invite : Text → Room → Bool
has_invite code r = same r.invite_code code

pub record NewRoom : Type 0 where
  pub origin_thread : Option Bytes
  pub invite_code : Text
  pub creator_box_pubkey : Bytes
  pub creator_sig_pubkey : Bytes
  pub wrapped_key_for_creator : Bytes
  pub creator_thread_pubkey : Option Bytes
  pub provenance_sig : Option Bytes
  pub created_at : Date
  pub allowlist_thread_pubkeys : Option (List Bytes)

-- `origin_thread` REFERENCES threads(id)
unfoldable pub references_thread : Option Bytes → Db → Bool
references_thread none s = true
references_thread (some id) s = any (λ (t : Thread). same t.id id) s.threads

unfoldable pub room_row : Bytes → NewRoom → Room
room_row room_id r = record {
  id = room_id;
  origin_thread = r.origin_thread;
  invite_code = r.invite_code;
  created_at = r.created_at;
  creator_thread_pubkey = r.creator_thread_pubkey;
  provenance_sig = r.provenance_sig;
  message_retention_days = 7;
  current_epoch = 0;
  allowlist_thread_pubkeys = r.allowlist_thread_pubkeys;
  vouching_enabled = false;
  roster_epoch = 0;
}

unfoldable pub creator_row : Bytes → NewRoom → Member
creator_row room_id r = record {
  room_id = room_id;
  member_box_pubkey = r.creator_box_pubkey;
  member_sig_pubkey = r.creator_sig_pubkey;
  wrapped_key = some r.wrapped_key_for_creator;
  joined_at = r.created_at;
  invited_by_box_pubkey = none;
  verification_state = unverified;
  removed_at = none;
}

-- `room_id` is the fresh id. Both inserts stand in one transaction.
unfoldable pub create : Bytes → NewRoom → Db → Result DbError Bytes × Db
unfolding references_thread room_row creator_row has_id has_invite has_box
create room_id r s =
    if any (has_id room_id) s.rooms
    then (err (database "rooms_pkey"), s)
    else if any (has_invite r.invite_code) s.rooms
    then (err (database "rooms_invite_code_key"), s)
    else if not (references_thread r.origin_thread s)
    then (err (database "rooms_origin_thread_fkey"), s)
    else if any (has_box room_id r.creator_box_pubkey) s.room_members
    then (err (database "room_members_pkey"), s)
    else (
      ok room_id,
      record s {
        rooms = s.rooms ++ room_row room_id r ∷ [];
        room_members = s.room_members ++ creator_row room_id r ∷ [];
      },
    )

-- `RoomMeta` has the columns of the row that the handlers read.
unfoldable pub meta_by_id : Bytes → Db → Option Room
unfolding has_id
meta_by_id id s = first (has_id id) s.rooms

unfoldable pub meta_by_invite : Text → Db → Option Room
unfolding has_invite
meta_by_invite code s = first (has_invite code) s.rooms

unfoldable pub accepted_active_sig_pubkeys : Bytes → Db → List Bytes
unfolding is_accepted_in
accepted_active_sig_pubkeys room_id s =
    order_by lex_lt
      (map (λ (m : Member). m.member_sig_pubkey) (select (is_accepted_in room_id) s.room_members))

abbrev earlier : Member → Member → Bool
earlier m n = ltb m.joined_at n.joined_at

unfoldable pub has_no_inviter : Bytes → Member → Bool
has_no_inviter room_id m = same m.room_id room_id && is_none m.invited_by_box_pubkey

-- ORDER BY joined_at LIMIT 1. The column is a date: which of two rows of one day is the first is not said there, and
-- here it is the one that was inserted first.
unfoldable pub creator_sig_pubkey : Bytes → Db → Option Bytes
unfolding has_no_inviter
creator_sig_pubkey room_id s =
    map_option (λ (m : Member). m.member_sig_pubkey)
      (first (λ _. true) (order_by earlier (select (has_no_inviter room_id) s.room_members)))

unfoldable pub pending_row : Bytes → Bytes → Bytes → Date → Member
pending_row room_id box_pubkey sig_pubkey joined_at = record {
  room_id = room_id;
  member_box_pubkey = box_pubkey;
  member_sig_pubkey = sig_pubkey;
  wrapped_key = none;
  joined_at = joined_at;
  invited_by_box_pubkey = none;
  verification_state = unverified;
  removed_at = none;
}

-- ON CONFLICT DO NOTHING; `room_id` REFERENCES rooms(id).
unfoldable pub add_member : Bytes → Bytes → Bytes → Date → Db → Result DbError (Unit {0}) × Db
unfolding has_box has_id pending_row
add_member room_id box_pubkey sig_pubkey joined_at s =
    if any (has_box room_id box_pubkey) s.room_members
    then (ok tt, s)
    else if not (any (has_id room_id) s.rooms)
    then (err (database "room_members_room_id_fkey"), s)
    else (
      ok tt,
      record s {
        room_members = s.room_members ++ pending_row room_id box_pubkey sig_pubkey joined_at ∷ [];
      },
    )

abbrev pub remove_row : Date → Member → Member
remove_row now m = record m { removed_at = some now }

unfoldable pub soft_remove_by_sig : Bytes → Bytes → Date → Db → Bool × Db
unfolding is_active_sig
soft_remove_by_sig room_id sig_pubkey now s = (
  count (is_active_sig room_id sig_pubkey) s.room_members == 1,
  record s {
    room_members = update (is_active_sig room_id sig_pubkey) (remove_row now) s.room_members;
  },
)

unfoldable pub active_member_count : Bytes → Db → ℕ
unfolding is_active_in
active_member_count room_id s = count (is_active_in room_id) s.room_members

abbrev pub grant_row : Bytes → Bytes → Member → Member
grant_row wrapped_key inviter_box m = record m {
  wrapped_key = some wrapped_key;
  invited_by_box_pubkey = some inviter_box;
  verification_state = continuity;
}

unfoldable pub is_pending_box : Bytes → Bytes → Member → Bool
unfolding has_box
is_pending_box room_id box m = has_box room_id box m && is_none m.wrapped_key

unfoldable pub grant_wrap : Bytes → Bytes → Bytes → Bytes → Db → Bool × Db
unfolding is_pending_box is_active_box
grant_wrap room_id for_box wrapped_key inviter_box s =
    if any (is_active_box room_id inviter_box) s.room_members
    then (
      count (is_pending_box room_id for_box) s.room_members == 1,
      record s {
        room_members =
            update (is_pending_box room_id for_box) (grant_row wrapped_key inviter_box)
              s.room_members;
      },
    )
    else (false, s)

unfoldable pub is_active_member_pair : Bytes → Bytes → Bytes → Db → Bool
unfolding has_box has_sig is_active
is_active_member_pair room_id sig_pubkey box_pubkey s =
    any
      (λ (m : Member).
        has_sig room_id sig_pubkey m && (same m.member_box_pubkey box_pubkey && is_active m))
      s.room_members

unfoldable pub is_member : Bytes → Bytes → Db → Bool
unfolding is_active_sig
is_member room_id sig_pubkey s = any (is_active_sig room_id sig_pubkey) s.room_members

-- WHERE … invited_by_box_pubkey IS NULL AND removed_at IS NULL
unfoldable pub is_creator_row : Bytes → Bytes → Member → Bool
unfolding has_sig is_active
is_creator_row room_id sig m =
    has_sig room_id sig m && (is_none m.invited_by_box_pubkey && is_active m)

unfoldable pub is_creator_by_sig : Bytes → Bytes → Db → Bool
unfolding is_creator_row
is_creator_by_sig room_id sig_pubkey s = any (is_creator_row room_id sig_pubkey) s.room_members

unfoldable pub joined_at_for_sig_member : Bytes → Bytes → Db → Option Date
unfolding is_active_sig
joined_at_for_sig_member room_id sig_pubkey s =
    map_option (λ (m : Member). m.joined_at)
      (first (is_active_sig room_id sig_pubkey) s.room_members)

unfoldable pub is_member_by_box : Bytes → Bytes → Db → Bool
unfolding is_active_box
is_member_by_box room_id box_pubkey s = any (is_active_box room_id box_pubkey) s.room_members

unfoldable pub member_view : Env → Member → MemberView
member_view env m = record {
  box_pubkey = env.b64 m.member_box_pubkey;
  sig_pubkey = env.b64 m.member_sig_pubkey;
  wrapped_key = map_option env.b64 m.wrapped_key;
  joined_at = m.joined_at;
  invited_by_box_pubkey = map_option env.b64 m.invited_by_box_pubkey;
  removed_at = m.removed_at;
}

unfoldable pub list_members : Env → Bytes → Db → List MemberView
unfolding member_view
list_members env room_id s =
    map (member_view env)
      (order_by earlier (select (λ (m : Member). same m.room_id room_id) s.room_members))

unfoldable pub current_epoch : Bytes → Db → Option ℕ
unfolding has_id
current_epoch room_id s =
    map_option (λ (r : Room). r.current_epoch) (first (has_id room_id) s.rooms)

-- ===== src/Rooms/Vouching/Rosters.antt =====
-- A roster on its way through the server: `post_roster` and `roster` of crates/lethe-server/src/logic/rooms.rs.
use lethe_project.Prelude.{ℕ, ◌≡◌, some, List, Bytes, Text, map}
use lethe_project.Table.{update}
use lethe_project.Env.{Env, Clock}
use lethe_project.Db.{Db, Date, Room}
use lethe_project.Rooms.Requests.{PostRosterReq, RosterResp}
use lethe_project.Rooms.Queries.{
  roster_at, roster_row, creator_sig_pubkey, at_epoch_before, publish_roster,
}

-- What an insert that succeeds leaves
record Published (r : Bytes) (e : ℕ) (ring : List Bytes) (sig : Bytes) (today : Date) (s s' : Db)
    : Type 0 where
  rooms : s'.rooms ≡ update (at_epoch_before r e) (publish_roster e) s.rooms
  members : s'.room_members ≡ s.room_members
  row : roster_at r e s' ≡ some (roster_row r e ring sig today)

module _ (env : Env) (clk clk' : Clock) (room : Text) (req : PostRosterReq)
    (room_id sig creator : Bytes) (ring : List Bytes) (meta : Room) where
  abbrev served : RosterResp
  served = record {
    room_id = env.b64 room_id;
    creator_sig_pubkey = env.b64 creator;
    epoch = req.epoch;
    member_sig_pubkeys = map env.b64 ring;
    creator_sig = env.b64 sig;
  }

-- ===== src/Rooms/Calls.antt =====
-- The room endpoints of crates/lethe-server/src/routes/rooms.rs, as one type of calls, and what an
-- invariant of the room tables has to survive.
pub mod Stable
use lethe_project.Prelude.{ℕ, Bytes, Text}
use lethe_project.Env.{Env, Clock}
use lethe_project.Db.{Db}
use lethe_project.Rooms.Requests.{
  CreateRoomReq, JoinRoomReq, LeaveRoomReq, WrapKeyReq, MembersReq, PostRosterReq, RemoveMemberReq,
  SendMessageReq, ListMessagesReq,
}
use lethe_project.Rooms.Creation
use lethe_project.Rooms.Membership
use lethe_project.Rooms.Removal
use lethe_project.Rooms.Talk
use lethe_project.Rooms.Vouching

-- A create call carries the fresh room id and invite code, a send call the fresh message id.
pub data RoomCall : Type 0 where
  create : Bytes → Text → CreateRoomReq → RoomCall
  join : Text → JoinRoomReq → RoomCall
  leave : Text → LeaveRoomReq → RoomCall
  invite_info : Text → RoomCall
  wrap : Text → WrapKeyReq → RoomCall
  members : Text → MembersReq → RoomCall
  roster : Text → RoomCall
  post_roster : Text → PostRosterReq → RoomCall
  provenance : Text → RoomCall
  send_message : Bytes → Text → SendMessageReq → RoomCall
  list_messages : Text → ListMessagesReq → RoomCall
  remove : Text → RemoveMemberReq → RoomCall

-- The database after a call, whatever it answers.
unfoldable pub after : Env → Clock → RoomCall → Db → Db
after env clk (create id code req) s = (Creation.create env clk id code req s).1
after env clk (join code req) s = (Membership.join env clk code req s).1
after env clk (leave room req) s = (Membership.leave env clk room req s).1
after env clk (invite_info code) s = (Membership.invite_info env clk code s).1
after env clk (wrap room req) s = (Membership.wrap env clk room req s).1
after env clk (members room req) s = (Talk.members_authed env clk room req s).1
after env clk (roster room) s = (Vouching.roster env clk room s).1
after env clk (post_roster room req) s = (Vouching.post_roster env clk room req s).1
after env clk (provenance room) s = (Talk.provenance env clk room s).1
after env clk (send_message id room req) s = (Talk.send_message env clk id room req s).1
after env clk (list_messages room req) s = (Talk.list_messages_authed env clk room req s).1
after env clk (remove room req) s = (Removal.remove_and_rekey env clk room req s).1

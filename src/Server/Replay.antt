-- ===== src/Server/Replay.antt =====
-- The requests with a nonce of the endpoints of crates/lethe-server/src/lib.rs, and moves of the server under a clock that
-- does not go back.
pub mod Known
pub mod Gates
pub mod Handlers
pub mod Once
use lethe_project.Prelude.{ℕ, ◌≤◌, Bool, true, false, ◌++◌, Bytes, Text, codes}
use lethe_project.Error.{Result, ok, err, AppError}
use lethe_project.Env.{Env, Clock}
use lethe_project.Db.{Db}
use lethe_project.Posts.Requests.{DeletePostReq}
use lethe_project.Posts.Deletion
use lethe_project.Rooms.Requests.{
  CreateRoomReq, LeaveRoomReq, WrapKeyReq, MembersReq, ListMessagesReq, RemoveMemberReq,
}
use lethe_project.Rooms.Creation
use lethe_project.Rooms.Membership
use lethe_project.Rooms.Talk
use lethe_project.Rooms.Removal
use lethe_project.Server.{Move, after}

-- Moves one after the other under a clock that does not go back
pub data Course (env : Env) (start : ℕ) (s : Db) : ℕ → Db → Type 0 where
  here : Course env start s start s
  next :
      {n : ℕ} {t : Db}
      → Course env start s n t
      → (clk : Clock) (m : Move) → n ≤ clk.now_ts
      → Course env start s clk.now_ts (after env clk m t)

-- The requests whose nonce is recorded. A message, a post and the proof of a restricted join are signed too, but
-- nothing records their signatures.
pub data Nonced : Type 0 where
  create : Bytes → Text → CreateRoomReq → Nonced
  leave : Text → LeaveRoomReq → Nonced
  wrap : Text → WrapKeyReq → Nonced
  members : Text → MembersReq → Nonced
  list_messages : Text → ListMessagesReq → Nonced
  remove : Text → RemoveMemberReq → Nonced
  delete_post : Text → DeletePostReq → Nonced

-- The kind under which the nonce of a request is recorded
unfoldable pub kind : Nonced → Text
kind (create id code req) = codes "create"
kind (leave room req) = codes "leave"
kind (wrap room req) = codes "wrap:" ++ req.for_box_pubkey
kind (members room req) = codes "members"
kind (list_messages room req) = codes "list"
kind (remove room req) = codes "remove"
kind (delete_post id req) = codes "postdel"

unfoldable pub signer : Nonced → Text
signer (create id code req) = req.creator_sig_pubkey
signer (leave room req) = req.sig_pubkey
signer (wrap room req) = req.inviter_sig_pubkey
signer (members room req) = req.requester_sig_pubkey
signer (list_messages room req) = req.requester_sig_pubkey
signer (remove room req) = req.remover_sig_pubkey
signer (delete_post id req) = req.pubkey

unfoldable pub timestamp : Nonced → ℕ
timestamp (create id code req) = req.creator_create_ts
timestamp (leave room req) = req.ts
timestamp (wrap room req) = req.inviter_ts
timestamp (members room req) = req.ts
timestamp (list_messages room req) = req.ts
timestamp (remove room req) = req.ts
timestamp (delete_post id req) = req.ts

abbrev pub verdict : {A : Type 0} → Result AppError A × Db → Bool × Db
verdict (ok a, s) = (true, s)
verdict (err e, s) = (false, s)

-- Whether the endpoint of a request accepts it, and the database after it
unfoldable pub accept : Env → Clock → Nonced → Db → Bool × Db
accept env clk (create id code req) s = verdict (Creation.create env clk id code req s)
accept env clk (leave room req) s = verdict (Membership.leave env clk room req s)
accept env clk (wrap room req) s = verdict (Membership.wrap env clk room req s)
accept env clk (members room req) s = verdict (Talk.members_authed env clk room req s)
accept env clk (list_messages room req) s = verdict (Talk.list_messages_authed env clk room req s)
accept env clk (remove room req) s = verdict (Removal.remove_and_rekey env clk room req s)
accept env clk (delete_post id req) s = verdict (Deletion.delete_post env clk id req s)

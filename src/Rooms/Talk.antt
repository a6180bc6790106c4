-- ===== src/Rooms/Talk.antt =====
-- `send_message`, `list_messages_authed`, `members_authed` and `provenance` of
-- crates/lethe-server/src/logic/rooms.rs.
pub mod Gates
pub mod History
use lethe_project.Prelude.{
  ℕ, ◌&&◌, List, Bytes, Text, codes, ltb, leb, is_some, length, ◌==◌, ◌*◌, map_option,
}
use lethe_project.Error.{bad_request, not_found, forbidden, db, row_not_found}
use lethe_project.Action.{Action, pure, gets, guard, or_fail, ◌>>=◌, ◌>>◌}
use lethe_project.Env.{Env, Clock}
use lethe_project.Crypto.{verify_room_message_sender, verify_list_request, verify_members_request}
use lethe_project.Checks.{
  checked, decode, decode_pubkey, decode_sig, check_window, check_nonce, statement,
}
use lethe_project.Db.{Db}
use lethe_project.Rooms.Requests.{
  SendMessageReq, SendMessageResp, ListMessagesReq, MessageView, MembersReq, MembersResp,
  ProvenanceResp,
}
use lethe_project.Rooms.Queries.{
  meta_by_id, is_member, joined_at_for_sig_member, list_members, current_epoch,
}
use lethe_project.Rooms.Messages.{insert_message, list_messages_for_member}

abbrev pub max_ciphertext : ℕ
max_ciphertext = 64 * 1024

abbrev pub page : ℕ
page = 500

module _ (env : Env) (clk : Clock) where
  -- `id` is the fresh id of the message.
  unfoldable pub send_message : Bytes → Text → SendMessageReq → Action Db SendMessageResp
  send_message id room_id_b64 req = do
    room_id ← decode env room_id_b64 "room_id b64"
    sender ← decode_pubkey env req.sender_sig_pubkey "sender_sig_pubkey"
    nonce ← decode env req.nonce "nonce b64"
    guard (length nonce == 24) (bad_request "nonce length")
    ciphertext ← decode env req.ciphertext "ciphertext b64"
    guard (ltb 0 (length ciphertext) && leb (length ciphertext) max_ciphertext)
        (bad_request "ciphertext length")
    sender_sig ← decode_sig env req.sender_sig "sender_sig b64" "sender_sig length"
    member ← gets (is_member room_id sender)
    guard member (forbidden "sender is not a member")
    checked (verify_room_message_sender env sender sender_sig room_id nonce ciphertext)
    new_id ← statement (
        insert_message id (record {
          room_id = room_id;
          sender_sig_pubkey = sender;
          nonce = nonce;
          ciphertext = ciphertext;
          sender_sig = sender_sig;
          created_at = clk.today;
        }))
    pure (record { message_id = env.b64 new_id; created_at = clk.today })

  -- The answer is `MessagesResp`, whose one field is the list.
  unfoldable pub list_messages_authed : Text → ListMessagesReq → Action Db (List MessageView)
  list_messages_authed room_id_b64 req = do
    room_id ← decode env room_id_b64 "room_id b64"
    found ← gets (meta_by_id room_id)
    guard (is_some found) not_found
    requester_pk ← decode_pubkey env req.requester_sig_pubkey "requester_sig_pubkey"
    sig ← decode_sig env req.sig "sig b64" "sig length"
    check_window clk req.ts "ts outside ±60s window"
    checked (verify_list_request env requester_pk sig room_id req.ts)
    check_nonce clk (codes "list") requester_pk req.ts
    joined ← gets (joined_at_for_sig_member room_id requester_pk)
    joined_at ← or_fail joined (forbidden "requester is not a member")
    gets (list_messages_for_member env room_id joined_at req.since_seq page)

  unfoldable pub members_authed : Text → MembersReq → Action Db MembersResp
  members_authed room_id_b64 req = do
    room_id ← decode env room_id_b64 "room_id b64"
    found ← gets (meta_by_id room_id)
    meta ← or_fail found not_found
    requester_pk ← decode_pubkey env req.requester_sig_pubkey "requester_sig_pubkey"
    sig ← decode_sig env req.sig "sig b64" "sig length"
    check_window clk req.ts "ts outside ±60s window"
    checked (verify_members_request env requester_pk sig room_id req.ts)
    check_nonce clk (codes "members") requester_pk req.ts
    member ← gets (is_member room_id requester_pk)
    guard member (forbidden "not a current member of this room")
    members ← gets (list_members env room_id)
    epoch_row ← gets (current_epoch room_id)
    epoch ← or_fail epoch_row (db row_not_found)
    pure (record {
      members = members;
      current_epoch = epoch;
      message_retention_days = meta.message_retention_days;
      vouching_enabled = meta.vouching_enabled;
      roster_epoch = meta.roster_epoch;
    })

  unfoldable pub provenance : Text → Action Db ProvenanceResp
  provenance room_id_b64 = do
    room_id ← decode env room_id_b64 "room_id b64"
    found ← gets (meta_by_id room_id)
    meta ← or_fail found not_found
    pure (record {
      origin_thread = map_option env.b64 meta.origin_thread;
      creator_thread_pubkey = map_option env.b64 meta.creator_thread_pubkey;
      provenance_sig = map_option env.b64 meta.provenance_sig;
      created_at = meta.created_at;
    })

-- ===== src/Rooms/Membership.antt =====
-- `join`, `leave`, `invite_info` and `wrap` of crates/lethe-server/src/logic/rooms.rs.
pub mod Departure
pub mod Arrival
pub mod Admission
pub mod Restricted
use lethe_project.Prelude.{
  ℕ, Bool, true, Option, none, some, List, ◌++◌, map, Bytes, Text, codes, same, ltb, leb, is_some,
  map_option, length, if◌then◌else◌,
}
use lethe_project.Table.{any}
use lethe_project.Error.{bad_request, not_found, forbidden, conflict}
use lethe_project.Action.{Action, pure, gets, modify, guard, or_fail, ◌>>=◌, ◌>>◌}
use lethe_project.Env.{Env, Clock}
use lethe_project.Crypto.{verify_join_proof, verify_leave_request, verify_wrap_request}
use lethe_project.Checks.{
  checked, decode, decode_pubkey, decode_sig, check_window, check_nonce, statement,
}
use lethe_project.Db.{Db}
use lethe_project.Rooms.Requests.{JoinRoomReq, JoinRoomResp, LeaveRoomReq, InviteInfo, WrapKeyReq}
use lethe_project.Rooms.Queries.{
  meta_by_id, meta_by_invite, is_member, is_member_by_box, active_member_count, add_member,
  list_members, soft_remove_by_sig, is_active_member_pair, grant_wrap,
}

abbrev pub max_room_members : ℕ
max_room_members = 50

abbrev pub max_wrapped_key : ℕ
max_wrapped_key = 256

-- Only a box key that is not yet an active member counts against the cap.
unfoldable pub has_room : Bytes → Bytes → Db → Bool
has_room room_id box_pk s =
    if is_member_by_box room_id box_pk s
    then true
    else ltb (active_member_count room_id s) max_room_members

module _ (env : Env) (clk : Clock) where
  -- The block `if let Some(allowlist)` of `join`.
  unfoldable pub check_allowlist : Option (List Bytes) → Text → Bytes → JoinRoomReq → Action Db Unit
  check_allowlist none invite_code box_pk req = pure tt
  check_allowlist (some allowlist) invite_code box_pk req = do
    proof_pk_b64 ←
        or_fail req.proof_thread_pubkey
          (forbidden "this invite is restricted; proof_thread_pubkey required")
    proof_ts ← or_fail req.proof_ts (forbidden "proof_ts required")
    proof_sig_b64 ← or_fail req.proof_sig (forbidden "proof_sig required")
    proof_pk ← decode_pubkey env proof_pk_b64 "proof_thread_pubkey"
    proof_sig ← decode_sig env proof_sig_b64 "proof_sig b64" "proof_sig length"
    check_window clk proof_ts "proof_ts outside ±60s window"
    guard (any (λ k. same k proof_pk) allowlist)
        (forbidden "thread pubkey is not on this invite's allowlist")
    checked (verify_join_proof env proof_pk proof_sig invite_code box_pk proof_ts)

  unfoldable pub enroll : Bytes → Bytes → Bytes → Action Db Unit
  unfolding has_room
  enroll room_id box_pk sig_pk = do
    room ← gets (has_room room_id box_pk)
    guard room (conflict "room is at the 50-member cap")
    statement (add_member room_id box_pk sig_pk clk.today)

  unfoldable pub join : Text → JoinRoomReq → Action Db JoinRoomResp
  join invite_code req = do
    box_pk ← decode_pubkey env req.box_pubkey "box_pubkey"
    sig_pk ← decode_pubkey env req.sig_pubkey "sig_pubkey"
    found ← gets (meta_by_invite invite_code)
    meta ← or_fail found not_found
    check_allowlist meta.allowlist_thread_pubkeys invite_code box_pk req
    enroll meta.id box_pk sig_pk
    members ← gets (list_members env meta.id)
    pure (record { room_id = env.b64 meta.id; members = members })

  unfoldable pub leave : Text → LeaveRoomReq → Action Db Unit
  leave room_id_b64 req = do
    room_id ← decode env room_id_b64 "room_id b64"
    found ← gets (meta_by_id room_id)
    guard (is_some found) not_found
    sig_pk ← decode_pubkey env req.sig_pubkey "sig_pubkey"
    sig ← decode_sig env req.sig "sig b64" "sig length"
    check_window clk req.ts "ts outside ±60s window"
    checked (verify_leave_request env sig_pk sig room_id req.ts)
    check_nonce clk (codes "leave") sig_pk req.ts
    member ← gets (is_member room_id sig_pk)
    guard member (forbidden "not a current member of this room")
    removed ← modify (soft_remove_by_sig room_id sig_pk clk.today)
    guard removed (conflict "already removed")

  unfoldable pub invite_info : Text → Action Db InviteInfo
  invite_info invite_code = do
    found ← gets (meta_by_invite invite_code)
    meta ← or_fail found not_found
    pure (record {
      room_id = env.b64 meta.id;
      origin_thread = map_option env.b64 meta.origin_thread;
      restricted = is_some meta.allowlist_thread_pubkeys;
      allowlist_thread_pubkeys = map_option (map env.b64) meta.allowlist_thread_pubkeys;
      message_retention_days = meta.message_retention_days;
    })

  unfoldable pub wrap : Text → WrapKeyReq → Action Db Unit
  wrap room_id_b64 req = do
    room_id ← decode env room_id_b64 "room_id b64"
    for_box ← decode_pubkey env req.for_box_pubkey "for_box_pubkey"
    inviter_box ← decode_pubkey env req.inviter_box_pubkey "inviter_box_pubkey"
    inviter_sig_pk ← decode_pubkey env req.inviter_sig_pubkey "inviter_sig_pubkey"
    wrapped ← decode env req.wrapped_key "wrapped b64"
    guard (leb (length wrapped) max_wrapped_key) (bad_request "wrapped_key too large")
    inviter_sig ← decode_sig env req.inviter_sig "inviter_sig b64" "inviter_sig length"
    check_window clk req.inviter_ts "inviter_ts outside ±60s window"
    checked
        (verify_wrap_request env inviter_sig_pk inviter_sig room_id for_box wrapped req.inviter_ts)
    pair ← gets (is_active_member_pair room_id inviter_sig_pk inviter_box)
    guard pair (forbidden "inviter sig/box pubkey pair is not an active member")
    check_nonce clk (codes "wrap:" ++ req.for_box_pubkey) inviter_sig_pk req.inviter_ts
    granted ← modify (grant_wrap room_id for_box wrapped inviter_box)
    guard granted (conflict "no pending member matches")

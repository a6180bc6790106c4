-- ===== src/Rooms/Requests.antt =====
-- The requests and responses of crates/lethe-types/src/rooms.rs. A `B64` is a text, a timestamp the
-- bit pattern of an i64, an epoch that of an i32.
use lethe_project.Prelude.{ℕ, Bool, Option, List, Text}
use lethe_project.Db.{Date}

pub record CreateRoomReq : Type 0 where
  pub origin_thread : Option Text
  pub creator_box_pubkey : Text
  pub creator_sig_pubkey : Text
  pub wrapped_key_for_creator : Text
  pub creator_thread_pubkey : Option Text
  pub provenance_sig : Option Text
  pub allowlist_thread_pubkeys : Option (List Text)
  pub creator_create_ts : ℕ
  pub creator_create_sig : Text

pub record CreateRoomResp : Type 0 where
  pub room_id : Text
  pub invite_code : Text

pub record JoinRoomReq : Type 0 where
  pub box_pubkey : Text
  pub sig_pubkey : Text
  pub proof_thread_pubkey : Option Text
  pub proof_ts : Option ℕ
  pub proof_sig : Option Text

pub record InviteInfo : Type 0 where
  pub room_id : Text
  pub origin_thread : Option Text
  pub restricted : Bool
  pub allowlist_thread_pubkeys : Option (List Text)
  pub message_retention_days : ℕ

pub record MemberView : Type 0 where
  pub box_pubkey : Text
  pub sig_pubkey : Text
  pub wrapped_key : Option Text
  pub joined_at : Date
  pub invited_by_box_pubkey : Option Text
  pub removed_at : Option Date

pub record JoinRoomResp : Type 0 where
  pub room_id : Text
  pub members : List MemberView

pub record WrapKeyReq : Type 0 where
  pub for_box_pubkey : Text
  pub wrapped_key : Text
  pub inviter_box_pubkey : Text
  pub inviter_sig_pubkey : Text
  pub inviter_ts : ℕ
  pub inviter_sig : Text

pub record MembersReq : Type 0 where
  pub requester_sig_pubkey : Text
  pub ts : ℕ
  pub sig : Text

pub record MembersResp : Type 0 where
  pub members : List MemberView
  pub current_epoch : ℕ
  pub message_retention_days : ℕ
  pub vouching_enabled : Bool
  pub roster_epoch : ℕ

pub record PostRosterReq : Type 0 where
  pub epoch : ℕ
  pub member_sig_pubkeys : List Text
  pub creator_sig : Text

pub record RosterResp : Type 0 where
  pub room_id : Text
  pub creator_sig_pubkey : Text
  pub epoch : ℕ
  pub member_sig_pubkeys : List Text
  pub creator_sig : Text

pub record RewrapEntry : Type 0 where
  pub for_box_pubkey : Text
  pub wrapped_key : Text

pub record RemoveMemberReq : Type 0 where
  pub remover_sig_pubkey : Text
  pub ts : ℕ
  pub sig : Text
  pub target_box_pubkey : Text
  pub new_wrapped_keys : List RewrapEntry

pub record ProvenanceResp : Type 0 where
  pub origin_thread : Option Text
  pub creator_thread_pubkey : Option Text
  pub provenance_sig : Option Text
  pub created_at : Date

pub record SendMessageReq : Type 0 where
  pub sender_sig_pubkey : Text
  pub nonce : Text
  pub ciphertext : Text
  pub sender_sig : Text

pub record SendMessageResp : Type 0 where
  pub message_id : Text
  pub created_at : Date

pub record MessageView : Type 0 where
  pub message_id : Text
  pub seq : ℕ
  pub sender_sig_pubkey : Text
  pub nonce : Text
  pub ciphertext : Text
  pub sender_sig : Text
  pub created_at : Date

pub record ListMessagesReq : Type 0 where
  pub requester_sig_pubkey : Text
  pub ts : ℕ
  pub sig : Text
  pub since_seq : Option ℕ

pub record LeaveRoomReq : Type 0 where
  pub sig_pubkey : Text
  pub ts : ℕ
  pub sig : Text

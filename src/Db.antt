-- ===== src/Db.antt =====
-- The database: the tables of crates/lethe-server/migrations as the db modules of
-- crates/lethe-server/src/db read and write them. A DATE is its Julian day number.
use lethe_project.Prelude.{ℕ, Bool, Option, List, [], Bytes, Text}

abbrev pub Date : Type 0
Date = ℕ

pub record Board : Type 0 where
  pub id : Text
  pub title : Text
  pub pow_bits : ℕ
  pub retention_days : Option ℕ

pub record Thread : Type 0 where
  pub id : Bytes
  pub board_id : Text
  pub title : Text
  pub created_at : Date
  pub last_post_at : Date
  pub post_count : ℕ
  pub expires_at : Option Date
  pub origin_server_id : Option Bytes

-- `vouch` is the stored JSON text, `vouch_room_id` the room that it cites.
pub record Post : Type 0 where
  pub id : Bytes
  pub thread_id : Bytes
  pub seq : ℕ
  pub body : Text
  pub pow_nonce : Bytes
  pub pubkey : Option Bytes
  pub signature : Option Bytes
  pub created_at : Date
  pub origin_server_id : Option Bytes
  pub origin_post_id : Option Bytes
  pub vouch : Option Text
  pub vouch_room_id : Option Bytes

pub record Room : Type 0 where
  pub id : Bytes
  pub origin_thread : Option Bytes
  pub invite_code : Text
  pub created_at : Date
  pub creator_thread_pubkey : Option Bytes
  pub provenance_sig : Option Bytes
  pub message_retention_days : ℕ
  pub current_epoch : ℕ
  pub allowlist_thread_pubkeys : Option (List Bytes)
  pub vouching_enabled : Bool
  pub roster_epoch : ℕ

pub data VerificationState : Type 0 where
  unverified continuity : VerificationState

pub record Member : Type 0 where
  pub room_id : Bytes
  pub member_box_pubkey : Bytes
  pub member_sig_pubkey : Bytes
  pub wrapped_key : Option Bytes
  pub joined_at : Date
  pub invited_by_box_pubkey : Option Bytes
  pub verification_state : VerificationState
  pub removed_at : Option Date

pub record Message : Type 0 where
  pub id : Bytes
  pub seq : ℕ
  pub room_id : Bytes
  pub sender_sig_pubkey : Bytes
  pub nonce : Bytes
  pub ciphertext : Bytes
  pub sender_sig : Bytes
  pub created_at : Date

pub record Roster : Type 0 where
  pub room_id : Bytes
  pub epoch : ℕ
  pub member_sig_pubkeys : List Bytes
  pub creator_sig : Bytes
  pub signed_at : Date

-- `seen_at` in seconds.
pub record Nonce : Type 0 where
  pub kind : Text
  pub sig_pubkey : Bytes
  pub ts : ℕ
  pub seen_at : ℕ

pub data Scope : Type 0 where
  local global : Scope

pub record Removal : Type 0 where
  pub post_id : Bytes
  pub removed_at : Date
  pub reason : Text
  pub scope : Scope
  pub origin_server_id : Option Bytes
  pub origin_signature : Option Bytes

pub record Report : Type 0 where
  pub id : Bytes
  pub post_id : Bytes
  pub reason_text : Option Text
  pub reported_at : Date

pub record ModerationAction : Type 0 where
  pub id : Bytes
  pub board_id : Option Text
  pub body_hash : Bytes
  pub reason : Text
  pub decided_at : Date

pub record Peer : Type 0 where
  pub server_pubkey : Bytes
  pub endpoint : Text
  pub label : Option Text
  pub last_cursor : Option Bytes
  pub added_at : Date
  pub enabled : Bool

pub record AdminToken : Type 0 where
  pub token_hash : Bytes
  pub label : Text
  pub created_at : Date
  pub revoked_at : Option Date

pub record InstanceIdentity : Type 0 where
  pub server_pubkey : Bytes
  pub server_privkey : Option Bytes

-- `next_message_seq` is the sequence behind `room_messages.seq BIGSERIAL`.
pub record Db : Type 0 where
  pub boards : List Board
  pub threads : List Thread
  pub posts : List Post
  pub rooms : List Room
  pub room_members : List Member
  pub room_messages : List Message
  pub next_message_seq : ℕ
  pub room_rosters : List Roster
  pub request_nonces : List Nonce
  pub post_removals : List Removal
  pub reports : List Report
  pub moderation_actions : List ModerationAction
  pub federation_peers : List Peer
  pub admin_tokens : List AdminToken
  pub instance_identity : List InstanceIdentity

abbrev pub empty_db : Db
empty_db = record {
  boards = [];
  threads = [];
  posts = [];
  rooms = [];
  room_members = [];
  room_messages = [];
  next_message_seq = 1;
  room_rosters = [];
  request_nonces = [];
  post_removals = [];
  reports = [];
  moderation_actions = [];
  federation_peers = [];
  admin_tokens = [];
  instance_identity = [];
}

-- ===== src/Tests.antt =====
-- Concrete keys, clocks and tables for the runs at concrete inputs.
pub mod Rooms
pub mod Moves
pub mod Records
pub mod Server
pub mod Federation
pub mod Handlers
pub mod Vouching
use lethe_project.Prelude.{ℕ, Bool, true, false, none, some, List, [], ◌∷◌, Bytes, zero, suc}
use lethe_project.Env.{Env, Curve, Clock}
use lethe_project.Db.{Db, Room, Member, VerificationState, unverified, Thread, Post, empty_db}

abbrev pub fill : ℕ → ℕ → Bytes
fill zero b = []
fill (suc n) b = b ∷ fill n b

-- A curve of one point
abbrev pub point_curve : Curve
point_curve = record {
  Point = Unit;
  Scalar = Unit;
  decompress = λ b. some tt;
  compress = λ p. [];
  is_small_order = λ p. false;
  is_torsion_free = λ p. true;
  is_identity = λ p. false;
  from_canonical_bytes = λ b. some tt;
  from_bytes_mod_order_wide = λ b. tt;
  map_to_curve = λ b. tt;
  add = λ p q. tt;
  mul = λ c p. tt;
  basepoint = tt;
  scalar_eq = λ c d. true;
}

-- Texts are their own bytes and every signature verifies.
abbrev pub open_env : Env
open_env = record {
  unb64 = λ t. some t;
  b64 = λ b. b;
  is_key = λ b. true;
  verify_strict = λ k s m. true;
  sha256 = λ b. b;
  sha512 = λ b. b;
  curve = point_curve;
}

abbrev pub noon : Clock
noon = record { now_ts = 1000; today = 20 }

abbrev pub hall : Bytes
hall = fill 16 1

abbrev pub key : ℕ → Bytes
key n = fill 32 n

abbrev pub a_sig : Bytes
a_sig = fill 64 9

abbrev pub hall_room : Room
hall_room = record {
  id = hall;
  origin_thread = none;
  invite_code = fill 2 5;
  created_at = 10;
  creator_thread_pubkey = none;
  provenance_sig = none;
  message_retention_days = 30;
  current_epoch = 1;
  allowlist_thread_pubkeys = none;
  vouching_enabled = false;
  roster_epoch = 0;
}

-- The box key is `key n`, the signing key `key (n + 10)`.
abbrev pub member : ℕ → ℕ → Member
member n k = record {
  room_id = hall;
  member_box_pubkey = key n;
  member_sig_pubkey = key k;
  wrapped_key = some (fill 3 n);
  joined_at = 10;
  invited_by_box_pubkey = none;
  verification_state = unverified;
  removed_at = none;
}

abbrev pub hall_db : Db
hall_db = record empty_db {
  rooms = hall_room ∷ [];
  room_members = member 2 12 ∷ member 3 13 ∷ member 4 14 ∷ [];
}

-- ===== src/Federation/Events.antt =====
-- `build_*_event` and `verify_*_event` of crates/lethe-server/src/federation/events.rs, with the
-- signing and the verification of crates/lethe-server/src/federation/identity.rs.
pub mod RoundTrip
pub mod Origin
use lethe_project.Prelude.{
  ℕ, ◌==◌, ◌&&◌, Bool, true, false, Option, none, some, length, Bytes, Text, String, same,
  if◌then◌else◌, map_option,
}
use lethe_project.Error.{Result, ok, err, ◌>>=◌, ◌>>◌}
use lethe_project.Env.{Env}
use lethe_project.Db.{Date}
use lethe_project.Federation.Wire.{
  protocol_version, version, PostEvent, RemovalEvent, PostEventFields, RemovalEventFields,
  canonical_post_payload, canonical_removal_payload,
}

-- The server's key pair; `sign` is that of ed25519-dalek.
pub record Identity : Type 0 where
  pub pubkey : Bytes
  pub sign : Bytes → Bytes

-- The crate `time`: "[year]-[month]-[day]" and the Julian days that are dates.
pub record Calendar : Type 0 where
  pub format_date : Date → Text
  pub parse_date : Text → Option Date

pub data DecodeError : Type 0 where
  base64 length_of : String → DecodeError
  date signature : DecodeError
  protocol : Text → DecodeError

module _ (env : Env) (cal : Calendar) where
  unfoldable pub build_post_event : Identity → PostEventFields → PostEvent
  build_post_event identity f = record {
    protocol_version = protocol_version;
    constitution_version = version;
    board_id = f.board_id;
    thread_id = env.b64 f.thread_id;
    thread_origin_server_id = env.b64 f.thread_origin_server_id;
    thread_title = f.thread_title;
    origin_server_id = env.b64 f.origin_server_id;
    origin_post_id = env.b64 f.origin_post_id;
    body = f.body;
    created_at = cal.format_date f.created_at;
    author_pubkey = map_option env.b64 f.author_pubkey;
    author_signature = map_option env.b64 f.author_signature;
    server_signature = env.b64 (identity.sign (canonical_post_payload f));
  }

  unfoldable pub build_removal_event : Identity → RemovalEventFields → RemovalEvent
  build_removal_event identity f = record {
    protocol_version = protocol_version;
    constitution_version = version;
    origin_server_id = env.b64 f.origin_server_id;
    origin_post_id = env.b64 f.origin_post_id;
    reason = f.reason;
    removed_at = cal.format_date f.removed_at;
    server_signature = env.b64 (identity.sign (canonical_removal_payload f));
  }

  unfoldable pub of_length : ℕ → String → Bytes → Result DecodeError Bytes
  of_length n field v = if length v == n then ok v else err (length_of field)

  unfoldable pub decode_fixed : ℕ → Text → String → Result DecodeError Bytes
  unfolding of_length
  decode_fixed n s field = elim (env.unb64 s) [
    | none ↦ err (base64 field)
    | some v ↦ of_length n field v
  ]

  unfoldable pub decode_optional : ℕ → Option Text → String → Result DecodeError (Option Bytes)
  unfolding decode_fixed
  decode_optional n none field = ok none
  decode_optional n (some s) field = do v ← decode_fixed n s field; ok (some v)

  unfoldable pub read_date : Text → Result DecodeError Date
  read_date s = elim (cal.parse_date s) [ none ↦ err date | some d ↦ ok d ]

  -- `if … { return Err(e); }`, for the test that lets the code go on
  unfoldable pub require : Bool → DecodeError → Result DecodeError (Unit {0})
  require true e = ok tt
  require false e = err e

  -- Whether `verify_server_signature` succeeds; the callers drop its error.
  unfoldable pub verify_server_signature : Bytes → Bytes → Bytes → Bool
  verify_server_signature server_pubkey sig msg =
      length server_pubkey == 32
      && (length sig == 64 && (env.is_key server_pubkey && env.verify_strict server_pubkey sig msg))

  -- The decoded fields, with the server's signature
  unfoldable pub decode_post_event : PostEvent → Result DecodeError (Bytes × PostEventFields)
  unfolding decode_fixed decode_optional read_date require
  decode_post_event e = do
    require (same e.protocol_version protocol_version) (protocol e.protocol_version)
    thread_id ← decode_fixed 16 e.thread_id "thread_id"
    thread_origin ← decode_fixed 32 e.thread_origin_server_id "thread_origin_server_id"
    origin ← decode_fixed 32 e.origin_server_id "origin_server_id"
    origin_post_id ← decode_fixed 16 e.origin_post_id "origin_post_id"
    server_signature ← decode_fixed 64 e.server_signature "server_signature"
    author_pubkey ← decode_optional 32 e.author_pubkey "author_pubkey"
    author_signature ← decode_optional 64 e.author_signature "author_signature"
    created_at ← read_date e.created_at
    ok (
      server_signature,
      record {
        board_id = e.board_id;
        thread_id = thread_id;
        thread_origin_server_id = thread_origin;
        thread_title = e.thread_title;
        origin_server_id = origin;
        origin_post_id = origin_post_id;
        body = e.body;
        created_at = created_at;
        author_pubkey = author_pubkey;
        author_signature = author_signature;
      },
    )

  -- The tests that follow: the origin is the peer, and its signature fits.
  unfoldable pub authenticate :
      {F : Type 0} → Bytes → Bytes → Bytes → Bytes → F → Result DecodeError F
  unfolding require verify_server_signature
  authenticate origin expected_signer sig payload f = do
    require (same origin expected_signer) signature
    require (verify_server_signature origin sig payload) signature
    ok f

  unfoldable pub verify_post_event : PostEvent → Bytes → Result DecodeError PostEventFields
  unfolding decode_post_event authenticate canonical_post_payload
  verify_post_event e expected_signer = do
    decoded ← decode_post_event e
    let f : PostEventFields = decoded.1
    authenticate f.origin_server_id expected_signer decoded.0 (canonical_post_payload f) f

  unfoldable pub decode_removal_event :
      RemovalEvent → Result DecodeError (Bytes × RemovalEventFields)
  unfolding decode_fixed read_date require
  decode_removal_event e = do
    require (same e.protocol_version protocol_version) (protocol e.protocol_version)
    origin ← decode_fixed 32 e.origin_server_id "origin_server_id"
    origin_post_id ← decode_fixed 16 e.origin_post_id "origin_post_id"
    server_signature ← decode_fixed 64 e.server_signature "server_signature"
    removed_at ← read_date e.removed_at
    ok (
      server_signature,
      record {
        origin_server_id = origin;
        origin_post_id = origin_post_id;
        reason = e.reason;
        removed_at = removed_at;
      },
    )

  unfoldable pub verify_removal_event : RemovalEvent → Bytes → Result DecodeError RemovalEventFields
  unfolding decode_removal_event authenticate canonical_removal_payload
  verify_removal_event e expected_signer = do
    decoded ← decode_removal_event e
    let f : RemovalEventFields = decoded.1
    authenticate f.origin_server_id expected_signer decoded.0 (canonical_removal_payload f) f

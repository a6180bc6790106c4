-- ===== src/Federation/Pull/Ingest.antt =====
-- `apply_post_event` and `apply_removal_event`.
use lethe_project.Prelude.{
  ℕ, Bool, true, false, ◌&&◌, Option, none, some, Bytes, Text, String, same, length, ◌==◌, is_some,
  if◌then◌else◌,
}
use lethe_project.Error.{Result, ok, err, DbError}
use lethe_project.Env.{Env, Clock}
use lethe_project.Db.{Db, global}
use lethe_project.Payload.{canonical_post_payload}
use lethe_project.Moderation.{Judge, Verdict, allow, reject, evaluate, log_reject}
use lethe_project.Threads.{ensure_for_federation}
use lethe_project.Posts.Federated.{FederatedPost, insert_federated}
use lethe_project.PostRemovals
use lethe_project.Federation.Peers.{local_id_for_origin}
use lethe_project.Federation.Wire.{PostEvent, RemovalEvent, PostEventFields, RemovalEventFields}
use lethe_project.Federation.Events.{Calendar, DecodeError, verify_post_event, verify_removal_event}

-- The `Box<dyn Error>` of the worker
pub data IngestError : Type 0 where
  decode : DecodeError → IngestError
  db : DbError → IngestError
  base64 : IngestError
  text : String → IngestError

unfoldable pub ingest_error_kind : IngestError → String
ingest_error_kind (decode e) = "decode"
ingest_error_kind (db e) = "db"
ingest_error_kind base64 = "base64"
ingest_error_kind (text m) = "other"

module _ (env : Env) (cal : Calendar) (clk : Clock) (judge : Judge) where
  unfoldable pub base64_decode_32 : Text → Result IngestError Bytes
  base64_decode_32 s = elim (env.unb64 s) [
    | none ↦ err (text "base64")
    | some v ↦ if length v == 32 then ok v else err (text "length")
  ]

  unfoldable pub ed25519_verify : Bytes → Bytes → Bytes → Bool
  ed25519_verify pubkey sig msg = env.is_key pubkey && env.verify_strict pubkey sig msg

  -- Whether the worker goes on with a post, given its author's key and signature
  unfoldable pub is_author_valid : Bytes → Text → Option Bytes → Option Bytes → Bool
  unfolding ed25519_verify canonical_post_payload
  is_author_valid thread_id body (some pk) (some sig) =
      ed25519_verify pk sig (canonical_post_payload thread_id body)
  is_author_valid thread_id body _ _ = true

  abbrev pub is_inserted : Result DbError (Option (Bytes × ℕ)) × Db → Result IngestError Bool × Db
  is_inserted (ok r, s) = (ok (is_some r), s)
  is_inserted (err e, s) = (err (db e), s)

  abbrev pub federated_post : PostEventFields → FederatedPost
  federated_post d = record {
    thread_id = d.thread_id;
    body = d.body;
    pubkey = d.author_pubkey;
    signature = d.author_signature;
    created_at = d.created_at;
    origin_server_id = d.origin_server_id;
    origin_post_id = d.origin_post_id;
  }

  -- `insert_federated`, after the result of `ensure_for_federation`
  unfoldable pub store_in_thread :
      Bytes → PostEventFields → Result DbError (Unit {0}) × Db → Result IngestError Bool × Db
  unfolding insert_federated
  store_in_thread local_id d (ok u, s) =
      is_inserted (insert_federated local_id (federated_post d) s)
  store_in_thread local_id d (err e, s) = (err (db e), s)

  -- `local_id` is the fresh id of the post.
  unfoldable pub store_post : Bytes → PostEventFields → Db → Result IngestError Bool × Db
  unfolding store_in_thread ensure_for_federation
  store_post local_id d s = store_in_thread local_id d (
      ensure_for_federation d.thread_id d.board_id d.thread_title d.created_at
        d.thread_origin_server_id clk.today s)

  -- `action_id` is the fresh id of a rejection.
  unfoldable pub admit_judged :
      Bytes → Bytes → PostEventFields → Verdict → Db → Result IngestError Bool × Db
  unfolding store_post
  admit_judged local_id action_id d (reject reason) s =
      (ok false, log_reject env clk action_id (some d.board_id) d.body reason s)
  admit_judged local_id action_id d allow s = store_post local_id d s

  -- The gates on a decoded post
  unfoldable pub admit_post : Bytes → Bytes → PostEventFields → Db → Result IngestError Bool × Db
  unfolding is_author_valid admit_judged
  admit_post local_id action_id d s =
      if is_author_valid d.thread_id d.body d.author_pubkey d.author_signature
      then admit_judged local_id action_id d (evaluate judge clk.now_ts d.board_id d.body s) s
      else (ok false, s)

  abbrev pub admit_verified :
      Bytes → Bytes → Result DecodeError PostEventFields → Db → Result IngestError Bool × Db
  admit_verified local_id action_id (ok d) s = admit_post local_id action_id d s
  admit_verified local_id action_id (err e) s = (err (decode e), s)

  unfoldable pub admit_claimed :
      Bytes
      → Bytes
      → PostEvent
      → Bytes
      → Bytes
      → Result IngestError Bytes
      → Db
      → Result IngestError Bool × Db
  unfolding admit_post verify_post_event
  admit_claimed local_id action_id evt expected_signer self_pubkey (err e) s = (err e, s)
  admit_claimed local_id action_id evt expected_signer self_pubkey (ok claimed_origin) s =
      if same claimed_origin self_pubkey
      then (ok false, s)
      else admit_verified local_id action_id (verify_post_event env cal evt expected_signer) s

  unfoldable pub apply_post_event :
      Bytes → Bytes → PostEvent → Bytes → Bytes → Db → Result IngestError Bool × Db
  unfolding base64_decode_32 admit_claimed
  apply_post_event local_id action_id evt expected_signer self_pubkey s =
      admit_claimed local_id action_id evt expected_signer self_pubkey
        (base64_decode_32 evt.origin_server_id) s

  abbrev pub is_new_removal : Result DbError Bool × Db → Result IngestError Bool × Db
  is_new_removal (ok b, s) = (ok b, s)
  is_new_removal (err e, s) = (err (db e), s)

  -- What follows the search for the post
  unfoldable pub remove_found :
      Bytes → RemovalEventFields → Option Bytes → Db → Result IngestError Bool × Db
  unfolding PostRemovals.insert
  remove_found server_sig d none s = (ok false, s)
  remove_found server_sig d (some local_id) s = is_new_removal (
      PostRemovals.insert
        (record {
          post_id = local_id;
          removed_at = d.removed_at;
          reason = d.reason;
          scope = global;
          origin_server_id = some d.origin_server_id;
          origin_signature = some server_sig;
        })
        s)

  -- `decode` and `try_into` of the signature, and what follows
  unfoldable pub store_removal :
      RemovalEventFields → Option Bytes → Db → Result IngestError Bool × Db
  unfolding local_id_for_origin remove_found
  store_removal d none s = (err base64, s)
  store_removal d (some server_sig) s =
      if length server_sig == 64
      then remove_found server_sig d (local_id_for_origin d.origin_server_id d.origin_post_id s) s
      else (err (text "removal signature length"), s)

  abbrev pub remove_verified :
      RemovalEvent → Result DecodeError RemovalEventFields → Db → Result IngestError Bool × Db
  remove_verified evt (ok d) s = store_removal d (env.unb64 evt.server_signature) s
  remove_verified evt (err e) s = (err (decode e), s)

  unfoldable pub apply_removal_event : RemovalEvent → Bytes → Db → Result IngestError Bool × Db
  unfolding store_removal verify_removal_event
  apply_removal_event evt expected_signer s =
      remove_verified evt (verify_removal_event env cal evt expected_signer) s

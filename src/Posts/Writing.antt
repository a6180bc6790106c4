-- ===== src/Posts/Writing.antt =====
-- `create_thread`, `create_post` and `validate_vouch` of crates/lethe-server/src/logic/posts.rs.
pub mod Keeps
pub mod Stored
use lethe_project.Prelude.{
  ℕ, ◌+◌, ◌*◌, Bool, ◌&&◌, Option, none, some, List, [], ◌∷◌, Bytes, Text, String, same, length,
  ◌==◌, ltb, leb, is_some, utf8,
}
use Prim.Native.Nat.{Ordering}
use Prim.Native.String.{compare}
use lethe_project.Action.{Action, pure, fail, gets, modify, guard, or_fail, ◌>>=◌, ◌>>◌}
use lethe_project.Error.{
  Result, ok, err, AppError, DbError, database, db, bad_request, not_found, forbidden, conflict,
}
use lethe_project.Env.{Env, Clock}
use lethe_project.Db.{Db, Date}
use lethe_project.Checks.{checked, decode, statement}
use lethe_project.Crypto.{verify_post_signature}
use lethe_project.Crypto.Vouch.{verify_vouch}
use lethe_project.Moderation.{
  Judge, Reason, allow, reject, evaluate, log_reject, spam_duplicate, spam_link_density,
  spam_too_short, malware_link, harassment_or_hate, ai_classifier,
}
use lethe_project.Pow
use lethe_project.Threads
use lethe_project.Rooms.Queries.{meta_by_id, roster_at}
use lethe_project.Rooms.Vouching.{same_keys, vouch_max_ring}
use lethe_project.Posts.Queries.{insert, signer_first_seq}
use lethe_project.Posts.Requests.{
  VouchPayload, CreateThreadReq, CreateThreadResp, CreatePostReq, CreatePostResp,
}

abbrev pub max_title : ℕ
max_title = 256

abbrev pub max_body : ℕ
max_body = 16 * 1024

abbrev pub max_expires_in_days : ℕ
max_expires_in_days = 3650

-- `String::len`, which counts bytes
unfoldable pub is_within : ℕ → Text → Bool
is_within bound t = ltb 0 (length (utf8 t)) && leb (length (utf8 t)) bound

unfoldable pub reason_static : Reason → String
reason_static spam_duplicate = "rejected: spam_duplicate"
reason_static spam_link_density = "rejected: spam_link_density"
reason_static spam_too_short = "rejected: spam_too_short"
reason_static malware_link = "rejected: malware_link"
reason_static harassment_or_hate = "rejected: harassment_or_hate"
reason_static ai_classifier = "rejected: ai_classifier"

-- What a handler is called with beside the request: the work that a post takes, the classifier with
-- the harassment lists, the server's key, `serde_json::to_string` of a vouch, and fresh ids.
pub record Posting : Type 0 where
  pub pow_bits : ℕ
  pub judge : Judge
  pub server_pubkey : Bytes
  pub serialize : VouchPayload → Text
  -- `time::Date::from_julian_day` succeeds
  pub is_date : Date → Bool
  pub action_id : Bytes
  pub post_id : Bytes
  pub thread_id : Bytes

module _ (env : Env) (clk : Clock) (io : Posting) where
  unfoldable pub decode_array : ℕ → Text → String → Action Db Bytes
  decode_array n t label = do
    v ← decode env t label
    guard (length v == n) (bad_request label)
    pure v

  unfoldable pub decode_ring : List Text → Action Db (List Bytes)
  decode_ring [] = pure []
  decode_ring (p ∷ ps) = do
    b ← decode env p "vouch ring b64"
    guard (length b == 32) (bad_request "vouch ring pubkey length")
    rest ← decode_ring ps
    pure (b ∷ rest)

  unfoldable pub decode_scalars : List Text → Action Db (List Bytes)
  decode_scalars [] = pure []
  decode_scalars (x ∷ xs) = do
    b ← decode_array 32 x "vouch s"
    rest ← decode_scalars xs
    pure (b ∷ rest)

  unfoldable pub validate_vouch : VouchPayload → Bytes → Text → Action Db (Text × Bytes)
  validate_vouch v thread_id body = do
    room_id ← decode env v.room_id "vouch room_id b64"
    guard (length room_id == 16) (bad_request "vouch room_id length")
    guard
        (ltb 0 (length v.ring)
          && (leb (length v.ring) vouch_max_ring && length v.s == length v.ring))
        (bad_request "vouch ring size")
    ring ← decode_ring v.ring
    key_image ← decode_array 32 v.key_image "vouch key_image"
    c0 ← decode_array 32 v.c0 "vouch c0"
    s ← decode_scalars v.s
    creator_sig ← decode env v.creator_sig "vouch creator_sig b64"
    found ← gets (meta_by_id room_id)
    meta ← or_fail found (bad_request "vouch room not found")
    guard meta.vouching_enabled (forbidden "vouching is not enabled for that room")
    guard (v.roster_epoch == meta.roster_epoch) (conflict "vouch cites a stale roster epoch")
    at_epoch ← gets (roster_at room_id v.roster_epoch)
    stored ← or_fail at_epoch (conflict "roster epoch missing")
    guard (same_keys stored.member_sig_pubkeys ring && same stored.creator_sig creator_sig)
        (forbidden "vouch ring does not match the signed roster")
    checked (
        verify_vouch env (record {
          room_id = room_id;
          thread_id = thread_id;
          body = body;
          roster_epoch = v.roster_epoch;
          ring = ring;
          key_image = key_image;
          c0 = c0;
          s = s;
        }))
    pure (io.serialize v, room_id)

  -- The verdict on a body; a rejected one is logged and refused.
  unfoldable pub moderate : Text → Text → Action Db (Unit {0})
  moderate board_id body = do
    verdict ← gets (evaluate io.judge clk.now_ts board_id body)
    elim verdict [
      | allow ↦ pure tt
      | reject reason ↦
          modify (λ s. (tt, log_reject env clk io.action_id (some board_id) body reason s))
          >> fail (bad_request (reason_static reason))
    ]

  -- The `match` on the key and the signature of a request; `claim` is the test that comes first
  -- where both are there.
  unfoldable pub check_signature :
      Action Db (Unit {0})
      → Bytes
      → Text
      → Option Text
      → Option Text
      → Action Db (Option Bytes × Option Bytes)
  check_signature claim thread_id body none none = pure (none, none)
  check_signature claim thread_id body (some pk_b64) (some sig_b64) = do
    claim
    pk ← decode env pk_b64 "pubkey b64"
    sig ← decode env sig_b64 "signature b64"
    checked (verify_post_signature env pk sig thread_id body)
    pure (some pk, some sig)
  check_signature claim thread_id body (some pk_b64) none =
      fail (bad_request "pubkey/signature must come together")
  check_signature claim thread_id body none (some sig_b64) =
      fail (bad_request "pubkey/signature must come together")

  unfoldable pub check_vouch :
      Action Db (Unit {0}) → Option VouchPayload → Bytes → Text → Action Db (Option (Text × Bytes))
  check_vouch claim none thread_id body = pure none
  check_vouch claim (some v) thread_id body = do
    claim
    vouch ← validate_vouch v thread_id body
    pure (some vouch)

  unfoldable pub first_seq : Bytes → Option Bytes → Action Db (Option ℕ)
  first_seq thread_id none = pure none
  first_seq thread_id (some pk) = statement (signer_first_seq thread_id pk)

  unfoldable pub create_post : Text → CreatePostReq → Action Db CreatePostResp
  create_post thread_id_b64 req = do
    guard (is_within max_body req.body) (bad_request "body length")
    thread_id ← decode env thread_id_b64 "thread_id b64"
    there ← gets (Threads.exists thread_id)
    guard there not_found
    nonce ← decode env req.pow_nonce "pow_nonce b64"
    guard (Pow.verify env thread_id req.body nonce io.pow_bits) (bad_request "insufficient pow")
    board ← gets (Threads.board_id_for thread_id)
    board_id ← or_fail board not_found
    moderate board_id req.body
    signed ← check_signature (pure tt) thread_id req.body req.pubkey req.signature
    vouch ← check_vouch (pure tt) req.vouch thread_id req.body
    inserted ← statement (
        insert io.post_id (record {
          thread_id = thread_id;
          body = req.body;
          pow_nonce = nonce;
          pubkey = signed.0;
          signature = signed.1;
          created_at = clk.today;
          origin_server_id = io.server_pubkey;
          vouch = vouch;
        }))
    signer_first_seq ← first_seq thread_id signed.0
    pure (record {
      post_id = env.b64 inserted.0;
      seq = inserted.1;
      signer_first_seq = signer_first_seq;
    })

  -- A client may have minted the thread id.
  unfoldable pub decode_thread_id : Option Text → Action Db Bytes
  decode_thread_id none = pure io.thread_id
  decode_thread_id (some b) = do
    v ← decode env b "thread_id b64"
    guard (length v == 16) (bad_request "thread_id length")
    pure v

  unfoldable pub expiry : Option ℕ → Action Db (Option Date)
  expiry none = pure none
  expiry (some d) = do
    guard (leb 1 d && leb d max_expires_in_days) (bad_request "expires_in_days out of range")
    guard (io.is_date (clk.today + d)) (bad_request "expires_in_days")
    pure (some (clk.today + d))

  -- `map_err` on `db::threads::create`
  unfoldable pub create_error : Result DbError (Unit {0}) × Db → Result AppError (Unit {0}) × Db
  create_error (ok u, s) = (ok u, s)
  create_error (err (database constraint), s) = (
    err (elim (compare constraint "threads_pkey") [
      | Ordering.lt ↦ db (database constraint)
      | Ordering.eq ↦ conflict "thread_id already exists"
      | Ordering.gt ↦ db (database constraint)
    ]),
    s,
  )
  create_error (err e, s) = (err (db e), s)

  unfoldable pub create_thread : CreateThreadReq → Action Db CreateThreadResp
  create_thread req = do
    guard (is_within max_title req.title) (bad_request "title length")
    guard (is_within max_body req.body) (bad_request "body length")
    nonce ← decode env req.pow_nonce "pow_nonce b64"
    guard (Pow.verify env (utf8 req.board_id) req.body nonce io.pow_bits)
        (bad_request "insufficient pow")
    moderate req.board_id req.body
    thread_id ← decode_thread_id req.thread_id
    signed ←
        check_signature
          (guard (is_some req.thread_id)
            (bad_request "thread_id required when claiming OP identity"))
          thread_id req.body req.pubkey req.signature
    vouch ←
        check_vouch (guard (is_some req.thread_id) (bad_request "thread_id required when vouching"))
          req.vouch thread_id req.body
    expires_at ← expiry req.expires_in_days
    λ s. create_error (
        Threads.create thread_id req.board_id req.title clk.today expires_at io.server_pubkey
          clk.today s)
    inserted ← statement (
        insert io.post_id (record {
          thread_id = thread_id;
          body = req.body;
          pow_nonce = nonce;
          pubkey = signed.0;
          signature = signed.1;
          created_at = clk.today;
          origin_server_id = io.server_pubkey;
          vouch = vouch;
        }))
    pure (record { thread_id = env.b64 thread_id; seq = inserted.1 })

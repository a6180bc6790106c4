-- ===== src/Federation/Events/RoundTrip.antt =====
-- A peer reads back the events that a server builds.
use lethe_project.Prelude.{
  ℕ, ◌≡◌, refl, true, Option, none, some, length, Bytes, String, arith, same, same_refl, map_option,
}
use lethe_project.Error.{ok}
use lethe_project.Env.{Env}
use lethe_project.Db.{Date}
use lethe_project.Federation.Wire.{
  PostEventFields, RemovalEventFields, canonical_post_payload, canonical_removal_payload,
}
use lethe_project.Federation.Events.{
  authenticate, decode_post_event, decode_removal_event, Identity, Calendar, build_post_event,
  build_removal_event, verify_post_event, verify_removal_event, decode_fixed, of_length,
  decode_optional, read_date, verify_server_signature, require,
}

abbrev pub HasLength : ℕ → Option Bytes → Type 0
HasLength n none = Unit
HasLength n (some b) = length b ≡ n

-- The ids, keys and signatures have their lengths.
pub record IsSized (f : PostEventFields) : Type 0 where
  pub thread : length f.thread_id ≡ 16
  pub thread_origin : length f.thread_origin_server_id ≡ 32
  pub origin : length f.origin_server_id ≡ 32
  pub post : length f.origin_post_id ≡ 16
  pub author : HasLength 32 f.author_pubkey
  pub signed : HasLength 64 f.author_signature

module _ (env : Env) (cal : Calendar) (identity : Identity)
    -- base64 reads back what it wrote, and so does the date format
    (b64_read : (b : Bytes) → env.unb64 (env.b64 b) ≡ some b)
    (date_read : (d : Date) → cal.parse_date (cal.format_date d) ≡ some d)
    -- the key pair signs for its public key
    (is_key : env.is_key identity.pubkey ≡ true)
    (signs : (m : Bytes) → env.verify_strict identity.pubkey (identity.sign m) m ≡ true)
    (sized : (m : Bytes) → length (identity.sign m) ≡ 64) where
  fixed-read :
      (n : ℕ) (b : Bytes) (l : String) → length b ≡ n → decode_fixed env cal n (env.b64 b) l ≡ ok b
  unfolding decode_fixed of_length
  fixed-read n b l h = rw (decode_fixed, b64_read b, of_length, h) (ground arith)

  optional-read :
      (n : ℕ) (b : Option Bytes) (l : String)
      → HasLength n b
      → decode_optional env cal n (map_option env.b64 b) l ≡ ok b
  unfolding decode_optional
  optional-read n none l h = refl
  optional-read n (some b) l h = rw (fixed-read n b l h) refl

  date-read : (d : Date) → read_date env cal (cal.format_date d) ≡ ok d
  unfolding read_date
  date-read d = rw (read_date, date_read d) refl

  signature-verified :
      (o m : Bytes)
      → o ≡ identity.pubkey
      → length o ≡ 32
      → verify_server_signature env cal o (identity.sign m) m ≡ true
  unfolding verify_server_signature
  signature-verified o m e h = rw (h, sized m, e, is_key, signs m) refl

  same-read : (a b : Bytes) → a ≡ b → same a b ≡ true
  same-read a b h = rw h (same_refl b)

  -- The event that a server builds for a post of its own is accepted by a peer that expects its key, and gives back
  -- all fields of the post, where the ids, keys and signatures have their lengths.
  pub verify-build_post :
      (f : PostEventFields)
      → f.origin_server_id ≡ identity.pubkey
      → IsSized f
      → verify_post_event env cal (build_post_event env cal identity f) identity.pubkey ≡ ok f
  unfolding verify_post_event decode_post_event authenticate build_post_event require same
  verify-build_post f h k =
      rw
        (
          fixed-read 16 f.thread_id "thread_id" k.thread,
          fixed-read 32 f.thread_origin_server_id "thread_origin_server_id" k.thread_origin,
          fixed-read 32 f.origin_server_id "origin_server_id" k.origin,
          fixed-read 16 f.origin_post_id "origin_post_id" k.post,
          fixed-read 64 (identity.sign (canonical_post_payload f)) "server_signature"
              (sized (canonical_post_payload f)),
          optional-read 32 f.author_pubkey "author_pubkey" k.author,
          optional-read 64 f.author_signature "author_signature" k.signed,
          date-read f.created_at,
          same-read f.origin_server_id identity.pubkey h,
          signature-verified f.origin_server_id (canonical_post_payload f) h k.origin,
        )
        refl

  -- The event that a server builds for a removal is accepted by a peer that expects its key, and gives back all its
  -- fields, where the ids have their lengths.
  pub verify-build_removal :
      (f : RemovalEventFields)
      → f.origin_server_id ≡ identity.pubkey
      → length f.origin_server_id ≡ 32
      → length f.origin_post_id ≡ 16
      → verify_removal_event env cal (build_removal_event env cal identity f) identity.pubkey ≡ ok f
  unfolding verify_removal_event decode_removal_event authenticate build_removal_event require same
  verify-build_removal f h k l =
      rw
        (
          fixed-read 32 f.origin_server_id "origin_server_id" k,
          fixed-read 16 f.origin_post_id "origin_post_id" l,
          fixed-read 64 (identity.sign (canonical_removal_payload f)) "server_signature"
              (sized (canonical_removal_payload f)),
          date-read f.removed_at,
          same-read f.origin_server_id identity.pubkey h,
          signature-verified f.origin_server_id (canonical_removal_payload f) h k,
        )
        refl

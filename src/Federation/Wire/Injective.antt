-- ===== src/Federation/Wire/Injective.antt =====
-- The signed byte strings determine the fields: `canonical_post_payload` and
-- `canonical_removal_payload` of crates/lethe-server/src/federation/events.rs.
use lethe_project.Prelude.{
  ℕ, ◌%◌, ◌<◌, ◌≡◌, ◌≢◌, refl, sym, ap, ◌∙◌, Option, none, some, [], ◌∷◌, ◌++◌, Bytes, Text, length,
  utf8, be_bytes, same, take, codes, true, false, arith, append_assoc, append-nil,
}
use lethe_project.Federation.Wire.{
  PostEventFields, RemovalEventFields, write_bytes, write_str, write_opt_bytes, write_date,
  canonical_post_payload, canonical_removal_payload, post_event_domain, removal_event_domain,
  protocol_version, version,
}

-- A length or a day that fits in four bytes
abbrev pub Fits : ℕ → Type 0
Fits n = n < 4294967296

append-split : (a b c d : Bytes) → length a ≡ length b → a ++ c ≡ b ++ d → (a ≡ b) × (c ≡ d)
append-split [] [] c d l h = (refl, h)
append-split [] (y ∷ ys) c d l h = absurd (omega (arith, l))
append-split (x ∷ xs) [] c d l h = absurd (omega (arith, l))
append-split (x ∷ xs) (y ∷ ys) c d l h =
    let (e, f) = append-split xs ys c d (omega (arith, l)) (ground arith) in (ground arith, f)

append-same : (a c d : Bytes) → a ++ c ≡ a ++ d → c ≡ d
append-same a c d h = (append-split a a c d refl h).1

head-tail : (x y : ℕ) (xs ys : Bytes) → x ∷ xs ≡ y ∷ ys → (x ≡ y) × (xs ≡ ys)
head-tail x y xs ys h = (ground arith, ground arith)

be_bytes-split :
    (m n : ℕ) (c d : Bytes)
    → Fits m
    → Fits n
    → be_bytes 4 m ++ c ≡ be_bytes 4 n ++ d
    → (m ≡ n) × (c ≡ d)
unfolding be_bytes
be_bytes-split m n c d l k h =
    let (p, h1) = head-tail _ _ _ _ h in
    let (q, h2) = head-tail _ _ _ _ h1 in
    let (r, h3) = head-tail _ _ _ _ h2 in
    let (s, e) = head-tail _ _ _ _ h3 in (omega (arith, p, q, r, s, l, k), e)

counted-split :
    (a b c d : Bytes)
    → Fits (length a)
    → Fits (length b)
    → (be_bytes 4 (length a % 4294967296) ++ a) ++ c
      ≡ (be_bytes 4 (length b % 4294967296) ++ b) ++ d
    → (a ≡ b) × (c ≡ d)
counted-split a b c d l k h =
    let h' = sym (append_assoc _ a c) ∙ (h ∙ append_assoc _ b d) in
    let (n, e) = be_bytes-split _ _ _ _ (omega arith) (omega arith) h' in
    append-split a b c d (omega (arith, n, l, k)) e

bytes-split :
    (a b c d : Bytes)
    → Fits (length a)
    → Fits (length b)
    → write_bytes a ++ c ≡ write_bytes b ++ d
    → (a ≡ b) × (c ≡ d)
unfolding write_bytes
bytes-split a b c d l k h = counted-split a b c d l k h

str-split :
    (a b : Text) (c d : Bytes)
    → Fits (length (utf8 a))
    → Fits (length (utf8 b))
    → write_str a ++ c ≡ write_str b ++ d
    → (utf8 a ≡ utf8 b) × (c ≡ d)
unfolding write_str
str-split a b c d l k h = counted-split (utf8 a) (utf8 b) c d l k h

date-split :
    (a b : ℕ) (c d : Bytes)
    → Fits a
    → Fits b
    → write_date a ++ c ≡ write_date b ++ d
    → (a ≡ b) × (c ≡ d)
unfolding write_date
date-split a b c d l k h = be_bytes-split a b c d l k h

abbrev pub FitsOption : Option Bytes → Type 0
FitsOption none = Unit
FitsOption (some b) = Fits (length b)

option-split :
    (a b : Option Bytes) (c d : Bytes)
    → FitsOption a
    → FitsOption b
    → write_opt_bytes a ++ c ≡ write_opt_bytes b ++ d
    → (a ≡ b) × (c ≡ d)
unfolding write_opt_bytes
option-split none none c d l k h = (refl, (head-tail _ _ _ _ h).1)
option-split none (some b) c d l k h = absurd (omega (arith, (head-tail _ _ _ _ h).0))
option-split (some a) none c d l k h = absurd (omega (arith, (head-tail _ _ _ _ h).0))
option-split (some a) (some b) c d l k h =
    let (e, f) = bytes-split a b c d l k (head-tail _ _ _ _ h).1 in (ap some e, f)

-- Every length, and the day, fits in four bytes.
pub record RemovalFits (f : RemovalEventFields) : Type 0 where
  pub origin : Fits (length f.origin_server_id)
  pub post : Fits (length f.origin_post_id)
  pub reason : Fits (length (utf8 f.reason))
  pub day : Fits f.removed_at

pub record SameRemoval (f g : RemovalEventFields) : Type 0 where
  pub origin : f.origin_server_id ≡ g.origin_server_id
  pub post : f.origin_post_id ≡ g.origin_post_id
  pub reason : utf8 f.reason ≡ utf8 g.reason
  pub day : f.removed_at ≡ g.removed_at

-- Two removals with the same signed bytes agree in every field, the reason as its UTF-8 bytes, where lengths and
-- days fit in four bytes.
pub canonical_removal_payload-injective :
    (f g : RemovalEventFields)
    → RemovalFits f
    → RemovalFits g
    → canonical_removal_payload f ≡ canonical_removal_payload g
    → SameRemoval f g
unfolding canonical_removal_payload
canonical_removal_payload-injective f g k l h =
    let h1 = append-same removal_event_domain _ _ h in
    let h2 = append-same (write_str protocol_version) _ _ h1 in
    let h3 = append-same (write_str version) _ _ h2 in
    let (origin, h4) = bytes-split _ _ _ _ k.origin l.origin h3 in
    let (post, h5) = bytes-split _ _ _ _ k.post l.post h4 in
    let (reason, h6) = str-split f.reason g.reason _ _ k.reason l.reason h5 in
    let h7 =
      append-nil (write_date f.removed_at) ∙ (h6 ∙ sym (append-nil (write_date g.removed_at))) in
    record {
      origin = origin;
      post = post;
      reason = reason;
      day = (date-split _ _ [] [] k.day l.day h7).0;
    }

pub record PostFits (f : PostEventFields) : Type 0 where
  pub board : Fits (length (utf8 f.board_id))
  pub thread : Fits (length f.thread_id)
  pub thread_origin : Fits (length f.thread_origin_server_id)
  pub title : Fits (length (utf8 f.thread_title))
  pub origin : Fits (length f.origin_server_id)
  pub post : Fits (length f.origin_post_id)
  pub body : Fits (length (utf8 f.body))
  pub day : Fits f.created_at
  pub author : FitsOption f.author_pubkey
  pub signed : FitsOption f.author_signature

pub record SamePost (f g : PostEventFields) : Type 0 where
  pub board : utf8 f.board_id ≡ utf8 g.board_id
  pub thread : f.thread_id ≡ g.thread_id
  pub thread_origin : f.thread_origin_server_id ≡ g.thread_origin_server_id
  pub title : utf8 f.thread_title ≡ utf8 g.thread_title
  pub origin : f.origin_server_id ≡ g.origin_server_id
  pub post : f.origin_post_id ≡ g.origin_post_id
  pub body : utf8 f.body ≡ utf8 g.body
  pub day : f.created_at ≡ g.created_at
  pub author : f.author_pubkey ≡ g.author_pubkey
  pub signed : f.author_signature ≡ g.author_signature

-- Two posts with the same signed bytes agree in every field, texts as their UTF-8 bytes, where lengths and days
-- fit in four bytes.
pub canonical_post_payload-injective :
    (f g : PostEventFields)
    → PostFits f
    → PostFits g
    → canonical_post_payload f ≡ canonical_post_payload g
    → SamePost f g
unfolding canonical_post_payload
canonical_post_payload-injective f g k l h =
    let h1 = append-same post_event_domain _ _ h in
    let h2 = append-same (write_str protocol_version) _ _ h1 in
    let h3 = append-same (write_str version) _ _ h2 in
    let (board, h4) = str-split f.board_id g.board_id _ _ k.board l.board h3 in
    let (thread, h5) = bytes-split _ _ _ _ k.thread l.thread h4 in
    let (thread_origin, h6) = bytes-split _ _ _ _ k.thread_origin l.thread_origin h5 in
    let (title, h7) = str-split f.thread_title g.thread_title _ _ k.title l.title h6 in
    let (origin, h8) = bytes-split _ _ _ _ k.origin l.origin h7 in
    let (post, h9) = bytes-split _ _ _ _ k.post l.post h8 in
    let (body, h10) = str-split f.body g.body _ _ k.body l.body h9 in
    let (day, h11) = date-split _ _ _ _ k.day l.day h10 in
    let (author, h12) = option-split _ _ _ _ k.author l.author h11 in
    let h13 =
      append-nil (write_opt_bytes f.author_signature)
      ∙ (h12 ∙ sym (append-nil (write_opt_bytes g.author_signature))) in
    record {
      board = board;
      thread = thread;
      thread_origin = thread_origin;
      title = title;
      origin = origin;
      post = post;
      body = body;
      day = day;
      author = author;
      signed = (option-split _ _ [] [] k.signed l.signed h13).0;
    }

-- The signed bytes of a post are never those of a removal.
pub payloads-apart :
    (f : PostEventFields) (g : RemovalEventFields)
    → canonical_post_payload f ≢ canonical_removal_payload g
unfolding canonical_post_payload canonical_removal_payload same take
payloads-apart f g h =
    let e : true ≡ false = ap (λ bs. same (take 11 bs) (codes "lethe-fed-p")) h in
    absurd (ground arith)

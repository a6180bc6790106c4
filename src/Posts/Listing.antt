-- ===== src/Posts/Listing.antt =====
-- `list_in_thread` of crates/lethe-server/src/db/posts.rs.
pub mod Hidden
use lethe_project.Prelude.{
  ℕ, Bool, true, false, not, ◌&&◌, Option, none, some, List, [], ◌∷◌, Bytes, Text, same, ltb, take,
  map_option, is_some, if◌then◌else◌,
}
use lethe_project.Table.{select, first, order_by}
use lethe_project.Error.{Result, ok, err, DbError, ◌>>=◌}
use lethe_project.Paging.{ℤ, pos, ltz}
use lethe_project.Env.{Env}
use lethe_project.Db.{Db, Date, Post, Peer, Removal}
use lethe_project.Threads
use lethe_project.Posts.Queries.{holds, in_thread, is_removal, tombstone_body, signer_first_seq}
use lethe_project.Posts.Requests.{VouchPayload}

pub record PostView : Type 0 where
  pub post_id : Text
  pub seq : ℕ
  pub body : Text
  pub created_at : Date
  pub pubkey : Option Text
  pub signer_first_seq : Option ℕ
  pub origin_server_id : Option Text
  pub origin_server_label : Option Text
  pub vouch : Option VouchPayload

-- What a post is shown with where it is removed
abbrev pub unless_removed {ℓ} : {A : Type ℓ} → Option Text → Option A → Option A
unless_removed none v = v
unless_removed (some reason) v = none

abbrev pub shown_body : Option Text → Text → Text
shown_body none body = body
shown_body (some reason) body = tombstone_body reason

unfoldable pub and_then {ℓ κ} : {A : Type ℓ} {B : Type κ} → (A → Option B) → Option A → Option B
and_then f none = none
and_then f (some a) = f a

module _ (env : Env)
    -- `serde_json::from_str`
    (parse_vouch : Text → Option VouchPayload) where
  unfoldable pub removal_reason : Db → Post → Option Text
  unfolding is_removal
  removal_reason s p =
      map_option (λ (r : Removal). r.reason) (first (is_removal p.id) s.post_removals)

  unfoldable pub peer_label : Db → Post → Option Text
  unfolding and_then holds
  peer_label s p =
      and_then (λ (q : Peer). q.label)
        (first (λ (q : Peer). holds p.origin_server_id q.server_pubkey) s.federation_peers)

  unfoldable pub first_seq : Bytes → Option Bytes → Db → Result DbError (Option ℕ)
  unfolding signer_first_seq
  first_seq thread_id none s = ok none
  first_seq thread_id (some pk) s = (signer_first_seq thread_id pk s).0

  -- `local`: a post without an origin counts as the server's own.
  unfoldable pub is_own : Bytes → Post → Bool
  is_own self_pubkey p = elim (p.origin_server_id) [ none ↦ true | some o ↦ same o self_pubkey ]

  unfoldable pub view_of : Bytes → Db → Post → Option ℕ → PostView
  unfolding removal_reason peer_label is_own tombstone_body and_then
  view_of self_pubkey s p signer_first_seq =
      let reason = removal_reason s p in
      let is_local = is_own self_pubkey p in
      record {
        post_id = env.b64 p.id;
        seq = p.seq;
        body = shown_body reason p.body;
        created_at = p.created_at;
        pubkey = map_option env.b64 (unless_removed reason p.pubkey);
        signer_first_seq = signer_first_seq;
        origin_server_id = if is_local then none else map_option env.b64 p.origin_server_id;
        origin_server_label = if is_local then none else peer_label s p;
        vouch = unless_removed reason (and_then parse_vouch p.vouch);
      }

  unfoldable pub post_view : Bytes → Bytes → Db → Post → Result DbError PostView
  unfolding view_of first_seq removal_reason
  post_view thread_id self_pubkey s p = do
    first_seq ← first_seq thread_id (unless_removed (removal_reason s p) p.pubkey) s
    ok (view_of self_pubkey s p first_seq)

  unfoldable pub post_views : Bytes → Bytes → Db → List Post → Result DbError (List PostView)
  unfolding post_view
  post_views thread_id self_pubkey s [] = ok []
  post_views thread_id self_pubkey s (p ∷ ps) = do
    v ← post_view thread_id self_pubkey s p
    vs ← post_views thread_id self_pubkey s ps
    ok (v ∷ vs)

  -- WHERE p.thread_id = $1 AND p.seq > $2 ORDER BY p.seq LIMIT $3
  unfoldable pub rows_in_thread : Bytes → ℤ → ℕ → List Post → List Post
  unfolding in_thread ltz
  rows_in_thread thread_id since_seq limit posts = take limit (
      order_by (λ (p q : Post). ltb p.seq q.seq)
        (select (λ (p : Post). in_thread thread_id p && ltz since_seq (pos p.seq)) posts))

  unfoldable pub list_in_thread : Bytes → Bytes → ℤ → ℕ → Db → Result DbError (List PostView)
  unfolding post_views rows_in_thread
  list_in_thread thread_id self_pubkey since_seq limit s =
      post_views thread_id self_pubkey s (rows_in_thread thread_id since_seq limit s.posts)

-- ===== src/Federation/Pull/Isolation/Frame.antt =====
-- What the statements of crates/lethe-server/src/db that a pulled event runs leave alone.
use lethe_project.Prelude.{
  ℕ, ◌≡◌, refl, ◌∙◌, if◌then◌else◌, Bool, true, false, Bool-cases, inl, inr, none, List, Bytes,
  same,
}
use lethe_project.Table.{select, any}
use lethe_project.Table.Rows.{select-append_old, any-append_old}
use lethe_project.Federation.Pull.Isolation.Owned.{IsPostOf, IsPostOf-append, other_id}
use lethe_project.Error.{ok}
use lethe_project.Db.{Db, Board, Thread, ModerationAction, Post, Peer, Removal}
use lethe_project.Threads
use lethe_project.Posts.Queries.{holds, has_origin, is_post, is_removal}
use lethe_project.Posts.Federated.{FederatedPost, insert_federated, federated_row}
use lethe_project.PostRemovals

-- The posts that a server originated
unfoldable pub posts_of : Bytes → Db → List Post
unfolding holds
posts_of origin s = select (λ (p : Post). holds p.origin_server_id origin) s.posts

-- The tombstones that a server signed, as another server stores them. The tombstone of an own deletion has no origin.
unfoldable pub removals_of : Bytes → Db → List Removal
unfolding holds
removals_of origin s = select (λ (r : Removal). holds r.origin_server_id origin) s.post_removals

-- The posts of `origin`, its tombstones, and the tables that federation does not read
pub record Spares (origin : Bytes) (s s' : Db) : Type 0 where
  pub posts : posts_of origin s' ≡ posts_of origin s
  pub removals : removals_of origin s' ≡ removals_of origin s
  -- A post of `origin` is still one, and removed where it was before, whoever signed its tombstone.
  pub hidden :
      (id : Bytes)
      → IsPostOf origin id s.posts
      → IsPostOf origin id s'.posts
        × (any (is_removal id) s'.post_removals ≡ any (is_removal id) s.post_removals)
  pub rooms : s'.rooms ≡ s.rooms
  pub members : s'.room_members ≡ s.room_members
  pub messages : s'.room_messages ≡ s.room_messages
  pub rosters : s'.room_rosters ≡ s.room_rosters
  pub nonces : s'.request_nonces ≡ s.request_nonces
  pub tokens : s'.admin_tokens ≡ s.admin_tokens
  pub identity : s'.instance_identity ≡ s.instance_identity

pub Spares-refl : (o : Bytes) (s : Db) → Spares o s s
Spares-refl o s = record {
  posts = refl;
  removals = refl;
  hidden = λ id k. (k, refl);
  rooms = refl;
  members = refl;
  messages = refl;
  rosters = refl;
  nonces = refl;
  tokens = refl;
  identity = refl;
}

pub Spares-trans : (o : Bytes) (s t u : Db) → Spares o s t → Spares o t u → Spares o s u
Spares-trans o s t u h k = record {
  posts = k.posts ∙ h.posts;
  removals = k.removals ∙ h.removals;
  hidden = λ id a.
      (let (b, same_before) = h.hidden id a in
        let (c, same_after) = k.hidden id b in (c, same_after ∙ same_before));
  rooms = k.rooms ∙ h.rooms;
  members = k.members ∙ h.members;
  messages = k.messages ∙ h.messages;
  rosters = k.rosters ∙ h.rosters;
  nonces = k.nonces ∙ h.nonces;
  tokens = k.tokens ∙ h.tokens;
  identity = k.identity ∙ h.identity;
}

-- `Spares` of the state that stands beside a result
pub record SparesIn {A : Type 0} (o : Bytes) (s : Db) (x : A × Db) : Type 0 where
  pub state : Spares o s x.1

pub same_state : {A : Type 0} (o : Bytes) (s : Db) (a : A) → SparesIn o s (a, s)
same_state o s a = record { state = Spares-refl o s }

pub if-SparesIn :
    {A : Type 0} (o : Bytes) (s : Db) (b : Bool) (x y : A × Db)
    → SparesIn o s x
    → SparesIn o s y
    → SparesIn o s (if b then x else y)
if-SparesIn o s true x y h k = h
if-SparesIn o s false x y h k = k

-- A change of the other public tables, of the log and of the peers
pub other_tables :
    {A : Type 0} (o : Bytes) (s : Db) (a : A) (ts : List Thread) (ms : List ModerationAction)
    (ps : List Peer)
    → SparesIn o s (a, record s { threads = ts; moderation_actions = ms; federation_peers = ps })
unfolding posts_of removals_of
other_tables o s a ts ms ps = record {
  state = record {
    posts = refl;
    removals = refl;
    hidden = λ id k. (k, refl);
    rooms = refl;
    members = refl;
    messages = refl;
    rosters = refl;
    nonces = refl;
    tokens = refl;
    identity = refl;
  };
}

pub ensure-SparesIn :
    (o id board_id title : Bytes) (created_at : ℕ) (origin : Bytes) (today : ℕ) (s : Db)
    → SparesIn o s (Threads.ensure_for_federation id board_id title created_at origin today s)
unfolding Threads.ensure_for_federation Threads.create
ensure-SparesIn o id board_id title created_at origin today s =
    elim (Bool-cases (any (Threads.is_thread id) s.threads)) [
      | inl t ↦ rw t (same_state o s (ok tt))
      | inr t ↦ elim (Bool-cases (any (λ (b : Board). same b.id board_id) s.boards)) [
        | inl u ↦ rw (t, u) (other_tables o s (ok tt) _ s.moderation_actions s.federation_peers)
        | inr u ↦ rw (t, u) (same_state o s _)
      ]
    ]

pub insert_federated-SparesIn :
    (o local_id : Bytes) (p : FederatedPost) (s : Db)
    → same p.origin_server_id o ≡ false
    → SparesIn o s (insert_federated local_id p s)
unfolding insert_federated posts_of removals_of holds federated_row is_post
insert_federated-SparesIn o local_id p s h =
    elim (Bool-cases (any (has_origin p.origin_server_id p.origin_post_id) s.posts)) [
      | inl t ↦ rw t (same_state o s (ok none))
      | inr t ↦ elim (Bool-cases (any (is_post local_id) s.posts)) [
        | inl u ↦ rw (t, u) (same_state o s _)
        | inr u ↦ elim (Bool-cases (any (Threads.is_thread p.thread_id) s.threads)) [
          | inl v ↦
              rw (t, u, v)
                (record {
                  state = record {
                    posts = select-append_old _ s.posts _ h;
                    removals = refl;
                    hidden = λ id k. (
                      IsPostOf-append o id s.posts _ (other_id o id local_id s.posts k u) k,
                      refl,
                    );
                    rooms = refl;
                    members = refl;
                    messages = refl;
                    rosters = refl;
                    nonces = refl;
                    tokens = refl;
                    identity = refl;
                  };
                })
          | inr v ↦ rw (t, u, v) (same_state o s _)
        ]
      ]
    ]

pub insert_removal-SparesIn :
    (o : Bytes) (r : Removal) (s : Db)
    → holds r.origin_server_id o ≡ false
    → ((id : Bytes) → IsPostOf o id s.posts → same r.post_id id ≡ false)
    → SparesIn o s (PostRemovals.insert r s)
unfolding PostRemovals.insert posts_of removals_of is_removal
insert_removal-SparesIn o r s h k = elim (Bool-cases (any (is_removal r.post_id) s.post_removals)) [
  | inl t ↦ rw t (same_state o s (ok false))
  | inr t ↦ elim (Bool-cases (any (is_post r.post_id) s.posts)) [
    | inl u ↦
        rw (t, u)
          (record {
            state = record {
              posts = refl;
              removals = select-append_old _ s.post_removals _ h;
              hidden = λ id a. (a, any-append_old (is_removal id) s.post_removals r (k id a));
              rooms = refl;
              members = refl;
              messages = refl;
              rosters = refl;
              nonces = refl;
              tokens = refl;
              identity = refl;
            };
          })
    | inr u ↦ rw (t, u) (same_state o s _)
  ]
]

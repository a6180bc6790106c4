-- ===== src/Federation/Pull/Replicate.antt =====
-- A post on its way from one server to another: `build_post_event` of crates/lethe-server/src/federation/events.rs on
-- the one, `apply_post_event` of crates/lethe-server/src/federation/pull.rs on the other.
use lethe_project.Prelude.{
  ℕ, ◌+◌, ◌≡◌, refl, ap, true, false, Option, none, some, [], ◌∷◌, ◌++◌, Bytes, length, same,
  Bool-cases, inl, inr, same_refl, ◌∙◌,
}
use lethe_project.Table.{any, update}
use lethe_project.Table.Rows.{any-append, any-update}
use lethe_project.Error.{ok}
use lethe_project.Env.{Env, Clock}
use lethe_project.Db.{Db, Date, Board, Post}
use lethe_project.Moderation.{Judge, allow, evaluate}
use lethe_project.Threads
use lethe_project.Threads.{is_thread, thread_row}
use lethe_project.Posts.Queries.{has_origin, is_post, max_seq, bump_thread}
use lethe_project.Posts.Federated.{FederatedPost, insert_federated, federated_row}
use lethe_project.Federation.Wire.{PostEventFields}
use lethe_project.Federation.Events.{Identity, Calendar, build_post_event}
use lethe_project.Federation.Events.RoundTrip.{IsSized, verify-build_post}
use lethe_project.Federation.Pull.Ingest.{
  apply_post_event, admit_post, store_post, store_in_thread, federated_post, admit_judged,
  admit_claimed, base64_decode_32, is_author_valid,
}

-- The database has room for the post: its board, a fresh id for it, and no post of its origin and id.
pub record HasRoom (local_id : Bytes) (f : PostEventFields) (s : Db) : Type 0 where
  pub board : any (λ (b : Board). same b.id f.board_id) s.boards ≡ true
  pub fresh : any (is_post local_id) s.posts ≡ false
  pub unknown : any (has_origin f.origin_server_id f.origin_post_id) s.posts ≡ false

record IsStored (local_id : Bytes) (p : FederatedPost) (s t : Db) : Type 0 where
  posts : t.posts ≡ s.posts ++ federated_row local_id (max_seq p.thread_id s.posts + 1) p ∷ []
  thread : any (is_thread p.thread_id) t.threads ≡ true

-- After its arrival: the posts are the earlier ones and then its row, and its thread is there.
pub record HasArrived (local_id : Bytes) (f : PostEventFields) (s t : Db) : Type 0 where
  pub row : Post
  pub posts : t.posts ≡ s.posts ++ row ∷ []
  pub id : row.id ≡ local_id
  pub thread_id : row.thread_id ≡ f.thread_id
  pub seq : row.seq ≡ max_seq f.thread_id s.posts + 1
  pub body : row.body ≡ f.body
  pub pubkey : row.pubkey ≡ f.author_pubkey
  pub signature : row.signature ≡ f.author_signature
  pub created_at : row.created_at ≡ f.created_at
  pub origin_server_id : row.origin_server_id ≡ some f.origin_server_id
  pub origin_post_id : row.origin_post_id ≡ some f.origin_post_id
  pub thread : any (is_thread f.thread_id) t.threads ≡ true

row-is_thread :
    (id board_id title : Bytes) (created_at : Date) (e : Option Date) (origin : Bytes)
    (today : Date)
    → is_thread id (thread_row id board_id title created_at e origin today) ≡ true
unfolding is_thread thread_row
row-is_thread id board_id title created_at e origin today = same_refl id

ensured :
    (id board_id title : Bytes) (created_at : Date) (origin : Bytes) (today : Date) (s : Db)
    → any (λ (b : Board). same b.id board_id) s.boards ≡ true
    → (t : Db) × ((Threads.ensure_for_federation id board_id title created_at origin today s
          ≡ (ok tt, t))
        × ((t.posts ≡ s.posts) × (any (is_thread id) t.threads ≡ true)))
unfolding Threads.ensure_for_federation Threads.create
ensured id board_id title created_at origin today s h =
    elim (Bool-cases (any (is_thread id) s.threads)) [
      | inl t ↦ (s, (rw t refl, (refl, t)))
      | inr t ↦
          let row = thread_row id board_id title created_at none origin today in
          (
            record s { threads = s.threads ++ row ∷ [] },
            (
              rw (t, h) refl,
              (
                refl,
                any-append (is_thread id) s.threads row
                    (row-is_thread id board_id title created_at none origin today),
              ),
            ),
          )
    ]

inserted :
    (local_id : Bytes) (p : FederatedPost) (s : Db)
    → any (has_origin p.origin_server_id p.origin_post_id) s.posts ≡ false
    → any (is_post local_id) s.posts ≡ false
    → any (is_thread p.thread_id) s.threads ≡ true
    → (r : Bytes × ℕ) × ((t : Db) × ((insert_federated local_id p s ≡ (ok (some r), t))
          × IsStored local_id p s t))
unfolding insert_federated
inserted local_id p s h k t =
    let seq = max_seq p.thread_id s.posts + 1 in
    (
      (local_id, seq),
      (
        record s {
          posts = s.posts ++ federated_row local_id seq p ∷ [];
          threads = update (is_thread p.thread_id) (bump_thread p.created_at) s.threads;
        },
        (
          rw (h, k, t) refl,
          record {
            posts = refl;
            thread =
                any-update (is_thread p.thread_id) (is_thread p.thread_id)
                  (bump_thread p.created_at) s.threads (λ x. refl)
                ∙ t;
          },
        ),
      ),
    )

module _ (env : Env) (cal : Calendar) (clk : Clock) (judge : Judge) where
  stored :
      (local_id : Bytes) (f : PostEventFields) (s t : Db)
      → HasRoom local_id f s
      → t.posts ≡ s.posts
      → any (is_thread f.thread_id) t.threads ≡ true
      → ((store_in_thread env cal clk judge local_id f (ok tt, t)).0 ≡ ok true)
        × IsStored local_id
            (federated_post env cal clk judge f)
            s
            (store_in_thread env cal clk judge local_id f (ok tt, t)).1
  unfolding store_in_thread
  stored local_id f s t room e h =
      let p = federated_post env cal clk judge f in
      let (r, (u, (k, a))) =
        inserted local_id p t
          (ap (any (has_origin f.origin_server_id f.origin_post_id)) e ∙ room.unknown)
          (ap (any (is_post local_id)) e ∙ room.fresh) h in
      rw k (
        refl,
        record {
          posts =
              a.posts
              ∙ ap (λ ps. ps ++ federated_row local_id (max_seq f.thread_id ps + 1) p ∷ []) e;
          thread = a.thread;
        },
      )

  admitted :
      (local_id action_id : Bytes) (f : PostEventFields) (s : Db)
      → is_author_valid env cal clk judge f.thread_id f.body f.author_pubkey f.author_signature
        ≡ true
      → evaluate judge clk.now_ts f.board_id f.body s ≡ allow
      → HasRoom local_id f s
      → ((admit_post env cal clk judge local_id action_id f s).0 ≡ ok true)
        × IsStored local_id
            (federated_post env cal clk judge f)
            s
            (admit_post env cal clk judge local_id action_id f s).1
  unfolding admit_post admit_judged store_post
  admitted local_id action_id f s a v room =
      let (t, (e, (posts, thread))) =
        ensured f.thread_id f.board_id f.thread_title f.created_at f.thread_origin_server_id
          clk.today s room.board in
      rw (a, v, e) (stored local_id f s t room posts thread)

  arrived :
      (local_id : Bytes) (f : PostEventFields) (s t : Db)
      → IsStored local_id (federated_post env cal clk judge f) s t
      → HasArrived local_id f s t
  unfolding federated_row
  arrived local_id f s t h = record {
    row =
        federated_row local_id (max_seq f.thread_id s.posts + 1)
          (federated_post env cal clk judge f);
    posts = h.posts;
    id = refl;
    thread_id = refl;
    seq = refl;
    body = refl;
    pubkey = refl;
    signature = refl;
    created_at = refl;
    origin_server_id = refl;
    origin_post_id = refl;
    thread = h.thread;
  }

  module _ (identity : Identity)
      -- base64 reads back what it wrote, and so does the date format
      (b64_read : (b : Bytes) → env.unb64 (env.b64 b) ≡ some b)
      (date_read : (d : Date) → cal.parse_date (cal.format_date d) ≡ some d)
      -- the key pair signs for its public key
      (is_key : env.is_key identity.pubkey ≡ true)
      (signs : (m : Bytes) → env.verify_strict identity.pubkey (identity.sign m) m ≡ true)
      (sized : (m : Bytes) → length (identity.sign m) ≡ 64) where
    origin-read :
        (f : PostEventFields)
        → f.origin_server_id ≡ identity.pubkey
        → IsSized f
        → base64_decode_32 env cal clk judge (build_post_event env cal identity f).origin_server_id
          ≡ ok identity.pubkey
    unfolding base64_decode_32 build_post_event
    origin-read f h k = rw (base64_decode_32, b64_read f.origin_server_id, k.origin, h) refl

    -- The event that a server builds for a post of its own is accepted by another server that expects its key, whose
    -- moderation allows the post and which has its board and not yet the post, where the ids, keys and signatures
    -- have their lengths and the author's signature, if any, verifies. There the post is then the last one, with the
    -- body, the author's key and signature, the day and the origin that it had, and the next number of its thread,
    -- and the thread is there.
    pub apply-build_post :
        (f : PostEventFields) (local_id action_id self : Bytes) (s : Db)
        → f.origin_server_id ≡ identity.pubkey
        → IsSized f
        → same identity.pubkey self ≡ false
        → is_author_valid env cal clk judge f.thread_id f.body f.author_pubkey f.author_signature
          ≡ true
        → evaluate judge clk.now_ts f.board_id f.body s ≡ allow
        → HasRoom local_id f s
        → ((apply_post_event env cal clk judge local_id action_id
              (build_post_event env cal identity f)
              identity.pubkey
              self
              s).0
            ≡ ok true)
          × HasArrived local_id f s
              (apply_post_event env cal clk judge local_id action_id
                (build_post_event env cal identity f)
                identity.pubkey
                self
                s).1
    unfolding apply_post_event admit_claimed
    apply-build_post f local_id action_id self s h k other a v room =
        rw
          (
            origin-read f h k,
            other,
            verify-build_post env cal identity b64_read date_read is_key signs sized f h k,
          )
          (let (accepted, stored) = admitted local_id action_id f s a v room in
            (accepted, arrived local_id f s _ stored))

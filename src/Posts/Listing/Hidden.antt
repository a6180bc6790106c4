-- ===== src/Posts/Listing/Hidden.antt =====
-- A removed post is shown as its tombstone: `insert` of crates/lethe-server/src/db/post_removals.rs
-- and `list_in_thread` of crates/lethe-server/src/db/posts.rs.
use lethe_project.Prelude.{
  ◌≡◌, refl, subst, true, false, Bool-cases, inl, inr, Option, none, some, List, [], ◌∷◌, ◌++◌,
  Bytes, Text, same, same-eq, arith,
}
use lethe_project.Table.{first, any}
use lethe_project.Error.{ok}
use lethe_project.Env.{Env}
use lethe_project.Db.{Db, Post, Removal}
use lethe_project.PostRemovals
use lethe_project.Posts.Queries.{is_removal, is_post, tombstone_body}
use lethe_project.Posts.Requests.{VouchPayload}
use lethe_project.Posts.Listing.{PostView, removal_reason, post_view, view_of, first_seq}

first-appended :
    (id : Bytes) (rs : List Removal) (r : Removal)
    → any (is_removal id) rs ≡ false
    → same r.post_id id ≡ true
    → first (is_removal id) (rs ++ r ∷ []) ≡ some r
unfolding first any is_removal
first-appended id [] r h k = rw k refl
first-appended id (q ∷ qs) r h k = ground (arith, first-appended id qs r)

inserted-rows :
    (r : Removal) (s s' : Db)
    → PostRemovals.insert r s ≡ (ok true, s')
    → (any (is_removal r.post_id) s.post_removals ≡ false)
      × (s'.post_removals ≡ s.post_removals ++ r ∷ [])
unfolding PostRemovals.insert
inserted-rows r s s' h = elim (Bool-cases (any (is_removal r.post_id) s.post_removals)) [
  | inl t ↦ absurd (ground arith)
  | inr t ↦ elim (Bool-cases (any (is_post r.post_id) s.posts)) [
    | inl u ↦ (t, ground arith)
    | inr u ↦ absurd (ground arith)
  ]
]

module _ (env : Env) (parse_vouch : Text → Option VouchPayload) where
  -- The body, the key and the vouch of a view, and the first number of its author
  pub record IsTombstone (reason : Text) (v : PostView) : Type 0 where
    pub body : v.body ≡ tombstone_body reason
    pub pubkey : v.pubkey ≡ none
    pub signer : v.signer_first_seq ≡ none
    pub vouch : v.vouch ≡ none

  removed-view :
      (thread_id self : Bytes) (s : Db) (p : Post) (reason : Text)
      → removal_reason env parse_vouch s p ≡ some reason
      → post_view env parse_vouch thread_id self s p ≡ ok (view_of env parse_vouch self s p none)
  unfolding post_view first_seq
  removed-view thread_id self s p reason h = rw (post_view, h) refl

  view-IsTombstone :
      (self : Bytes) (s : Db) (p : Post) (reason : Text)
      → removal_reason env parse_vouch s p ≡ some reason
      → IsTombstone reason (view_of env parse_vouch self s p none)
  unfolding view_of
  view-IsTombstone self s p reason h = record {
    body = rw (view_of, h) refl;
    pubkey = rw (view_of, h) refl;
    signer = refl;
    vouch = rw (view_of, h) refl;
  }

  insert-reason :
      (r : Removal) (s s' : Db) (p : Post)
      → PostRemovals.insert r s ≡ (ok true, s')
      → same r.post_id p.id ≡ true
      → removal_reason env parse_vouch s' p ≡ some r.reason
  unfolding removal_reason
  insert-reason r s s' p h k =
      let (f, e) = inserted-rows r s s' h in
      let id = same-eq r.post_id p.id k in
      let found =
        first-appended p.id s.post_removals r
          (subst (λ i. any (is_removal i) s.post_removals ≡ false) id f) k in
      rw (e, found) refl

  -- After a removal is inserted, the view of its post has the tombstone of the reason as its body, and no key, no
  -- first number of its author and no vouch.
  pub insert-IsTombstone :
      (r : Removal) (s s' : Db) (p : Post) (thread_id self : Bytes)
      → PostRemovals.insert r s ≡ (ok true, s')
      → same r.post_id p.id ≡ true
      → (v : PostView) × ((post_view env parse_vouch thread_id self s' p ≡ ok v)
          × IsTombstone r.reason v)
  insert-IsTombstone r s s' p thread_id self h k =
      let e = insert-reason r s s' p h k in
      (
        view_of env parse_vouch self s' p none,
        (removed-view thread_id self s' p r.reason e, view-IsTombstone self s' p r.reason e),
      )

-- ===== src/Federation/Pull/Isolation/Owned.antt =====
-- The posts with an id, where they are all of one server: crates/lethe-server/src/db/posts.rs and
-- `local_id_for_origin` of db/post_removals.rs.
use lethe_project.Prelude.{
  ◌≡◌, subst, ap, true, false, Bool-cases, inl, inr, Option, none, some, List, [], ◌∷◌, ◌++◌, Bytes,
  same, same-eq, All, All-append, map_option-some, arith,
}
use lethe_project.Table.{any, first}
use lethe_project.Table.Rows.{any-append_mono, first-eq-some}
use lethe_project.Table.Every.{All-first}
use lethe_project.Db.{Db, Post}
use lethe_project.Posts.Queries.{holds, has_origin, is_post}
use lethe_project.Federation.Peers.{local_id_for_origin}

-- There is a post with the id, and every post with it was originated by the server.
pub record IsPostOf (origin id : Bytes) (ps : List Post) : Type 0 where
  pub stored : any (is_post id) ps ≡ true
  pub owned : All (λ p. is_post id p ≡ true → holds p.origin_server_id origin ≡ true) ps

pub other_id :
    (origin id fresh : Bytes) (ps : List Post)
    → IsPostOf origin id ps
    → any (is_post fresh) ps ≡ false
    → same fresh id ≡ false
other_id origin id fresh ps h k = elim (Bool-cases (same fresh id)) [
  | inl t ↦ ground (arith, h.stored, ap (λ x. any (is_post x) ps) (same-eq fresh id t))
  | inr f ↦ f
]

pub IsPostOf-append :
    (origin id : Bytes) (ps : List Post) (row : Post)
    → is_post id row ≡ false
    → IsPostOf origin id ps
    → IsPostOf origin id (ps ++ row ∷ [])
IsPostOf-append origin id ps row h k = record {
  stored = any-append_mono (is_post id) ps row k.stored;
  owned =
      All-append (λ p. is_post id p ≡ true → holds p.origin_server_id origin ≡ true) ps (row ∷ [])
        k.owned ((λ t. ground (arith, h)), tt);
}

holds-same :
    (c : Option Bytes) (a b : Bytes) → holds c a ≡ true → holds c b ≡ true → same a b ≡ true
unfolding holds
holds-same none a b h k = ground arith
holds-same (some c) a b h k = subst (λ x. same x b ≡ true) (same-eq c a h) k

row-other :
    (origin other post_id id : Bytes) (p : Post)
    → same other origin ≡ false
    → has_origin other post_id p ≡ true
    → (is_post id p ≡ true → holds p.origin_server_id origin ≡ true)
    → same p.id id ≡ false
unfolding has_origin is_post
row-other origin other post_id id p d h k = elim (Bool-cases (same p.id id)) [
  | inl t ↦ ground (arith, holds-same p.origin_server_id other origin (ground (arith, h)) (k t))
  | inr f ↦ f
]

-- What is found under the origin of one server is no post of another.
pub local_id-other :
    (origin other post_id id found : Bytes) (s : Db)
    → same other origin ≡ false
    → IsPostOf origin id s.posts
    → local_id_for_origin other post_id s ≡ some found
    → same found id ≡ false
unfolding local_id_for_origin
local_id-other origin other post_id id found s d h e =
    let (p, found_row, id_found) =
      map_option-some (λ (p : Post). p.id) (first (has_origin other post_id) s.posts) found e in
    subst (λ x. same x id ≡ false) id_found
      (row-other origin other post_id id p d
        (first-eq-some (has_origin other post_id) s.posts p found_row)
        (All-first (λ q. is_post id q ≡ true → holds q.origin_server_id origin ≡ true)
          (has_origin other post_id) s.posts p found_row h.owned))

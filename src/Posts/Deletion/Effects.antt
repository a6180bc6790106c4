-- ===== src/Posts/Deletion/Effects.antt =====
-- What a `delete_post` that succeeds has checked and leaves behind.
use lethe_project.Prelude.{
  ℕ, ◌≡◌, refl, true, false, some, none, Option, List, [], ◌∷◌, Bytes, Text, arith, codes, same,
  same-eq, map_option, map_option-some, ap, inl, inr, Bool-cases, ◌∙◌,
}
use lethe_project.Action.{Action, ◌>>=◌}
use lethe_project.Table.{any, first, update}
use lethe_project.Error.{ok}
use lethe_project.Env.{Env, Clock}
use lethe_project.Db.{Db, Post}
use lethe_project.Checks.{decode, decode_sig, check_window, checked, check_nonce, statement}
use lethe_project.Crypto.{verify_post_delete}
use lethe_project.Nonces.{record_nonce}
use lethe_project.Posts.Requests.{DeletePostReq}
use lethe_project.Posts.Queries.{author_pubkey, author_delete, is_post, scrub, is_removal}
use lethe_project.Posts.Deletion.{delete_post, check_author, delete_authored}

-- The row that a client reads by its id
abbrev pub find : Bytes → Db → Option Post
find id s = first (is_post id) s.posts

first-scrub :
    (id : Bytes) (ps : List Post)
    → first (is_post id) (update (is_post id) scrub ps) ≡ map_option scrub (first (is_post id) ps)
unfolding first update is_post
first-scrub id [] = refl
first-scrub id (p ∷ ps) = ground (arith, first-scrub id ps)

first-scrub_other :
    (id other : Bytes) (ps : List Post)
    → same id other ≡ false
    → first (is_post other) (update (is_post id) scrub ps) ≡ first (is_post other) ps
unfolding first update is_post
first-scrub_other id other [] h = refl
first-scrub_other id other (p ∷ ps) h =
    ground (arith, first-scrub_other id other ps, same-eq p.id id, same-eq p.id other)

-- What `author_delete` leaves where it answers `true`
author_delete_lem :
    (id other reason : Bytes) (now : ℕ) (s s' : Db)
    → author_delete id reason now s ≡ (ok true, s')
    → (find id s' ≡ map_option scrub (find id s))
      × (same id other ≡ false → find other s' ≡ find other s)
      × (any (is_removal id) s.post_removals ≡ false)
unfolding author_delete
author_delete_lem id other reason now s s' h =
    ground (arith, first-scrub id s.posts, first-scrub_other id other s.posts)

check_author-ok :
    (stored : Option (Option Bytes)) (pk : Bytes) (f : Unit {0} → Action Db (Unit {0})) (s s' : Db)
    → (check_author stored pk >>= f) s ≡ (ok tt, s')
    → (stored ≡ some (some pk)) × (f tt s ≡ (ok tt, s'))
unfolding check_author ◌>>=◌
check_author-ok none pk f s s' h = ground arith
check_author-ok (some none) pk f s s' h = ground arith
check_author-ok (some (some a)) pk f s s' h = elim (Bool-cases (same a pk)) [
  | inl t ↦ (ap (λ b. some (some b)) (same-eq a pk t), ground arith)
  | inr e ↦ ground arith
]

delete_authored-ok :
    (clk : Clock) (id pk other : Bytes) (s s' : Db)
    → delete_authored clk id pk s ≡ (ok tt, s')
    → (author_pubkey id s ≡ some (some pk))
      × (any (is_removal id) s.post_removals ≡ false)
      × (find id s' ≡ map_option scrub (find id s))
      × (same id other ≡ false → find other s' ≡ find other s)
unfolding delete_authored statement ◌>>=◌
delete_authored-ok clk id pk other s s' h =
    let (a, b) = check_author-ok (author_pubkey id s) pk _ s s' h in
    let (p, q, r) =
      author_delete_lem id other (codes "deleted by author") clk.today s s' (ground arith) in
    (a, r, p, q)

-- A row as its author withdrew it
pub record IsScrubbed (p r : Post) : Type 0 where
  pub body : r.body ≡ []
  pub pubkey : r.pubkey ≡ none
  pub signature : r.signature ≡ none
  pub vouch : r.vouch ≡ none
  pub vouch_room_id : r.vouch_room_id ≡ none
  pub pow_nonce : r.pow_nonce ≡ []
  pub id : r.id ≡ p.id
  pub thread_id : r.thread_id ≡ p.thread_id
  pub seq : r.seq ≡ p.seq
  pub created_at : r.created_at ≡ p.created_at

withdrawn :
    (id pk : Bytes) (s s' : Db)
    → author_pubkey id s ≡ some (some pk)
    → find id s' ≡ map_option scrub (find id s)
    → (p : Post) × (r : Post) × (find id s ≡ some p)
      × (p.pubkey ≡ some pk)
      × (find id s' ≡ some r)
      × IsScrubbed p r
unfolding author_pubkey
withdrawn id pk s s' h e =
    let (p, found, key) = map_option-some (λ (p : Post). p.pubkey) (find id s) (some pk) h in
    (
      p,
      scrub p,
      found,
      key,
      e ∙ ap (map_option scrub) found,
      record {
        body = refl;
        pubkey = refl;
        signature = refl;
        vouch = refl;
        vouch_room_id = refl;
        pow_nonce = refl;
        id = refl;
        thread_id = refl;
        seq = refl;
        created_at = refl;
      },
    )

module _ (env : Env) (clk : Clock) (post : Text) (req : DeletePostReq) where
  delete_post-ok :
      (id pk sig other : Bytes) (s s' : Db)
      → env.unb64 post ≡ some id
      → env.unb64 req.pubkey ≡ some pk
      → env.unb64 req.sig ≡ some sig
      → same id other ≡ false
      → delete_post env clk post req s ≡ (ok tt, s')
      → (verify_post_delete env pk sig id req.ts ≡ ok tt)
        × (author_pubkey id s ≡ some (some pk))
        × (any (is_removal id) s.post_removals ≡ false)
        × (find id s' ≡ map_option scrub (find id s))
        × (find other s' ≡ find other s)
  unfolding delete_post decode decode_sig check_window checked check_nonce ◌>>=◌ record_nonce
      author_pubkey
  delete_post-ok id pk sig other s s' h1 h2 h3 d h = ground (
    arith,
    delete_authored-ok clk id pk other (record_nonce clk.now_ts (codes "postdel") pk req.ts s).1 s',
  )

  -- Where `delete_post` succeeds, the request is signed by the key that the post was stored with and the post had
  -- not been removed before. Its row is there with no body, key, signature, vouch and proof of work and with the id,
  -- thread, number and day that it had, and every other post is as before.
  pub delete_post_scrubs :
      (id pk sig other : Bytes) (s s' : Db)
      → env.unb64 post ≡ some id
      → env.unb64 req.pubkey ≡ some pk
      → env.unb64 req.sig ≡ some sig
      → same id other ≡ false
      → delete_post env clk post req s ≡ (ok tt, s')
      → (verify_post_delete env pk sig id req.ts ≡ ok tt)
        × (any (is_removal id) s.post_removals ≡ false)
        × ((p : Post) × (r : Post) × (find id s ≡ some p)
            × (p.pubkey ≡ some pk)
            × (find id s' ≡ some r)
            × IsScrubbed p r)
        × (find other s' ≡ find other s)
  delete_post_scrubs id pk sig other s s' h1 h2 h3 d h =
      let (signed, author, first_time, row, rest) =
        delete_post-ok id pk sig other s s' h1 h2 h3 d h in
      (signed, first_time, withdrawn id pk s s' author row, rest)

-- ===== src/Federation/Stream/Follow.antt =====
-- A peer that follows `next_post_cursor` of the handler `events`
-- (crates/lethe-server/src/federation/route.rs) until it gets none.
pub mod Rows
use lethe_project.Prelude.{
  ℕ, suc, zero, ◌<◌, ◌≡◌, refl, sym, ap, ◌∙◌, subst, Bool, true, Bool-cases, inl, inr, Option, none,
  some, List, [], ◌∷◌, ◌++◌, map, map-append, All-last, map_option, length, length-drop-le, take,
  drop, take-drop, last, last-cons, All, All-take, All-weaken, Bytes, Text, same, arith, ◌&&◌,
}
use lethe_project.Table.{select, first, any}
use lethe_project.Table.Every.{All-select, All-select_where, All-select_test, All-order_by}
use lethe_project.Error.{Result, ok, err, AppError, bad_request, ◌>>=◌}
use lethe_project.Env.{Env}
use lethe_project.Db.{Db, Post, Thread}
use lethe_project.Threads.{is_thread}
use lethe_project.Paging.{ℤ, pos, earlier, in_order, page}
use lethe_project.Paging.Keys.{earlier-IsOrder}
use lethe_project.Paging.Walk.{left, row_before, page-left, left-all, length-left-le}
use lethe_project.Paging.Walk.Next.{page-next}
use lethe_project.Paging.Walk.Order.{AreDistinct, AreDistinct-select, length-select-le}
use lethe_project.Federation.Wire.{PostEvent, EventsResponse}
use lethe_project.Federation.Events.{Identity, Calendar, build_post_event}
use lethe_project.Federation.Cursor.{encode_cursor, parse_cursor}
use lethe_project.Federation.Cursor.RoundTrip.{parse-encode_cursor}
use lethe_project.Federation.Stream.Complete.{AreIdsDistinct, ids-AreDistinct}
use lethe_project.Federation.Stream.{
  PostStreamRow, events, events_page_limit, is_outgoing, post_key, outgoing_page, stream_rows,
  stream_row, list_outgoing_posts, query_cursor, rows_or_fail, respond, list_outgoing_removals,
}
use lethe_project.Federation.Stream.Follow.Rows.{
  Matching, end, pair, Matching-last, any-first, IsServed, Ready, rows-Matching,
}

module _ (env : Env) (cal : Calendar) (is_day : ℤ → Bool) where
  -- With at most so many requests; `none` is an error, or a peer that never stops.
  unfoldable pub follow_events : Identity → Db → ℕ → Option Text → Option (List PostEvent)
  unfolding events
  follow_events identity s zero cursor = none
  follow_events identity s (suc fuel) cursor =
      elim (events env cal is_day (some identity) cursor none s) [
        | err e ↦ none
        | ok r ↦ elim r.next_post_cursor [
          | none ↦ some r.posts
          | some c ↦ map_option (λ ps. r.posts ++ ps) (follow_events identity s fuel (some c))
        ]
      ]

  query-none : (e : AppError) → query_cursor env cal is_day none e ≡ ok none
  unfolding query_cursor parse_cursor
  query-none e = refl

  query-encode :
      (p : Post) (e : AppError)
      → IsServed env is_day p
      → query_cursor env cal is_day (some (encode_cursor env is_day (pos p.created_at) p.id)) e
        ≡ ok (some (post_key p))
  unfolding query_cursor post_key
  query-encode p e h =
      rw
        (
          query_cursor,
          parse-encode_cursor env is_day p.created_at p.id h.day h.dated h.size h.encoded,
        )
        refl

  module _ (identity : Identity) (s : Db) where
    abbrev outgoing : List Post
    outgoing = select (is_outgoing identity.pubkey s.threads) s.posts

    abbrev answer : List PostStreamRow → EventsResponse
    answer rs =
        respond env cal is_day identity rs
          (list_outgoing_removals identity.pubkey none events_page_limit s)

    events-page :
        (ct : Option Text) (c : Option (ℤ × Bytes)) (ps : List Post) (rs : List PostStreamRow)
        → query_cursor env cal is_day ct (bad_request "since_post cursor") ≡ ok c
        → outgoing_page identity.pubkey c events_page_limit s ≡ ps
        → stream_rows identity.pubkey s.threads ps ≡ ok rs
        → events env cal is_day (some identity) ct none s ≡ ok (answer rs)
    unfolding events list_outgoing_posts rows_or_fail
    events-page ct c ps rs h k m = rw (h, k, m) refl

    answer-ids :
        {ps : List Post} {rs : List PostStreamRow}
        → Matching ps rs
        → map (λ (e : PostEvent). e.origin_post_id) (answer rs).posts
          ≡ map (λ (p : Post). env.b64 p.id) ps
    unfolding respond build_post_event
    answer-ids end = refl
    answer-ids (pair i d m) = rw (i, answer-ids m) refl

    answer-next :
        (rs : List PostStreamRow) (r : PostStreamRow) (x : Post)
        → last rs ≡ some r
        → r.origin_post_id ≡ x.id
        → r.created_at ≡ x.created_at
        → (answer rs).next_post_cursor ≡ some (encode_cursor env is_day (pos x.created_at) x.id)
    unfolding respond
    answer-next rs r x l i d = rw (l, i, d) refl

    follow-end :
        (fuel : ℕ) (ct : Option Text)
        → events env cal is_day (some identity) ct none s ≡ ok (answer [])
        → follow_events identity s (suc fuel) ct ≡ some []
    unfolding follow_events respond
    follow-end fuel ct h = rw (follow_events, h) refl

    follow-on :
        (fuel : ℕ) (ct : Option Text) (rs : List PostStreamRow) (t : Text) (es : List PostEvent)
        → events env cal is_day (some identity) ct none s ≡ ok (answer rs)
        → (answer rs).next_post_cursor ≡ some t
        → follow_events identity s fuel (some t) ≡ some es
        → follow_events identity s (suc fuel) ct ≡ some ((answer rs).posts ++ es)
    unfolding follow_events
    follow-on fuel ct rs t es h n k = rw (follow_events, h, n, k) refl

    -- What is left for a peer after a cursor
    abbrev rest : Option (ℤ × Bytes) → List Post
    rest c = left earlier post_key earlier-IsOrder c outgoing

    abbrev ids_of : List PostEvent → List Text
    ids_of = map (λ (e : PostEvent). e.origin_post_id)

    abbrev sent_ids : List Post → List Text
    sent_ids = map (λ (p : Post). env.b64 p.id)

    -- A peer gets these posts from a cursor on.
    Gets : ℕ → Option Text → List Post → Type 0
    Gets fuel ct ps =
        (es : List PostEvent) × ((follow_events identity s fuel ct ≡ some es)
          × (ids_of es ≡ sent_ids ps))

    page-rest :
        (c : Option (ℤ × Bytes)) (ps : List Post)
        → rest c ≡ ps
        → outgoing_page identity.pubkey c events_page_limit s ≡ take 200 ps
    unfolding outgoing_page
    page-rest c ps e = page-left earlier post_key earlier-IsOrder c 200 outgoing ps e

    join_ids :
        (xs es : List PostEvent) (ps : List Post)
        → ids_of xs ≡ sent_ids (take 200 ps)
        → ids_of es ≡ sent_ids (drop 200 ps)
        → ids_of (xs ++ es) ≡ sent_ids ps
    join_ids xs es ps h k =
        map-append _ xs es
        ∙ (rw (h, k) (sym (map-append _ (take 200 ps) (drop 200 ps)))
            ∙ ap sent_ids (take-drop 200 ps))

    follow-step :
        (fuel : ℕ) (ct : Option Text) (c : Option (ℤ × Bytes)) (ps : List Post)
        → AreDistinct (row_before earlier post_key) outgoing
        → ((p : Post)
            → IsServed env is_day p
            → length (rest (some (post_key p))) < fuel
            → Gets fuel
                (some (encode_cursor env is_day (pos p.created_at) p.id))
                (rest (some (post_key p))))
        → query_cursor env cal is_day ct (bad_request "since_post cursor") ≡ ok c
        → rest c ≡ ps
        → All (Ready env is_day s.threads) ps
        → length ps < suc fuel
        → Gets (suc fuel) ct ps
    unfolding Gets Ready take drop
    follow-step fuel ct c [] d ih q e a l = (
      [],
      (
        follow-end fuel ct
            (events-page ct c [] [] q (page-rest c [] e) (unfold stream_rows in refl)),
        refl,
      ),
    )
    follow-step fuel ct c (p ∷ ps) d ih q e a l =
        let (x, (t, n)) = page-next earlier post_key earlier-IsOrder 199 c outgoing p ps d e in
        let (rs, (o, m)) =
          rows-Matching env is_day identity.pubkey s.threads (take 200 (p ∷ ps))
            (All-take (Ready env is_day s.threads) 200 (p ∷ ps) a) in
        let (r, (lr, (i, day))) = Matching-last x m t in
        let served : IsServed env is_day x =
          (All-last (Ready env is_day s.threads) _ x
            (All-take (Ready env is_day s.threads) 200 (p ∷ ps) a) t).0 in
        let (es, (f, k)) = ih x served (omega (arith, ap length n, length-drop-le 199 ps, l)) in
        (
          (answer rs).posts ++ es,
          (
            follow-on fuel ct rs _ es (events-page ct c _ rs q (page-rest c (p ∷ ps) e) o)
                (answer-next rs r x lr i day) f,
            join_ids (answer rs).posts es (p ∷ ps) (answer-ids m) (k ∙ ap sent_ids n),
          ),
        )

    left-Ready :
        (c : Option (ℤ × Bytes))
        → All (Ready env is_day s.threads) outgoing
        → All (Ready env is_day s.threads) (rest c)
    unfolding left in_order
    left-Ready c h =
        All-order_by _ (Ready env is_day s.threads) _
          (All-select (Ready env is_day s.threads) _ outgoing h)

    follow-rest :
        (fuel : ℕ) (ct : Option Text) (c : Option (ℤ × Bytes))
        → AreDistinct (row_before earlier post_key) outgoing
        → All (Ready env is_day s.threads) outgoing
        → query_cursor env cal is_day ct (bad_request "since_post cursor") ≡ ok c
        → length (rest c) < fuel
        → Gets fuel ct (rest c)
    follow-rest zero ct c d a q l = absurd (omega (arith, l))
    follow-rest (suc fuel) ct c d a q l =
        follow-step fuel ct c (rest c) d
          (λ p h k.
            follow-rest fuel (some (encode_cursor env is_day (pos p.created_at) p.id))
              (some (post_key p)) d a (query-encode p _ h) k)
          q refl (left-Ready c a) l

    outgoing-Ready :
        All
          (λ (p : Post). is_outgoing identity.pubkey s.threads p ≡ true → IsServed env is_day p)
          s.posts
        → All (Ready env is_day s.threads) outgoing
    unfolding is_outgoing Ready
    outgoing-Ready h =
        All-select_where (Ready env is_day s.threads) (is_outgoing identity.pubkey s.threads)
          s.posts
          (All-weaken _ s.posts
            (λ (p : Post) k t. (k t, any-first (is_thread p.thread_id) s.threads (ground arith))) h)

    -- A peer that sends back `next_post_cursor` until it gets none comes to an end before it has sent one request
    -- more than there are posts, and has received the event of every outgoing post once, in the order of date and id,
    -- where the ids of the posts differ, every outgoing post can be served, and the posts do not change meanwhile.
    pub follow_events-ends :
        (fuel : ℕ)
        → AreIdsDistinct s.posts
        → All
            (λ (p : Post). is_outgoing identity.pubkey s.threads p ≡ true → IsServed env is_day p)
            s.posts
        → length s.posts < fuel
        → (es : List PostEvent) × ((follow_events identity s fuel none ≡ some es)
            × (map (λ (e : PostEvent). e.origin_post_id) es
                ≡ map (λ (p : Post). env.b64 p.id) (in_order earlier post_key outgoing)))
    unfolding Gets
    follow_events-ends fuel d h l =
        let distinct =
          AreDistinct-select (row_before earlier post_key) (is_outgoing identity.pubkey s.threads)
            s.posts (ids-AreDistinct s.posts d) in
        let few : length (rest none) < fuel = omega (
          arith,
          length-left-le earlier post_key earlier-IsOrder none outgoing,
          length-select-le (is_outgoing identity.pubkey s.threads) s.posts,
          l,
        ) in
        let (es, (f, k)) =
          follow-rest fuel none none distinct (outgoing-Ready h) (query-none _) few in
        (es, (f, k ∙ ap sent_ids (left-all earlier post_key earlier-IsOrder outgoing)))

-- ===== src/Tests/Federation.antt =====
-- Events, pages and the pull at concrete inputs.
use lethe_project.Tests.Server.{
  one_number, lenient, peer_identity, peer_post, post_event, server, wire,
}
use lethe_project.Prelude.{ℕ, ◌≤◌, ◌≡◌, ◌↔◌, refl, true, some, [], ◌∷◌, same, utf8, length, arith}
use lethe_project.Table.{any, select}
use lethe_project.Error.{ok}
use lethe_project.Moderation.{Judge, allow, evaluate}
use lethe_project.Paging.{in_order, earlier}
use lethe_project.Posts.Queries.{pubkey_signed_in_thread}
use lethe_project.Federation.Wire.Injective.{PostFits, SamePost, canonical_post_payload-injective}
use lethe_project.Federation.Events.{build_post_event}
use lethe_project.Federation.Events.RoundTrip.{IsSized}
use lethe_project.Federation.Stream.{is_outgoing, post_key}
use lethe_project.Prelude.{map, List, none}
use lethe_project.Federation.Events.{Identity}
use lethe_project.Tests.Server.{own_post}
use lethe_project.Table.{select}
use lethe_project.Paging.{in_order, earlier}
use lethe_project.Db.{Post}
use lethe_project.Federation.Stream.{is_outgoing, post_key}
use lethe_project.Federation.Wire.{PostEvent}
use lethe_project.Federation.Stream.Follow.Rows.{IsServed}
use lethe_project.Federation.Stream.Follow.{follow_events, follow_events-ends}
use lethe_project.Federation.Pull.Ingest.{apply_post_event, admit_post, federated_post}
use lethe_project.Federation.Pull.Replicate.{HasArrived, apply-build_post}
use lethe_project.Federation.Pull.Cycle.{run_once, read_bounded}
use lethe_project.Federation.Pull.Isolation.Frame.{Spares}
use lethe_project.Federation.Pull.Isolation.{run_once-Spares}
use lethe_project.Federation.Pull.Repeat.{apply_post_event-again}
use lethe_project.Federation.Pull.Bounded.{body_of, read_bounded_iff}
use lethe_project.Federation.Pull.Unsigned.{admit_post-signed}
use lethe_project.Tests.{fill, open_env, noon, key}

run_once-Spares_example :
    Spares (key 9) server (run_once open_env one_number noon lenient wire (key 9) server).1
unfolding lethe_project.Federation.Peers.list_enabled_peers select same
run_once-Spares_example =
    run_once-Spares open_env one_number noon lenient wire (key 9) (key 9) server (refl, tt)

peer_post-IsSized : IsSized peer_post
peer_post-IsSized = record {
  thread = refl;
  thread_origin = refl;
  origin = refl;
  post = refl;
  author = refl;
  signed = tt;
}

peer_post_fits : PostFits peer_post
unfolding utf8
peer_post_fits = record {
  board = omega arith;
  thread = omega arith;
  thread_origin = omega arith;
  title = omega arith;
  origin = omega arith;
  post = omega arith;
  body = omega arith;
  day = omega arith;
  author = omega arith;
  signed = tt;
}

canonical_post_payload-injective_example : SamePost peer_post peer_post
canonical_post_payload-injective_example =
    canonical_post_payload-injective peer_post peer_post peer_post_fits peer_post_fits refl

apply-build_post_example :
    ((apply_post_event open_env one_number noon lenient
        (fill 16 41)
        (fill 16 42)
        post_event
        (key 1)
        (key 9)
        server).0
      ≡ ok true)
    × HasArrived
        (fill 16 41)
        peer_post
        server
        (apply_post_event open_env one_number noon lenient
          (fill 16 41)
          (fill 16 42)
          post_event
          (key 1)
          (key 9)
          server).1
unfolding same evaluate lethe_project.Moderation.evaluate_rules lethe_project.Moderation.Words.trim
    lethe_project.Moderation.has_blocklisted_host any lethe_project.Moderation.is_link_density_spam
    lethe_project.Moderation.Words.split_ascii_whitespace lethe_project.Moderation.is_link
    lethe_project.Moderation.Words.starts_with lethe_project.Moderation.is_severe_harassment
    lethe_project.Moderation.is_recent_duplicate lethe_project.Posts.Queries.has_origin
    lethe_project.Posts.Queries.is_post lethe_project.Federation.Pull.Ingest.is_author_valid
apply-build_post_example =
    apply-build_post open_env one_number noon lenient peer_identity (λ b. refl) (λ d. refl) refl
      (λ m. refl) (λ m. refl) peer_post (fill 16 41) (fill 16 42) (key 9) server refl
      peer_post-IsSized refl refl refl (record { board = refl; fresh = refl; unknown = refl })

apply_post_event-again_example :
    (apply_post_event open_env one_number noon lenient
      (fill 16 51)
      (fill 16 52)
      post_event
      (key 1)
      (key 9)
      (apply_post_event open_env one_number noon lenient
        (fill 16 41)
        (fill 16 42)
        post_event
        (key 1)
        (key 9)
        server).1).1.posts
    ≡ (apply_post_event open_env one_number noon lenient
        (fill 16 41)
        (fill 16 42)
        post_event
        (key 1)
        (key 9)
        server).1.posts
unfolding apply_post_event build_post_event same evaluate lethe_project.Moderation.evaluate_rules
    lethe_project.Moderation.Words.trim lethe_project.Moderation.has_blocklisted_host any
    lethe_project.Moderation.is_link_density_spam
    lethe_project.Moderation.Words.split_ascii_whitespace lethe_project.Moderation.is_link
    lethe_project.Moderation.Words.starts_with lethe_project.Moderation.is_severe_harassment
    lethe_project.Moderation.is_recent_duplicate
apply_post_event-again_example =
    apply_post_event-again open_env one_number noon noon lenient lenient post_event (key 1) (key 9)
      (fill 16 41) (fill 16 42) (fill 16 51) (fill 16 52) server refl

read_bounded_iff_example :
    (read_bounded 4 (some (1 ∷ 2 ∷ []) ∷ some (3 ∷ []) ∷ []) ≡ ok (1 ∷ 2 ∷ 3 ∷ [])) ↔ (
      (length {A = ℕ} (1 ∷ 2 ∷ 3 ∷ []) ≤ 4)
      × (body_of (some (1 ∷ 2 ∷ []) ∷ some (3 ∷ []) ∷ []) ≡ some (1 ∷ 2 ∷ 3 ∷ [])))
read_bounded_iff_example =
    read_bounded_iff 4 (some (1 ∷ 2 ∷ []) ∷ some (3 ∷ []) ∷ []) (1 ∷ 2 ∷ 3 ∷ [])

admit_post-signed_example :
    pubkey_signed_in_thread
      (fill 16 2)
      (key 5)
      (admit_post open_env one_number noon lenient (fill 16 41) (fill 16 42) peer_post server).1
    ≡ true
unfolding evaluate lethe_project.Moderation.evaluate_rules lethe_project.Moderation.Words.trim
    lethe_project.Moderation.has_blocklisted_host any lethe_project.Moderation.is_link_density_spam
    lethe_project.Moderation.Words.split_ascii_whitespace lethe_project.Moderation.is_link
    lethe_project.Moderation.Words.starts_with lethe_project.Moderation.is_severe_harassment
    lethe_project.Moderation.is_recent_duplicate same lethe_project.Threads.exists
    lethe_project.Posts.Queries.has_origin lethe_project.Posts.Queries.is_post
admit_post-signed_example =
    admit_post-signed open_env one_number noon lenient (fill 16 41) (fill 16 42) peer_post (key 5)
      server refl refl refl refl refl refl

abbrev own_identity : Identity
own_identity = record { pubkey = key 9; sign = λ m. fill 64 9 }

own_post-IsServed : (n : ℕ) → IsServed open_env (λ d. true) (own_post n)
own_post-IsServed n = record {
  stamped = refl;
  size = refl;
  day = omega arith;
  dated = refl;
  encoded = refl;
}

follow_events-ends_example :
    (es : List PostEvent) × ((follow_events open_env one_number
          (λ d. true)
          own_identity
          server
          3
          none
        ≡ some es)
      × (map (λ (e : PostEvent). e.origin_post_id) es
          ≡ map
              (λ (p : Post). p.id)
              (in_order earlier post_key
                (select (is_outgoing (key 9) server.threads) server.posts))))
unfolding same
follow_events-ends_example =
    follow_events-ends open_env one_number (λ d. true) own_identity server 3 ((refl, tt), (tt, tt))
      ((λ h. own_post-IsServed 8), ((λ h. own_post-IsServed 7), tt)) (omega arith)

-- ===== src/Tests/Records.antt =====
-- Runs on posts, nonces and the sweep.
use lethe_project.Prelude.{
  ℕ, ◌+◌, ◌^◌, ◌/◌, ◌≤◌, ◌<◌, ◌≡◌, ◌↔◌, ◌⊎◌, ◌&&◌, refl, Bool, true, false, none, some, List, [],
  ◌∷◌, ◌++◌, utf8, Bytes, Text, arith, All, length, codes, map_option,
}
use lethe_project.Error.{ok}
use lethe_project.Action.{◌>>=◌}
use lethe_project.Checks.{decode, decode_sig, check_window, checked, check_nonce, statement}
use lethe_project.Crypto
use lethe_project.Db.{Db, Post, Thread, empty_db}
use lethe_project.Table.{any, first, update, select}
use lethe_project.Nonces.{in_window, record_nonce}
use lethe_project.Nonces.Window.{in_window_iff}
use lethe_project.Nonces.Replay.Ideal.{Event, answers, ideal_answers, answers-ideal}
use lethe_project.Moderation.{is_recent, unix_epoch_day}
use lethe_project.Moderation.Duplicates.{is_recent_iff}
use lethe_project.Posts.Queries.{
  NewPost, insert, in_thread, author_pubkey, is_removal, is_post, author_delete,
}
use lethe_project.Posts.Queries.Numbers.{insert-seq_grows}
use lethe_project.Posts.Deletion.{delete_post, delete_authored, check_author}
use lethe_project.Posts.Deletion.Effects.{delete_post_scrubs, find, IsScrubbed}
use lethe_project.Pow
use lethe_project.Pow.Bits.{verify_iff, zeros, all_bits}
use lethe_project.Posts.Requests.{CreatePostReq, CreatePostResp}
use lethe_project.Posts.Requests.{DeletePostReq}
use lethe_project.Posts.Writing.{Posting, create_post}
use lethe_project.Posts.Writing.Stored.{IsCreated, create_post_stores}
use lethe_project.Retention.{run_once, is_thread_due, is_message_due, RetentionStats}
use lethe_project.Server.Start.{run_retention}
use lethe_project.Server.Start.Stalled.{run_retention-stalled}
use lethe_project.Env.{Clock}
use lethe_project.Tests.{fill, open_env, noon, key, a_sig, hall_room}

in_window_iff_example :
    (in_window 1000 1060 ≡ true)
    ↔ (((1000 ≤ 1060 + 60) × (1060 ≤ 1000 + 60)) ⊎ (1060 ≡ 1000 + 2 ^ 63))
in_window_iff_example = in_window_iff 1000 1060 (omega arith) (omega arith) (omega arith)

is_recent_iff_example : (is_recent 1000 2440588 ≡ true) ↔ (unix_epoch_day + 1000 / 86400 ≤ 2440588)
is_recent_iff_example = is_recent_iff 1000 2440588

-- A request, the same again, and again after the table was pruned
abbrev replays : List Event
replays =
    Event.request (codes "leave") (key 13) 1000
    ∷ Event.request (codes "leave") (key 13) 1000
    ∷ Event.tick 700
    ∷ Event.prune
    ∷ Event.request (codes "leave") (key 13) 1000
    ∷ Event.request (codes "leave") (key 13) 1700
    ∷ []

answers-ideal_example :
    answers (record { now = 1000; db = empty_db; log = [] }) replays ≡ ideal_answers 1000 [] replays
answers-ideal_example =
    answers-ideal 1000 empty_db replays (omega arith) (omega arith) refl (omega arith)

abbrev lobby : Thread
lobby = record {
  id = fill 16 2;
  board_id = codes "general";
  title = codes "hi";
  created_at = 10;
  last_post_at = 10;
  post_count = 1;
  expires_at = some 15;
  origin_server_id = none;
}

abbrev opening : ℕ → Post
opening n = record {
  id = fill 16 n;
  thread_id = fill 16 2;
  seq = 1;
  body = codes "hello";
  pow_nonce = [];
  pubkey = some (key 7);
  signature = some a_sig;
  created_at = 10;
  origin_server_id = none;
  origin_post_id = none;
  vouch = none;
  vouch_room_id = none;
}

abbrev board_db : Db
board_db = record empty_db { threads = lobby ∷ []; posts = opening 3 ∷ opening 4 ∷ [] }

abbrev withdraw : DeletePostReq
withdraw = record { pubkey = key 7; ts = 1000; sig = a_sig }

abbrev withdrawn : Db
withdrawn = (delete_post open_env noon (fill 16 3) withdraw board_db).1

delete_post_scrubs_example :
    (Crypto.verify_post_delete open_env (key 7) a_sig (fill 16 3) 1000 ≡ ok tt)
    × (any (is_removal (fill 16 3)) board_db.post_removals ≡ false)
    × ((p : Post) × (r : Post) × (find (fill 16 3) board_db ≡ some p)
        × (p.pubkey ≡ some (key 7))
        × (find (fill 16 3) withdrawn ≡ some r)
        × IsScrubbed p r)
    × (find (fill 16 4) withdrawn ≡ find (fill 16 4) board_db)
unfolding delete_post ◌>>=◌ decode decode_sig check_window checked check_nonce record_nonce
    in_window any first lethe_project.Prelude.same Crypto.verify_post_delete Crypto.verify_ed25519
    delete_authored check_author author_pubkey is_post statement author_delete is_removal update
delete_post_scrubs_example =
    delete_post_scrubs open_env noon (fill 16 3) withdraw (fill 16 3) (key 7) a_sig (fill 16 4)
      board_db withdrawn refl refl refl refl refl

abbrev answer : NewPost
answer = record {
  thread_id = fill 16 2;
  body = codes "and you?";
  pow_nonce = [];
  pubkey = none;
  signature = none;
  created_at = 20;
  origin_server_id = key 1;
  vouch = none;
}

abbrev answered : Db
answered = (insert (fill 16 6) answer board_db).1

insert-seq_grows_example :
    ((r : Post) × (answered.posts ≡ board_db.posts ++ r ∷ [])
      × (r.id ≡ fill 16 6)
      × (r.thread_id ≡ fill 16 2)
      × (r.seq ≡ 2))
    × All (λ p. p.seq < 2) (select (in_thread (fill 16 2)) board_db.posts)
unfolding insert any lethe_project.Prelude.same
insert-seq_grows_example = insert-seq_grows (fill 16 6) answer (fill 16 6) 2 board_db answered refl

abbrev swept : Db
swept = (run_once 1000 20 board_db).1

abbrev sweep_stats : RetentionStats
sweep_stats = record { threads_deleted = 1; room_messages_deleted = 0; request_nonces_deleted = 0 }

-- In the environment of the tests a byte string is its own digest.
abbrev work : Bytes
work = 0 ∷ 32 ∷ []

verify_iff_example :
    (Pow.verify open_env work [] [] 10 ≡ true) ↔ (10 ≤ zeros (all_bits (work ++ utf8 [] ++ [])))
unfolding utf8
verify_iff_example = verify_iff open_env work [] [] 10 (omega arith, (omega arith, tt))

abbrev desk : Posting
desk = record {
  pow_bits = 2;
  judge = record {
    is_severe = λ t. false;
    is_offensive = λ t. false;
    is_mean = λ t. false;
    classify = λ t. none;
  };
  server_pubkey = key 1;
  serialize = λ v. [];
  is_date = λ d. true;
  action_id = fill 16 8;
  post_id = fill 16 6;
  thread_id = fill 16 5;
}

abbrev reply : CreatePostReq
reply = record {
  body = codes "well said";
  pow_nonce = [];
  pubkey = none;
  signature = none;
  vouch = none;
}

abbrev replied : CreatePostResp
replied = record { post_id = fill 16 6; seq = 2; signer_first_seq = none }

create_post_stores_example :
    IsCreated open_env noon desk
      (fill 16 2)
      reply
      board_db
      replied
      (create_post open_env noon desk (fill 16 2) reply board_db).1
unfolding ◌>>=◌ lethe_project.Moderation.has_blocklisted_host lethe_project.Moderation.is_link
    lethe_project.Moderation.is_link_density_spam lethe_project.Moderation.is_severe_harassment
    lethe_project.Moderation.is_recent_duplicate lethe_project.Moderation.evaluate_rules
    lethe_project.Moderation.evaluate lethe_project.Moderation.Words.trim
    lethe_project.Moderation.Words.split_ascii_whitespace lethe_project.Moderation.Words.contains
    lethe_project.Posts.Queries.insert lethe_project.Posts.Writing.is_within
    lethe_project.Posts.Writing.moderate lethe_project.Posts.Writing.check_signature
    lethe_project.Posts.Writing.check_vouch lethe_project.Posts.Writing.first_seq
    lethe_project.Posts.Writing.create_post lethe_project.Pow.verify lethe_project.Checks.statement
    lethe_project.Checks.decode lethe_project.Threads.exists lethe_project.Threads.board_id_for any
    first utf8 lethe_project.Prelude.same
create_post_stores_example =
    create_post_stores open_env noon desk (fill 16 2) reply replied board_db
      (create_post open_env noon desk (fill 16 2) reply board_db).1 refl

-- A room whose origin is the expired thread
abbrev held_db : Db
held_db = record board_db { rooms = record hall_room { origin_thread = some (fill 16 2) } ∷ [] }

abbrev next_day : Clock
next_day = record noon { today = 21 }

run_retention-stalled_example : run_retention (noon ∷ noon ∷ next_day ∷ []) held_db ≡ held_db
unfolding any is_thread_due lethe_project.Retention.is_referenced lethe_project.Prelude.same
run_retention-stalled_example =
    run_retention-stalled 20 (noon ∷ noon ∷ next_day ∷ []) held_db refl
      (omega arith, (omega arith, (omega arith, tt)))

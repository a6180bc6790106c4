-- ===== src/Tests/Server.antt =====
-- A server and its peer, for the runs at concrete inputs.
use lethe_project.Prelude.{ℕ, ◌+◌, true, false, none, some, [], ◌∷◌, codes}
use lethe_project.Db.{Db, Board, Thread, Post, Peer, AdminToken, empty_db}
use lethe_project.Moderation.{Judge}
use lethe_project.Federation.Wire.{PostEvent, RemovalEvent, PostEventFields, RemovalEventFields}
use lethe_project.Federation.Events.{Identity, Calendar, build_post_event, build_removal_event}
use lethe_project.Federation.Pull.Cycle.{Net}
use lethe_project.Tests.{fill, open_env, key}

-- A date is the text of its one number.
abbrev pub one_number : Calendar
one_number = record {
  format_date = λ d. d ∷ [];
  parse_date = λ t. elim t [ [] ↦ none | d ∷ ds ↦ some d ];
}

abbrev pub lenient : Judge
lenient = record {
  is_severe = λ b. false;
  is_offensive = λ b. false;
  is_mean = λ b. false;
  classify = λ b. none;
}

abbrev pub peer_identity : Identity
peer_identity = record { pubkey = key 1; sign = λ m. fill 64 9 }

abbrev pub peer_post : PostEventFields
peer_post = record {
  board_id = codes "general";
  thread_id = fill 16 2;
  thread_origin_server_id = key 1;
  thread_title = codes "hi";
  origin_server_id = key 1;
  origin_post_id = fill 16 3;
  body = codes "hello";
  created_at = 19;
  author_pubkey = some (key 5);
  author_signature = none;
}

abbrev pub peer_removal : RemovalEventFields
peer_removal = record {
  origin_server_id = key 1;
  origin_post_id = fill 16 3;
  reason = codes "spam";
  removed_at = 20;
}

abbrev pub post_event : PostEvent
post_event = build_post_event open_env one_number peer_identity peer_post

abbrev pub removal_event : RemovalEvent
removal_event = build_removal_event open_env one_number peer_identity peer_removal

abbrev pub general : Board
general = record {
  id = codes "general";
  title = codes "General";
  pow_bits = 1;
  retention_days = none;
}

abbrev pub own_thread : Thread
own_thread = record {
  id = fill 16 2;
  board_id = codes "general";
  title = codes "hi";
  created_at = 18;
  last_post_at = 18;
  post_count = 1;
  expires_at = none;
  origin_server_id = some (key 9);
}

abbrev pub own_post : ℕ → Post
own_post n = record {
  id = fill 16 n;
  thread_id = fill 16 2;
  seq = 1;
  body = codes "mine";
  pow_nonce = [];
  pubkey = none;
  signature = none;
  created_at = 18;
  origin_server_id = some (key 9);
  origin_post_id = some (fill 16 n);
  vouch = none;
  vouch_room_id = none;
}

abbrev pub a_peer : Peer
a_peer = record {
  server_pubkey = key 1;
  endpoint = codes "http://a";
  label = none;
  last_cursor = none;
  added_at = 10;
  enabled = true;
}

abbrev pub a_token : AdminToken
a_token = record {
  token_hash = codes "secret";
  label = codes "ops";
  created_at = 10;
  revoked_at = none;
}

abbrev pub server : Db
server = record empty_db {
  boards = general ∷ [];
  threads = own_thread ∷ [];
  posts = own_post 8 ∷ own_post 7 ∷ [];
  federation_peers = a_peer ∷ [];
  admin_tokens = a_token ∷ [];
}

-- Every peer answers with one post and its removal.
abbrev pub wire : Net
wire = record {
  get = λ url.
      some (record { is_success = true; content_length = none; chunks = some (1 ∷ []) ∷ [] });
  read_events = λ b. some (record {
    posts = post_event ∷ [];
    removals = removal_event ∷ [];
    next_post_cursor = none;
    next_removal_cursor = none;
  });
  read_stored = λ b. none;
  write_stored = λ c. [];
  local_id = λ n. fill 16 (100 + n);
  action_id = λ n. fill 16 (200 + n);
}

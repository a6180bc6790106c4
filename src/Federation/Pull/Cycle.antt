-- ===== src/Federation/Pull/Cycle.antt =====
-- `run_once`, `read_bounded` and `build_url`: one cycle over the enabled peers.
use lethe_project.Prelude.{
  ℕ, ◌+◌, ◌*◌, ◌/◌, ◌%◌, Bool, true, false, not, ◌&&◌, ◌||◌, Option, none, some, List, [], ◌∷◌,
  ◌++◌, Bytes, Text, codes, utf8, length, ltb, leb, ◌==◌, if◌then◌else◌,
}
use lethe_project.Error.{Result, ok, err}
use lethe_project.Env.{Env, Clock}
use lethe_project.Db.{Db, Peer}
use lethe_project.Moderation.{Judge}
use lethe_project.Federation.Peers.{list_enabled_peers, save_cursor}
use lethe_project.Federation.Wire.{PostEvent, RemovalEvent, EventsResponse}
use lethe_project.Federation.Events.{Calendar}
use lethe_project.Federation.Pull.Ingest.{IngestError, apply_post_event, apply_removal_event}

abbrev pub max_pull_response_bytes : ℕ
max_pull_response_bytes = 8 * 1024 * 1024

pub record StoredCursor : Type 0 where
  pub post : Option Text
  pub removal : Option Text

pub record PullStats : Type 0 where
  pub peers_visited : ℕ
  pub posts_accepted : ℕ
  pub posts_rejected : ℕ
  pub removals_applied : ℕ

pub data ReadError : Type 0 where
  transport too_large : ReadError

-- A chunk of the body is `none` where the transport fails.
pub record HttpResponse : Type 0 where
  pub is_success : Bool
  pub content_length : Option ℕ
  pub chunks : List (Option Bytes)

-- reqwest, serde_json and the fresh ids of the n-th event of a cycle
pub record Net : Type 0 where
  pub get : Text → Option HttpResponse
  pub read_events : Bytes → Option EventsResponse
  pub read_stored : Bytes → Option StoredCursor
  pub write_stored : StoredCursor → Bytes
  pub local_id : ℕ → Bytes
  pub action_id : ℕ → Bytes

-- The loop of `read_bounded`, with the bytes so far
unfoldable pub read_chunks : ℕ → Bytes → List (Option Bytes) → Result ReadError Bytes
read_chunks max_bytes buf [] = ok buf
read_chunks max_bytes buf (none ∷ cs) = err transport
read_chunks max_bytes buf (some chunk ∷ cs) =
    let rest = read_chunks max_bytes (buf ++ chunk) cs in
    if ltb max_bytes (length buf + length chunk) then err too_large else rest

unfoldable pub read_bounded : ℕ → List (Option Bytes) → Result ReadError Bytes
unfolding read_chunks
read_bounded max_bytes chunks = read_chunks max_bytes [] chunks

-- `{b:02X}`
unfoldable pub hex_digit : ℕ → ℕ
hex_digit n = if ltb n 10 then 48 + n else 55 + n

unfoldable pub is_unreserved : ℕ → Bool
is_unreserved b =
    (leb 65 b && leb b 90)
    || ((leb 97 b && leb b 122) || ((leb 48 b && leb b 57) || (b == 45 || (b == 95 || b == 46))))

unfoldable pub urlencode_bytes : Bytes → Text
unfolding is_unreserved hex_digit
urlencode_bytes [] = []
urlencode_bytes (b ∷ bs) =
    (if is_unreserved b then b ∷ [] else 37 ∷ hex_digit (b / 16) ∷ hex_digit (b % 16) ∷ [])
    ++ urlencode_bytes bs

unfoldable pub urlencode : Text → Text
unfolding urlencode_bytes
urlencode s = urlencode_bytes (utf8 s)

-- `trim_end_matches('/')`
unfoldable pub trim_slashes : Text → Text
trim_slashes [] = []
trim_slashes (c ∷ cs) = elim (trim_slashes cs) [
  | [] ↦ if c == 47 then [] else c ∷ []
  | d ∷ ds ↦ c ∷ d ∷ ds
]

unfoldable pub query : StoredCursor → Text
unfolding urlencode
query cursor = elim (cursor.post) [
  | none ↦ elim (cursor.removal) [ none ↦ [] | some r ↦ codes "?since_removal=" ++ urlencode r ]
  | some p ↦
      codes "?since_post="
      ++ (urlencode p
          ++ elim (cursor.removal) [ none ↦ [] | some r ↦ codes "&since_removal=" ++ urlencode r ])
]

unfoldable pub build_url : Text → StoredCursor → Text
unfolding trim_slashes query
build_url endpoint cursor =
    trim_slashes endpoint ++ (codes "/api/federation/events" ++ query cursor)

-- `unwrap_or_default`
unfoldable pub stored_cursor : Net → Option Bytes → StoredCursor
stored_cursor net none = record { post = none; removal = none }
stored_cursor net (some b) = elim (net.read_stored b) [
  | none ↦ record { post = none; removal = none }
  | some c ↦ c
]

unfoldable pub or_else {ℓ} : {A : Type ℓ} → Option A → Option A → Option A
or_else none b = b
or_else (some a) b = some a

unfoldable pub is_oversized : Option ℕ → Bool
is_oversized none = false
is_oversized (some len) = ltb max_pull_response_bytes len

-- The body of a response, where the worker gets as far as it
unfoldable pub fetch : Net → Text → Option EventsResponse
unfolding is_oversized read_bounded
fetch net url = elim (net.get url) [
  | none ↦ none
  | some resp ↦
      if not resp.is_success || is_oversized resp.content_length
      then none
      else elim (read_bounded max_pull_response_bytes resp.chunks) [
        | err e ↦ none
        | ok bytes ↦ net.read_events bytes
      ]
]

module _ (env : Env) (cal : Calendar) (clk : Clock) (judge : Judge) (net : Net)
    (self_pubkey : Bytes) where
  abbrev pub count_post : Result IngestError Bool → ℕ × ℕ → ℕ × ℕ
  count_post (ok true) (accepted, rejected) = (accepted + 1, rejected)
  count_post (ok false) (accepted, rejected) = (accepted, rejected + 1)
  count_post (err e) (accepted, rejected) = (accepted, rejected + 1)

  -- The accepted and the rejected posts; the n-th event of the cycle comes first.
  unfoldable pub ingest_posts : ℕ → Bytes → List PostEvent → Db → (ℕ × ℕ) × Db
  unfolding apply_post_event
  ingest_posts n signer [] s = ((0, 0), s)
  ingest_posts n signer (evt ∷ evts) s =
      let (r, s1) =
        apply_post_event env cal clk judge (net.local_id n) (net.action_id n) evt signer self_pubkey
          s in
      let (counts, s2) = ingest_posts (n + 1) signer evts s1 in (count_post r counts, s2)

  abbrev pub count_removal : Result IngestError Bool → ℕ → ℕ
  count_removal (ok true) applied = applied + 1
  count_removal _ applied = applied

  unfoldable pub ingest_removals : Bytes → List RemovalEvent → Db → ℕ × Db
  unfolding apply_removal_event
  ingest_removals signer [] s = (0, s)
  ingest_removals signer (evt ∷ evts) s =
      let (r, s1) = apply_removal_event env cal clk judge evt signer s in
      let (applied, s2) = ingest_removals signer evts s1 in (count_removal r applied, s2)

  -- What is done with a peer's response
  unfoldable pub ingest : ℕ → Peer → StoredCursor → EventsResponse → PullStats → Db → PullStats × Db
  unfolding ingest_posts ingest_removals save_cursor or_else
  ingest n peer cursor body stats s =
      let ((accepted, rejected), s1) = ingest_posts n peer.server_pubkey body.posts s in
      let (applied, s2) = ingest_removals peer.server_pubkey body.removals s1 in
      (
        record {
          peers_visited = stats.peers_visited + 1;
          posts_accepted = stats.posts_accepted + accepted;
          posts_rejected = stats.posts_rejected + rejected;
          removals_applied = stats.removals_applied + applied;
        },
        save_cursor peer.server_pubkey
            (net.write_stored (record {
              post = or_else body.next_post_cursor cursor.post;
              removal = or_else body.next_removal_cursor cursor.removal;
            }))
            s2,
      )

  -- The end of one turn of the loop: the number of events so far, the totals and the state
  unfoldable pub pull_body :
      ℕ → Peer → StoredCursor → Option EventsResponse → PullStats → Db → (ℕ × PullStats) × Db
  unfolding ingest
  pull_body n peer cursor none stats s = ((n, stats), s)
  pull_body n peer cursor (some body) stats s =
      let (stats', s') = ingest n peer cursor body stats s in ((n + length body.posts, stats'), s')

  unfoldable pub pull_peer : ℕ → Peer → PullStats → Db → (ℕ × PullStats) × Db
  unfolding fetch stored_cursor build_url pull_body
  pull_peer n peer stats s =
      let cursor = stored_cursor net peer.last_cursor in
      if length peer.server_pubkey == 32
      then pull_body n peer cursor (fetch net (build_url peer.endpoint cursor)) stats s
      else ((n, stats), s)

  unfoldable pub pull_peers : ℕ → List Peer → PullStats → Db → PullStats × Db
  unfolding pull_peer
  pull_peers n [] stats s = (stats, s)
  pull_peers n (peer ∷ peers) stats s =
      let ((m, stats'), s') = pull_peer n peer stats s in pull_peers m peers stats' s'

  unfoldable pub run_once : Db → PullStats × Db
  unfolding pull_peers list_enabled_peers
  run_once s =
      pull_peers 0 (list_enabled_peers s)
        (record { peers_visited = 0; posts_accepted = 0; posts_rejected = 0; removals_applied = 0 })
        s

-- ===== src/Federation/Peers.antt =====
-- The peers of crates/lethe-server/src/db/federation.rs.
use lethe_project.Prelude.{
  ◌∷◌, [], ◌++◌, ltb, ◌==◌, lex_lt, Bool, true, ◌&&◌, ◌||◌, Option, some, List, Bytes, Text, same,
  if◌then◌else◌, map_option,
}
use lethe_project.Table.{any, first, select, update, order_by}
use lethe_project.Db.{Db, Date, Peer, Post}
use lethe_project.Posts.Queries.{has_origin}

unfoldable pub is_peer : Bytes → Peer → Bool
is_peer server_pubkey p = same p.server_pubkey server_pubkey

unfoldable pub upsert_peer : Date → Bytes → Text → Option Text → Option Bytes → Db → Db
unfolding is_peer
upsert_peer today server_pubkey endpoint label initial_cursor s = record s {
  federation_peers =
      if any (is_peer server_pubkey) s.federation_peers
      then update (is_peer server_pubkey)
          (λ p. record p { endpoint = endpoint; label = label; enabled = true }) s.federation_peers
      else s.federation_peers
        ++ record {
          server_pubkey = server_pubkey;
          endpoint = endpoint;
          label = label;
          last_cursor = initial_cursor;
          added_at = today;
          enabled = true;
        }
          ∷ [];
}

unfoldable pub set_enabled : Bytes → Bool → Db → Bool × Db
unfolding is_peer
set_enabled server_pubkey enabled s = (
  any (is_peer server_pubkey) s.federation_peers,
  record s {
    federation_peers =
        update (is_peer server_pubkey) (λ p. record p { enabled = enabled }) s.federation_peers;
  },
)

unfoldable pub peer_before : Peer → Peer → Bool
peer_before p q =
    ltb p.added_at q.added_at
    || (p.added_at == q.added_at && lex_lt p.server_pubkey q.server_pubkey)

unfoldable pub list_peers : Db → List Peer
unfolding peer_before order_by
list_peers s = order_by peer_before s.federation_peers

unfoldable pub list_enabled_peers : Db → List Peer
unfolding list_peers
list_enabled_peers s = select (λ p. p.enabled) (list_peers s)

unfoldable pub save_cursor : Bytes → Bytes → Db → Db
unfolding is_peer
save_cursor server_pubkey cursor s = record s {
  federation_peers =
      update (is_peer server_pubkey) (λ p. record p { last_cursor = some cursor })
        s.federation_peers;
}

unfoldable pub local_id_for_origin : Bytes → Bytes → Db → Option Bytes
unfolding has_origin
local_id_for_origin origin_server_id origin_post_id s =
    map_option (λ (p : Post). p.id) (first (has_origin origin_server_id origin_post_id) s.posts)

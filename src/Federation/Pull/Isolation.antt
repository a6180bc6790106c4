-- ===== src/Federation/Pull/Isolation.antt =====
-- What a peer can change: its own posts, and nothing that is not public.
pub mod Owned
pub mod Frame
pub mod Events
use lethe_project.Federation.Pull.Isolation.Frame.{
  posts_of, Spares, Spares-refl, Spares-trans, SparesIn, same_state, if-SparesIn, other_tables,
  ensure-SparesIn, insert_federated-SparesIn, insert_removal-SparesIn,
}
use lethe_project.Federation.Pull.Isolation.Events.{
  apply_post_event-Spares, apply_removal_event-Spares,
}
use lethe_project.Prelude.{
  length, ◌==◌, ℕ, ◌+◌, ◌≡◌, refl, ◌∙◌, sym, subst, if◌then◌else◌, Bool, true, false, Bool-cases,
  inl, inr, Option, none, some, List, [], ◌∷◌, Bytes, same, All,
}
use lethe_project.Table.{select, any}
use lethe_project.Table.Rows.{select-append_old}
use lethe_project.Error.{Result, ok, err, DbError}
use lethe_project.Env.{Env, Clock}
use lethe_project.Db.{Db, Board, Thread, ModerationAction, Post, Peer, Removal}
use lethe_project.Moderation.{Judge, Verdict, allow, reject, evaluate, log_reject}
use lethe_project.Threads
use lethe_project.Posts.Queries.{holds, has_origin, is_post, is_removal}
use lethe_project.Posts.Federated.{FederatedPost, insert_federated, federated_row}
use lethe_project.PostRemovals
use lethe_project.Federation.Wire.{
  PostEvent, RemovalEvent, PostEventFields, RemovalEventFields, EventsResponse,
}
use lethe_project.Federation.Events.{Calendar, DecodeError, verify_post_event}
use lethe_project.Federation.Events.Origin.{verify_post_event-IsSignedBy}
use lethe_project.Federation.Peers.{local_id_for_origin, list_enabled_peers, save_cursor}
use lethe_project.Federation.Pull.Ingest.{
  is_author_valid, text, IngestError, apply_post_event, apply_removal_event, admit_post, store_post,
  store_removal, store_in_thread, federated_post, admit_judged, admit_claimed, remove_found,
  remove_verified, is_inserted, is_new_removal, admit_verified,
}
use lethe_project.Federation.Pull.Cycle.{
  Net, StoredCursor, PullStats, ingest_posts, ingest_removals, ingest, pull_body, pull_peer,
  pull_peers, run_once, fetch, stored_cursor, build_url,
}

module _ (env : Env) (cal : Calendar) (clk : Clock) (judge : Judge) (net : Net) (self : Bytes)
    (o : Bytes) where
  ingest_posts-Spares :
      (n : ℕ) (signer : Bytes) (evts : List PostEvent) (s : Db)
      → same signer o ≡ false
      → Spares o s (ingest_posts env cal clk judge net self n signer evts s).1
  unfolding ingest_posts
  ingest_posts-Spares n signer [] s h = Spares-refl o s
  ingest_posts-Spares n signer (e ∷ es) s h =
      let k =
        apply_post_event-Spares env cal clk judge o (net.local_id n) (net.action_id n) e signer self
          s h in
      Spares-trans o s _ _ k (ingest_posts-Spares (n + 1) signer es _ h)

  ingest_removals-Spares :
      (signer : Bytes) (evts : List RemovalEvent) (s : Db)
      → same signer o ≡ false
      → Spares o s (ingest_removals env cal clk judge net self signer evts s).1
  unfolding ingest_removals
  ingest_removals-Spares signer [] s h = Spares-refl o s
  ingest_removals-Spares signer (e ∷ es) s h =
      let k = apply_removal_event-Spares env cal clk judge o e signer s h in
      Spares-trans o s _ _ k (ingest_removals-Spares signer es _ h)

  ingest-Spares :
      (n : ℕ) (peer : Peer) (cursor : StoredCursor) (body : EventsResponse) (stats : PullStats)
      (s : Db)
      → same peer.server_pubkey o ≡ false
      → Spares o s (ingest env cal clk judge net self n peer cursor body stats s).1
  unfolding ingest save_cursor
  ingest-Spares n peer cursor body stats s h =
      let posts = ingest_posts-Spares n peer.server_pubkey body.posts s h in
      let t = (ingest_posts env cal clk judge net self n peer.server_pubkey body.posts s).1 in
      let removals = ingest_removals-Spares peer.server_pubkey body.removals t h in
      let u = (ingest_removals env cal clk judge net self peer.server_pubkey body.removals t).1 in
      let saved = other_tables o u tt u.threads u.moderation_actions _ in
      Spares-trans o s t _ posts (Spares-trans o t u _ removals saved.state)

  pull_body-SparesIn :
      (n : ℕ) (peer : Peer) (cursor : StoredCursor) (body : Option EventsResponse)
      (stats : PullStats) (s : Db)
      → same peer.server_pubkey o ≡ false
      → SparesIn o s (pull_body env cal clk judge net self n peer cursor body stats s)
  unfolding pull_body
  pull_body-SparesIn n peer cursor none stats s h = same_state o s (n, stats)
  pull_body-SparesIn n peer cursor (some body) stats s h = record {
    state = ingest-Spares n peer cursor body stats s h;
  }

  pull_peer-SparesIn :
      (n : ℕ) (peer : Peer) (stats : PullStats) (s : Db)
      → same peer.server_pubkey o ≡ false
      → SparesIn o s (pull_peer env cal clk judge net self n peer stats s)
  unfolding pull_peer
  pull_peer-SparesIn n peer stats s h =
      if-SparesIn o s (length peer.server_pubkey == 32) _ _
        (pull_body-SparesIn n peer (stored_cursor net peer.last_cursor)
          (fetch net (build_url peer.endpoint (stored_cursor net peer.last_cursor))) stats s h)
        (same_state o s (n, stats))

  pull_peers-Spares :
      (peers : List Peer) (n : ℕ) (stats : PullStats) (s : Db)
      → All (λ (p : Peer). same p.server_pubkey o ≡ false) peers
      → Spares o s (pull_peers env cal clk judge net self n peers stats s).1
  unfolding pull_peers
  pull_peers-Spares [] n stats s h = Spares-refl o s
  pull_peers-Spares (peer ∷ peers) n stats s (h, hs) =
      let k = pull_peer-SparesIn n peer stats s h in
      Spares-trans o s _ _ k.state (pull_peers-Spares peers _ _ _ hs)

  -- A cycle of the pull worker leaves the posts and the signed tombstones of every server that is not an enabled peer
  -- as they were, and each post of such a server, the own posts among them, as removed or not removed as it was. It
  -- does not touch rooms, members, messages, rosters, nonces, admin tokens or the identity, whatever the peers send.
  pub run_once-Spares :
      (s : Db)
      → All (λ (p : Peer). same p.server_pubkey o ≡ false) (list_enabled_peers s)
      → Spares o s (run_once env cal clk judge net self s).1
  unfolding run_once
  run_once-Spares s h = pull_peers-Spares (list_enabled_peers s) 0 _ s h

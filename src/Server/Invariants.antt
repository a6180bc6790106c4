-- ===== src/Server/Invariants.antt =====
-- Invariants of the room tables under every move of the server: crates/lethe-server/src/lib.rs, `router` and the
-- workers.
use lethe_project.Prelude.{◌≡◌, true, false, Bytes}
use lethe_project.Table.{any}
use lethe_project.Env.{Env, Clock}
use lethe_project.Db.{Db}
use lethe_project.Rooms.Queries.{has_box, is_member_by_box}
use lethe_project.Rooms.Invariants.Removed.{IsGone, IsGone-stable}
use lethe_project.Rooms.Invariants.Life.Diagram.{◌⟶*◌, stays, ⟶*-trans, status}
use lethe_project.Rooms.Invariants.Life.{life-Stable, same_members}
use lethe_project.Action.{Action}
use lethe_project.Action.Keeps.{Keeps}
use lethe_project.Rooms.Calls.Stable.{Stable, call-Keeps}
use lethe_project.Server.{
  Move, room, create_thread, create_post, list_posts, delete_post, report_post, list_peers_public,
  list_peers, list_tokens, add_peer, set_peer_enabled, mint_token, revoke_token, sweep, pull,
  restart, after, Reach, here, next,
}
use lethe_project.Retention
use lethe_project.Server.Moves.{Aside, Aside-refl, SameRooms}
use lethe_project.Server.Moves.Posting.{delete_post-Keeps, report_post-Keeps}
use lethe_project.Server.Moves.Writing.{create_thread-Keeps, create_post-Keeps}
use lethe_project.Server.Moves.Admin.{
  posts-Keeps, peers-Keeps, tokens-Keeps, public-Keeps, add_peer-Keeps, set_peer-Keeps,
  mint_token-Keeps, revoke_token-Keeps,
}
use lethe_project.Server.Moves.Workers.{sweep-SameRooms, pull-Aside, restart-Aside}

-- The statements on rooms, the recording of a nonce, a sweep, and what leaves the rooms and the nonces alone keep the
-- invariant.
pub record Steady (clk : Clock) (P : Db → Type 0) : Type 0 where
  pub calls : Stable P
  pub others : (s t : Db) → Aside s t → P s → P t
  pub on_sweep : (s : Db) → P s → P (Retention.run_once clk.now_ts clk.today s).1

module _ {P : Db → Type 0} (env : Env) (clk : Clock) (steady : Steady clk P) where
  handled :
      {A : Type 0} (action : Action Db A) (s : Db) → Keeps (Aside s) action → P s → P (action s).1
  handled action s k h = steady.others s (action s).1 (k.at s (Aside-refl s)) h

  -- Every move keeps a steady invariant.
  pub move-kept : (m : Move) (s : Db) → P s → P (after env clk m s)
  unfolding after
  move-kept (room c) s h = call-Keeps steady.calls env clk c s h
  move-kept (create_thread io req) s h = handled _ s (create_thread-Keeps s env clk io req) h
  move-kept (create_post io thread req) s h =
      handled _ s (create_post-Keeps s env clk io thread req) h
  move-kept (list_posts parse self thread since) s h =
      handled _ s (posts-Keeps s env parse self thread since) h
  move-kept (delete_post id req) s h =
      (delete_post-Keeps steady.calls.on_nonce steady.others env clk id req).at s h
  move-kept (report_post bits id post req) s h =
      handled _ s (report_post-Keeps s env clk bits id post req) h
  move-kept (list_peers_public cfg) s h = handled _ s (public-Keeps s env clk cfg) h
  move-kept (list_peers cfg header) s h = handled _ s (peers-Keeps s env clk cfg header) h
  move-kept (list_tokens cfg header) s h = handled _ s (tokens-Keeps s env clk cfg header) h
  move-kept (add_peer cfg header req) s h = handled _ s (add_peer-Keeps s env clk cfg header req) h
  move-kept (set_peer_enabled cfg header req) s h =
      handled _ s (set_peer-Keeps s env clk cfg header req) h
  move-kept (mint_token cfg header label) s h =
      handled _ s (mint_token-Keeps s env clk cfg header label) h
  move-kept (revoke_token cfg header label) s h =
      handled _ s (revoke_token-Keeps s env clk cfg header label) h
  move-kept sweep s h = steady.on_sweep s h
  move-kept (pull cal judge net self) s h =
      steady.others s _ (pull-Aside env cal clk judge net self s) h
  move-kept (restart m file) s h = steady.others s _ (restart-Aside m file s) h

pub Reach-Steady :
    {P : Db → Type 0} (steady : (clk : Clock) → Steady clk P) (env : Env) {s t : Db}
    → Reach env s t
    → P s
    → P t
Reach-Steady steady env here h = h
Reach-Steady steady env (next {t = t} r clk m) h =
    move-kept env clk (steady clk) m t (Reach-Steady steady env r h)

-- An invariant of the room tables
on_rooms :
    {P : Db → Type 0}
    → Stable P
    → ((s t : Db) → SameRooms s t → P s → P t)
    → (clk : Clock) → Steady clk P
on_rooms calls kept clk = record {
  calls = calls;
  others = λ s t a h. kept s t a.tables h;
  on_sweep = λ s h. kept s _ (sweep-SameRooms clk.now_ts clk.today s) h;
}

module _ (room_id box : Bytes) where
  IsGone-steady : (clk : Clock) → Steady clk (IsGone room_id box)
  IsGone-steady =
      on_rooms (IsGone-stable room_id box) (λ s t a h. record { rows = rw a.members h.rows })

  -- Where a box key has a row in a room and is no active member of it, no sequence of moves of the server makes it an
  -- active member again.
  pub removed_for_good :
      (env : Env) (s t : Db)
      → any (has_box room_id box) s.room_members ≡ true
      → is_member_by_box room_id box s ≡ false
      → Reach env s t
      → is_member_by_box room_id box t ≡ false
  unfolding is_member_by_box
  removed_for_good env s t h g r =
      (Reach-Steady IsGone-steady env r (record { rows = (h, g) })).rows.1

  life-steady :
      (s : Db) (clk : Clock) → Steady clk (λ t. status room_id box s ⟶* status room_id box t)
  life-steady s =
      on_rooms (life-Stable room_id box s)
        (λ t u a h. ⟶*-trans h (same_members room_id box t u a.members))

  -- Whatever the endpoints, the workers and the starts do, one after the other, a box key goes through its life in a
  -- room only along the edges: absent to founding member or to pending, pending to member or to gone, member to gone.
  pub Reach-⟶* :
      (env : Env) (s t : Db) → Reach env s t → status room_id box s ⟶* status room_id box t
  Reach-⟶* env s t r = Reach-Steady (life-steady s) env r stays

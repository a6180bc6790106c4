-- ===== src/Server/Router/Safe.antt =====
-- GET requests: the routing table of crates/lethe-server/src/lib.rs against its handlers.
use lethe_project.Prelude.{◌≡◌, refl, true, false, Bool, same, Option, Bytes, Text, arith, ◌∙◌}
use lethe_project.Table.{any}
use lethe_project.Error.{Result, DbError}
use lethe_project.Action.{Action}
use lethe_project.Action.Keeps.{Keeps, keeps_rules}
use lethe_project.Checks.{statement}
use lethe_project.Checks.Keeps.{check_rules, Keeps-statement}
use lethe_project.Env.{Env, Clock}
use lethe_project.Db.{Db}
use lethe_project.Paging.{ℤ}
use lethe_project.Posts.Requests.{VouchPayload}
use lethe_project.Posts.Reading
use lethe_project.Rooms.Membership
use lethe_project.Rooms.Talk
use lethe_project.Rooms.Vouching
use lethe_project.Rooms.Calls
use lethe_project.Federation.Admin
use lethe_project.Federation.Admin.{AdminConfig}
use lethe_project.Server
use lethe_project.Server.{
  Move, room, create_thread, create_post, list_posts, delete_post, report_post, list_peers_public,
  list_peers, list_tokens, add_peer, set_peer_enabled, mint_token, revoke_token, sweep, pull,
  restart,
}
use lethe_project.Server.Moves.Admin.{admin-state}
use lethe_project.Server.Router.{is_by_get, handler, room_handler, api}

module _ (s : Db) where
  abbrev Unchanged : Db → Type 0
  Unchanged t = t ≡ s

  only_reads : {A : Type 0} (action : Action Db A) → Keeps Unchanged action → (action s).1 ≡ s
  only_reads action k = k.at s refl

  read-Keeps :
      {A : Type 0} (f : Db → Result DbError A) → Keeps Unchanged (statement (λ x. (f x, x)))
  read-Keeps f = Keeps-statement (λ x. (f x, x)) (λ x h. h)

  info-Keeps :
      (env : Env) (clk : Clock) (code : Text)
      → Keeps Unchanged (Membership.invite_info env clk code)
  unfolding Membership.invite_info
  info-Keeps env clk code = search check_rules depth 30

  roster-Keeps :
      (env : Env) (clk : Clock) (id : Text) → Keeps Unchanged (Vouching.roster env clk id)
  unfolding Vouching.roster
  roster-Keeps env clk id = search check_rules depth 30

  provenance-Keeps :
      (env : Env) (clk : Clock) (id : Text) → Keeps Unchanged (Talk.provenance env clk id)
  unfolding Talk.provenance
  provenance-Keeps env clk id = search check_rules depth 30

  posts-Keeps :
      (env : Env) (parse_vouch : Text → Option VouchPayload) (self : Bytes) (thread : Text)
      (since : ℤ)
      → Keeps Unchanged (Reading.list_posts env parse_vouch self thread since)
  unfolding Reading.list_posts
  posts-Keeps env parse_vouch self thread since = search (check_rules, read-Keeps)

  module _ (env : Env) (clk : Clock) (cfg : AdminConfig) where
    admin-Keeps : (header : Option Text) → Keeps Unchanged (Admin.require_admin env clk cfg header)
    admin-Keeps header = record { at = λ x h. admin-state x env clk cfg header x ∙ h }

    peers-Keeps : (header : Option Text) → Keeps Unchanged (Admin.list_all_peers env clk cfg header)
    unfolding Admin.list_all_peers
    peers-Keeps header = search (keeps_rules, admin-Keeps)

    tokens-Keeps : (header : Option Text) → Keeps Unchanged (Admin.list_tokens env clk cfg header)
    unfolding Admin.list_tokens
    tokens-Keeps header = search (keeps_rules, admin-Keeps)

    public-Keeps : Keeps Unchanged (Admin.list_peers_public env clk cfg)
    unfolding Admin.list_peers_public
    public-Keeps = search keeps_rules

never : {b : Bool} → b ≡ false → b ≡ true → ⊥
never e h = ground arith

-- Where the routing table gives a move's handler to GET, the move leaves the database as it was, whatever it answers.
pub is_by_get-after :
    (env : Env) (clk : Clock) (m : Move) (s : Db)
    → is_by_get m ≡ true
    → Server.after env clk m s ≡ s
unfolding Server.after is_by_get handler room_handler api any same
is_by_get-after env clk (room (Calls.invite_info code)) s h =
    only_reads s _ (info-Keeps s env clk code)
is_by_get-after env clk (room (Calls.roster id)) s h = only_reads s _ (roster-Keeps s env clk id)
is_by_get-after env clk (room (Calls.provenance id)) s h =
    only_reads s _ (provenance-Keeps s env clk id)
is_by_get-after env clk (list_posts parse self thread since) s h =
    only_reads s _ (posts-Keeps s env parse self thread since)
is_by_get-after env clk (list_peers_public cfg) s h = only_reads s _ (public-Keeps s env clk cfg)
is_by_get-after env clk (list_peers cfg header) s h =
    only_reads s _ (peers-Keeps s env clk cfg header)
is_by_get-after env clk (list_tokens cfg header) s h =
    only_reads s _ (tokens-Keeps s env clk cfg header)
is_by_get-after env clk (room (Calls.create id code req)) s h = absurd (never refl h)
is_by_get-after env clk (room (Calls.join code req)) s h = absurd (never refl h)
is_by_get-after env clk (room (Calls.leave id req)) s h = absurd (never refl h)
is_by_get-after env clk (room (Calls.wrap id req)) s h = absurd (never refl h)
is_by_get-after env clk (room (Calls.members id req)) s h = absurd (never refl h)
is_by_get-after env clk (room (Calls.post_roster id req)) s h = absurd (never refl h)
is_by_get-after env clk (room (Calls.send_message mid id req)) s h = absurd (never refl h)
is_by_get-after env clk (room (Calls.list_messages id req)) s h = absurd (never refl h)
is_by_get-after env clk (room (Calls.remove id req)) s h = absurd (never refl h)
is_by_get-after env clk (create_thread io req) s h = absurd (never refl h)
is_by_get-after env clk (create_post io thread req) s h = absurd (never refl h)
is_by_get-after env clk (delete_post id req) s h = absurd (never refl h)
is_by_get-after env clk (report_post bits id pid req) s h = absurd (never refl h)
is_by_get-after env clk (add_peer cfg header req) s h = absurd (never refl h)
is_by_get-after env clk (set_peer_enabled cfg header req) s h = absurd (never refl h)
is_by_get-after env clk (mint_token cfg header label) s h = absurd (never refl h)
is_by_get-after env clk (revoke_token cfg header label) s h = absurd (never refl h)
is_by_get-after env clk sweep s h = absurd (never refl h)
is_by_get-after env clk (pull cal judge net self) s h = absurd (never refl h)
is_by_get-after env clk (restart mac file) s h = absurd (never refl h)

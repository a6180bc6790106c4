-- ===== src/Server.antt =====
-- The server of crates/lethe-server/src/lib.rs as one machine: the endpoints of `router` that run statements, the two
-- workers and a new start, one after the other on one database.
pub mod Moves
pub mod Invariants
pub mod Replay
pub mod Router
pub mod Start
use lethe_project.Prelude.{ℕ, Option, Bytes, Text}
use lethe_project.Env.{Env, Clock}
use lethe_project.Db.{Db}
use lethe_project.Moderation.{Judge}
use lethe_project.Paging.{ℤ}
use lethe_project.Rooms.Calls
use lethe_project.Rooms.Calls.{RoomCall}
use lethe_project.Posts.Requests.{CreateThreadReq, CreatePostReq, DeletePostReq, VouchPayload}
use lethe_project.Posts.Writing
use lethe_project.Posts.Writing.{Posting}
use lethe_project.Posts.Reading
use lethe_project.Posts.Deletion
use lethe_project.Reports
use lethe_project.Reports.{ReportPostReq}
use lethe_project.Retention
use lethe_project.Federation.Admin
use lethe_project.Federation.Admin.{AdminConfig, AddPeerReq, DisablePeerReq}
use lethe_project.Federation.Events.{Calendar}
use lethe_project.Federation.Identity
use lethe_project.Federation.Identity.{Machine, KeyFile, Host}
use lethe_project.Federation.Pull.Cycle
use lethe_project.Federation.Pull.Cycle.{Net}

-- What an endpoint gets beside its request, fresh ids among it, comes with the call; a start comes with the key file
-- that it finds.
pub data Move : Type 0 where
  room : RoomCall → Move
  create_thread : Posting → CreateThreadReq → Move
  create_post : Posting → Text → CreatePostReq → Move
  list_posts : (Text → Option VouchPayload) → Bytes → Text → ℤ → Move
  delete_post : Text → DeletePostReq → Move
  report_post : ℕ → Bytes → Text → ReportPostReq → Move
  list_peers_public : AdminConfig → Move
  list_peers list_tokens : AdminConfig → Option Text → Move
  add_peer : AdminConfig → Option Text → AddPeerReq → Move
  set_peer_enabled : AdminConfig → Option Text → DisablePeerReq → Move
  mint_token revoke_token : AdminConfig → Option Text → Text → Move
  sweep : Move
  pull : Calendar → Judge → Net → Bytes → Move
  restart : Machine → Option KeyFile → Move

-- The database after a move, whatever its outcome
unfoldable pub after : Env → Clock → Move → Db → Db
unfolding Calls.after Retention.run_once Cycle.run_once Identity.load_or_create
after env clk (room c) s = Calls.after env clk c s
after env clk (create_thread io req) s = (Writing.create_thread env clk io req s).1
after env clk (create_post io thread req) s = (Writing.create_post env clk io thread req s).1
after env clk (list_posts parse_vouch self thread since) s =
    (Reading.list_posts env parse_vouch self thread since s).1
after env clk (delete_post id req) s = (Deletion.delete_post env clk id req s).1
after env clk (report_post pow_bits id post req) s =
    (Reports.report_post env clk pow_bits id post req s).1
after env clk (list_peers_public cfg) s = (Admin.list_peers_public env clk cfg s).1
after env clk (list_peers cfg header) s = (Admin.list_all_peers env clk cfg header s).1
after env clk (list_tokens cfg header) s = (Admin.list_tokens env clk cfg header s).1
after env clk (add_peer cfg header req) s = (Admin.add_peer env clk cfg header req s).1
after env clk (set_peer_enabled cfg header req) s =
    (Admin.set_peer_enabled env clk cfg header req s).1
after env clk (mint_token cfg header label) s = (Admin.mint_token env clk cfg header label s).1
after env clk (revoke_token cfg header label) s = (Admin.revoke_token env clk cfg header label s).1
after env clk sweep s = (Retention.run_once clk.now_ts clk.today s).1
after env clk (pull cal judge net self) s = (Cycle.run_once env cal clk judge net self s).1
after env clk (restart m file) s = (Identity.load_or_create m (record { file = file; db = s })).1.db

-- Any number of moves, at any times, one after the other.
pub data Reach (env : Env) (s : Db) : Db → Type 0 where
  here : Reach env s s
  next : {t : Db} → Reach env s t → (clk : Clock) (m : Move) → Reach env s (after env clk m t)

-- ===== src/Server/Router.antt =====
-- The routing table of crates/lethe-server/src/lib.rs and the headers of crates/lethe-server/src/csp.rs. A handler
-- is named by its path in the crate.
pub mod Safe
use lethe_project.Prelude.{
  ℕ, ◌*◌, Bool, true, false, ◌&&◌, ◌||◌, Option, none, some, List, [], ◌∷◌, ◌++◌, Text, String,
  codes, same, map,
}
use lethe_project.Table.{any}
use lethe_project.Rooms.Calls
use lethe_project.Rooms.Calls.{RoomCall}
use lethe_project.Server.{
  Move, room, create_thread, create_post, list_posts, delete_post, report_post, list_peers_public,
  list_peers, list_tokens, add_peer, set_peer_enabled, mint_token, revoke_token, sweep, pull,
  restart,
}

pub data Method : Type 0 where
  get post : Method

pub record Route : Type 0 where
  pub path : Text
  pub methods : List (Method × Text)

abbrev pub route : Text → List (Method × Text) → Route
route path methods = record { path = path; methods = methods }

abbrev pub max_body_bytes : ℕ
max_body_bytes = 64 * 1024

abbrev pub max_inflight_requests : ℕ
max_inflight_requests = 256

unfoldable pub api : List Route
api =
    route (codes "/boards/:id") ((get, codes "routes::boards::get") ∷ [])
    ∷ route (codes "/feed") ((get, codes "routes::feed::get") ∷ [])
    ∷ route (codes "/threads") ((post, codes "routes::threads::create") ∷ [])
    ∷ route (codes "/threads/:thread_id/posts")
        ((post, codes "routes::posts::create") ∷ (get, codes "routes::posts::list") ∷ [])
    ∷ route (codes "/posts/:post_id/reports") ((post, codes "routes::reports::create") ∷ [])
    ∷ route (codes "/posts/:post_id/delete") ((post, codes "routes::posts::delete") ∷ [])
    ∷ route (codes "/rooms") ((post, codes "routes::rooms::create") ∷ [])
    ∷ route (codes "/rooms/by-invite/:code/info") ((get, codes "routes::rooms::invite_info") ∷ [])
    ∷ route (codes "/rooms/by-invite/:code/join") ((post, codes "routes::rooms::join") ∷ [])
    ∷ route (codes "/rooms/:room_id/wrap") ((post, codes "routes::rooms::wrap") ∷ [])
    ∷ route (codes "/rooms/:room_id/members") ((post, codes "routes::rooms::members") ∷ [])
    ∷ route (codes "/rooms/:room_id/roster")
        ((get, codes "routes::rooms::roster") ∷ (post, codes "routes::rooms::post_roster") ∷ [])
    ∷ route (codes "/rooms/:room_id/provenance") ((get, codes "routes::rooms::provenance") ∷ [])
    ∷ route (codes "/rooms/:room_id/messages") ((post, codes "routes::rooms::send_message") ∷ [])
    ∷ route (codes "/rooms/:room_id/messages/list")
        ((post, codes "routes::rooms::list_messages") ∷ [])
    ∷ route (codes "/rooms/:room_id/remove") ((post, codes "routes::rooms::remove") ∷ [])
    ∷ route (codes "/rooms/:room_id/leave") ((post, codes "routes::rooms::leave") ∷ [])
    ∷ route (codes "/federation/events") ((get, codes "federation::route::events") ∷ [])
    ∷ route (codes "/federation/info") ((get, codes "federation::route::info") ∷ [])
    ∷ route (codes "/federation/peers/public")
        ((get, codes "federation::route::list_peers_public") ∷ [])
    ∷ route (codes "/federation/peers") (
        (get, codes "federation::route::list_peers")
        ∷ (post, codes "federation::route::add_peer")
        ∷ [])
    ∷ route (codes "/federation/peers/disable")
        ((post, codes "federation::route::set_peer_enabled") ∷ [])
    ∷ route (codes "/federation/admin/tokens") (
        (get, codes "federation::route::list_tokens")
        ∷ (post, codes "federation::route::mint_token")
        ∷ [])
    ∷ route (codes "/federation/admin/tokens/revoke")
        ((post, codes "federation::route::revoke_token") ∷ [])
    ∷ []

unfoldable pub pages : List Route
pages =
    route (codes "/") ((get, codes "routes::pages::index") ∷ [])
    ∷ route (codes "/my-rooms") ((get, codes "routes::pages::my_rooms") ∷ [])
    ∷ route (codes "/moderation") ((get, codes "routes::pages::moderation_log") ∷ [])
    ∷ route (codes "/federation") ((get, codes "routes::pages::federation") ∷ [])
    ∷ route (codes "/b/:board") ((get, codes "routes::pages::board") ∷ [])
    ∷ route (codes "/b/:board/t/:thread_id") ((get, codes "routes::pages::thread") ∷ [])
    ∷ route (codes "/r/new") ((get, codes "routes::pages::room_create") ∷ [])
    ∷ route (codes "/r/join/:invite_code") ((get, codes "routes::pages::room_join") ∷ [])
    ∷ route (codes "/r/:room_id") ((get, codes "routes::pages::room") ∷ [])
    ∷ []

unfoldable pub headers : List (String × String)
headers =
    (
      "content-security-policy",
      "default-src 'self'; script-src 'self'; style-src 'self'; img-src 'self' data:; connect-src 'self'; font-src 'self'; base-uri 'none'; form-action 'self'; frame-ancestors 'none'; object-src 'none'",
    )
    ∷ ("referrer-policy", "no-referrer")
    ∷ ("x-content-type-options", "nosniff")
    ∷ ("x-frame-options", "DENY")
    ∷ (
      "permissions-policy",
      "geolocation=(), camera=(), microphone=(), interest-cohort=(), browsing-topics=()",
    )
    ∷ ("cross-origin-opener-policy", "same-origin")
    ∷ ("cross-origin-resource-policy", "same-origin")
    ∷ []

-- What `router` gives to axum; each header of `headers` is one more layer that overrides.
pub record App : Type 0 where
  pub routes : List Route
  pub fallback : Text
  pub static_dir : Text
  pub body_limit : ℕ
  pub inflight_limit : ℕ
  pub layers : List (String × String)

-- `nest`
abbrev pub nest : Text → Route → Route
nest prefix r = route (prefix ++ r.path) r.methods

-- `static_dir` is the variable LETHE_STATIC_DIR.
unfoldable pub router : Option Text → App
unfolding api pages headers
router static_dir = record {
  routes =
      route (codes "/healthz") ((get, codes "healthz") ∷ []) ∷ pages
      ++ map (nest (codes "/api")) api;
  fallback = codes "routes::pages::not_found";
  static_dir = elim static_dir [ none ↦ codes "crates/lethe-server/static" | some d ↦ d ];
  body_limit = max_body_bytes;
  inflight_limit = max_inflight_requests;
  layers = headers;
}

-- The handler that a call of a room endpoint runs
unfoldable pub room_handler : RoomCall → Text
room_handler (Calls.create id code req) = codes "routes::rooms::create"
room_handler (Calls.join code req) = codes "routes::rooms::join"
room_handler (Calls.leave id req) = codes "routes::rooms::leave"
room_handler (Calls.invite_info code) = codes "routes::rooms::invite_info"
room_handler (Calls.wrap id req) = codes "routes::rooms::wrap"
room_handler (Calls.members id req) = codes "routes::rooms::members"
room_handler (Calls.roster id) = codes "routes::rooms::roster"
room_handler (Calls.post_roster id req) = codes "routes::rooms::post_roster"
room_handler (Calls.provenance id) = codes "routes::rooms::provenance"
room_handler (Calls.send_message id code req) = codes "routes::rooms::send_message"
room_handler (Calls.list_messages id req) = codes "routes::rooms::list_messages"
room_handler (Calls.remove id req) = codes "routes::rooms::remove"

-- The handler of a move, where the move is a request
unfoldable pub handler : Move → Option Text
unfolding room_handler
handler (room c) = some (room_handler c)
handler (create_thread io req) = some (codes "routes::threads::create")
handler (create_post io thread req) = some (codes "routes::posts::create")
handler (list_posts parse self thread since) = some (codes "routes::posts::list")
handler (delete_post id req) = some (codes "routes::posts::delete")
handler (report_post bits id post_id req) = some (codes "routes::reports::create")
handler (list_peers_public cfg) = some (codes "federation::route::list_peers_public")
handler (list_peers cfg header) = some (codes "federation::route::list_peers")
handler (list_tokens cfg header) = some (codes "federation::route::list_tokens")
handler (add_peer cfg header req) = some (codes "federation::route::add_peer")
handler (set_peer_enabled cfg header req) = some (codes "federation::route::set_peer_enabled")
handler (mint_token cfg header label) = some (codes "federation::route::mint_token")
handler (revoke_token cfg header label) = some (codes "federation::route::revoke_token")
handler sweep = none
handler (pull cal judge net self) = none
handler (restart m file) = none

abbrev pub is_get : Text → Method × Text → Bool
is_get name (get, f) = same name f
is_get name (post, f) = false

-- A GET request reaches the move.
unfoldable pub is_by_get : Move → Bool
unfolding handler api
is_by_get m = elim (handler m) [
  | none ↦ false
  | some f ↦ any (λ (r : Route). any (is_get f) r.methods) api
]

-- ===== src/Tests/Handlers.antt =====
-- The feed, the identity, the admin handlers and the reports at concrete inputs.
use lethe_project.Tests.Server.{own_thread, own_post, a_token, server}
use lethe_project.Prelude.{ℕ, ◌≡◌, refl, true, false, none, some, [], ◌∷◌, codes, same, utf8, arith}
use lethe_project.Table.{any, first, select, update}
use lethe_project.Error.{ok, err, AppError, forbidden}
use lethe_project.Db.{Db, Thread, Removal, global, empty_db}
use lethe_project.Paging.{pos, in_order, later}
use lethe_project.AdminTokens
use lethe_project.PostRemovals
use lethe_project.Posts.Listing.{PostView, post_view}
use lethe_project.Posts.Listing.Hidden.{IsTombstone, insert-IsTombstone}
use lethe_project.Reports.{ReportPostReq, report_post, given_reason}
use lethe_project.Reports.Effects.{IsReported, report_post-IsReported}
use lethe_project.Feed.{newest, boards_of, is_on, sort_key}
use lethe_project.Feed.Complete.{scroll, scroll-order}
use lethe_project.Federation.Admin.{
  AdminConfig, require_admin, add_peer, set_peer_enabled, mint_token, revoke_token, list_all_peers,
  list_tokens, AddPeerReq, DisablePeerReq, presented_token,
}
use lethe_project.Federation.Admin.Tokens.{
  IsKnown, handlers-refused, require_admin-IsKnown, verify-revoke,
}
use lethe_project.Federation.Identity.{Machine, Host, load_or_create}
use lethe_project.Federation.Identity.Restart.{load_or_create-again}
use lethe_project.Tests.{fill, open_env, noon, key}

abbrev feed_thread : ℕ → ℕ → Thread
feed_thread n d = record own_thread { id = fill 16 n; board_id = codes "economy"; created_at = d }

abbrev feed_server : Db
feed_server = record empty_db { threads = feed_thread 1 10 ∷ feed_thread 2 11 ∷ [] }

scroll-order_example :
    scroll open_env (λ t. none) 3 none newest feed_server
    ≡ in_order later (sort_key newest) (select (is_on (boards_of none)) feed_server.threads)
unfolding same
scroll-order_example =
    scroll-order open_env (λ t. none) 3 none newest feed_server ((refl, tt), (tt, tt)) (omega arith)

abbrev box : Machine
box = record {
  from_seed = λ s. record { pubkey = s; sign = λ m. fill 64 9 };
  is_readable = true;
  is_writable = true;
  fresh_seed = key 3;
}

abbrev first_boot : Host
first_boot = record { file = none; db = server }

load_or_create-again_example :
    load_or_create box (load_or_create box first_boot).1
    ≡ (ok (record { pubkey = key 3; sign = λ m. fill 64 9 }), (load_or_create box first_boot).1)
unfolding load_or_create lethe_project.Federation.Identity.start
    lethe_project.Federation.Identity.read_legacy_seed
    lethe_project.Federation.Identity.start_unloaded lethe_project.Federation.Identity.generate
    lethe_project.Federation.Identity.finish
load_or_create-again_example =
    load_or_create-again box first_boot (record { pubkey = key 3; sign = λ m. fill 64 9 }) refl refl
      refl refl

abbrev settings : AdminConfig
settings = record {
  admin_token = some (codes "boot");
  pull_horizon_days = pos 30;
  server_pubkey = some (key 9);
  fresh_token = fill 32 4;
  show_date = λ d. [];
  write_cursors = λ p r. p;
}

abbrev new_peer : AddPeerReq
new_peer = record { server_pubkey = key 2; endpoint = codes "http://b"; label = none }

abbrev disable : DisablePeerReq
disable = record { server_pubkey = key 1; enabled = false }

abbrev bad_token : AppError
bad_token = forbidden "bad admin token"

handlers-refused_example :
    (add_peer open_env noon settings none new_peer server ≡ (err bad_token, server))
    × ((set_peer_enabled open_env noon settings none disable server ≡ (err bad_token, server))
        × ((mint_token open_env noon settings none (codes "x") server ≡ (err bad_token, server))
            × ((revoke_token open_env noon settings none (codes "x") server
                  ≡ (err bad_token, server))
                × ((list_all_peers open_env noon settings none server ≡ (err bad_token, server))
                    × (list_tokens open_env noon settings none server ≡ (err bad_token, server))))))
unfolding require_admin same utf8 lethe_project.Action.fail
handlers-refused_example =
    handlers-refused open_env noon settings none server bad_token new_peer disable (codes "x") refl

require_admin-IsKnown_example :
    IsKnown open_env noon settings (presented_token (some (codes "Bearer boot"))) server
unfolding require_admin same utf8
require_admin-IsKnown_example =
    require_admin-IsKnown open_env noon settings (some (codes "Bearer boot")) server refl

abbrev token_server : Db
token_server = record server {
  admin_tokens = a_token ∷ record a_token { token_hash = codes "other"; label = codes "dev" } ∷ [];
}

verify-revoke_example : same (codes "dev") (codes "ops") ≡ false
unfolding AdminTokens.verify first AdminTokens.revoke update same utf8
verify-revoke_example =
    verify-revoke open_env 20 (codes "other") (codes "ops") (codes "dev") token_server refl

abbrev takedown : Removal
takedown = record {
  post_id = fill 16 7;
  removed_at = 20;
  reason = codes "spam";
  scope = global;
  origin_server_id = none;
  origin_signature = none;
}

insert-IsTombstone_example :
    (v : PostView) × ((post_view open_env
          (λ t. none)
          (fill 16 2)
          (key 9)
          (PostRemovals.insert takedown server).1
          (own_post 7)
        ≡ ok v)
      × IsTombstone open_env (λ t. none) (codes "spam") v)
unfolding PostRemovals.insert any same
insert-IsTombstone_example =
    insert-IsTombstone open_env (λ t. none) takedown server (PostRemovals.insert takedown server).1
      (own_post 7) (fill 16 2) (key 9) refl refl

abbrev complaint : ReportPostReq
complaint = record { reason = some (codes " rude "); pow_nonce = fill 8 0 }

abbrev reported : Db
reported = (report_post open_env noon 0 (fill 16 60) (fill 16 7) complaint server).1

report_post-IsReported_example :
    IsReported open_env noon 0
      (fill 16 60)
      (fill 16 7)
      (fill 8 0)
      (given_reason (some (codes " rude ")))
      server
      reported
unfolding report_post lethe_project.Action.◌>>=◌ lethe_project.Checks.decode any same utf8
    lethe_project.Pow.verify lethe_project.Checks.statement
report_post-IsReported_example =
    report_post-IsReported open_env noon 0 (fill 16 60) (fill 16 7) complaint (fill 16 7) (fill 8 0)
      server reported (record { report_id = fill 16 60 }) refl refl refl

-- ===== src/Posts/Reading.antt =====
-- `list_posts` of crates/lethe-server/src/logic/posts.rs.
use lethe_project.Prelude.{Bytes, Text, List, Option}
use lethe_project.Action.{Action, gets, guard, ◌>>=◌, ◌>>◌}
use lethe_project.Error.{not_found}
use lethe_project.Env.{Env}
use lethe_project.Db.{Db}
use lethe_project.Checks.{decode, statement}
use lethe_project.Threads
use lethe_project.Paging.{ℤ}
use lethe_project.Posts.Requests.{VouchPayload}
use lethe_project.Posts.Listing.{PostView, list_in_thread}

module _ (env : Env) (parse_vouch : Text → Option VouchPayload) where
  unfoldable pub list_posts : Bytes → Text → ℤ → Action Db (List PostView)
  unfolding list_in_thread
  list_posts self_pubkey thread_id_b64 since_seq = do
    thread_id ← decode env thread_id_b64 "thread_id b64"
    is_there ← gets (Threads.exists thread_id)
    guard is_there not_found
    statement (λ s. (list_in_thread env parse_vouch thread_id self_pubkey since_seq 500 s, s))

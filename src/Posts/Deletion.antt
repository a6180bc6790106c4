-- ===== src/Posts/Deletion.antt =====
-- `delete_post` of crates/lethe-server/src/logic/posts.rs.
pub mod Effects
use lethe_project.Prelude.{ℕ, Bool, Option, none, some, Bytes, Text, codes, same, length, ◌==◌}
use lethe_project.Action.{Action, pure, fail, gets, guard, ◌>>=◌, ◌>>◌}
use lethe_project.Error.{bad_request, not_found, forbidden, conflict}
use lethe_project.Env.{Env, Clock}
use lethe_project.Db.{Db}
use lethe_project.Checks.{
  checked, decode, decode_pubkey, decode_sig, check_window, check_nonce, statement,
}
use lethe_project.Crypto.{verify_post_delete}
use lethe_project.Posts.Requests.{DeletePostReq}
use lethe_project.Posts.Queries.{author_pubkey, author_delete}

-- The `match` on the stored key
unfoldable pub check_author : Option (Option Bytes) → Bytes → Action Db (Unit {0})
check_author none pubkey = fail not_found
check_author (some none) pubkey = fail (forbidden "anonymous posts cannot be self-deleted")
check_author (some (some stored)) pubkey =
    guard (same stored pubkey) (forbidden "pubkey does not match the post author")

-- The end of `delete_post`, from the ownership test on
unfoldable pub delete_authored : Clock → Bytes → Bytes → Action Db (Unit {0})
delete_authored clk post_id pubkey = do
  author ← gets (author_pubkey post_id)
  check_author author pubkey
  deleted ← statement (author_delete post_id (codes "deleted by author") clk.today)
  guard deleted (conflict "post is already removed")

unfoldable pub delete_post : Env → Clock → Text → DeletePostReq → Action Db (Unit {0})
delete_post env clk post_id_b64 req = do
  post_id ← decode env post_id_b64 "post_id b64"
  guard (length post_id == 16) (bad_request "post_id length")
  pubkey ← decode env req.pubkey "pubkey b64"
  guard (length pubkey == 32) (bad_request "pubkey length")
  sig ← decode_sig env req.sig "sig b64" "sig length"
  check_window clk req.ts "ts outside ±60s window"
  checked (verify_post_delete env pubkey sig post_id req.ts)
  check_nonce clk (codes "postdel") pubkey req.ts
  delete_authored clk post_id pubkey

-- ===== src/Reports/Effects.antt =====
-- What `report_post` of crates/lethe-server/src/logic/reports.rs changes.
use lethe_project.Prelude.{ℕ, ◌≡◌, true, Option, some, [], ◌∷◌, ◌++◌, Bytes, Text, arith}
use lethe_project.Error.{ok, err, AppError}
use lethe_project.Action.{◌>>=◌}
use lethe_project.Checks.{decode, statement}
use lethe_project.Env.{Env, Clock}
use lethe_project.Db.{Db}
use lethe_project.Pow
use lethe_project.Posts.Queries
use lethe_project.Reports.{
  ReportPostReq, ReportPostResp, report_post, insert, given_reason, is_short, or_empty,
}

-- A report that is accepted, over the state and the one after it
pub record IsReported (env : Env) (clk : Clock) (bits : ℕ) (id : Bytes) (post_id nonce : Bytes)
    (reason : Option Text) (s s' : Db) : Type 0 where
  pub exists : Queries.exists post_id s ≡ true
  pub short : is_short reason ≡ true
  pub work : Pow.verify env post_id (or_empty reason) nonce bits ≡ true
  pub reports :
      s'.reports
      ≡ s.reports
        ++ record { id = id; post_id = post_id; reason_text = reason; reported_at = clk.today } ∷ []
  pub posts : s'.posts ≡ s.posts

-- A report that is refused changes nothing.
pub report_post-error :
    (env : Env) (clk : Clock) (bits : ℕ) (id : Bytes) (t : Text) (req : ReportPostReq) (s s' : Db)
    (e : AppError)
    → report_post env clk bits id t req s ≡ (err e, s')
    → s' ≡ s
unfolding report_post decode statement insert ◌>>=◌
report_post-error env clk bits id t req s s' e h = ground arith

-- A report that is accepted is about a post that exists, has a reason within its bound and the work asked for, and
-- adds one report with the trimmed reason, leaving the posts alone.
pub report_post-IsReported :
    (env : Env) (clk : Clock) (bits : ℕ) (id : Bytes) (t : Text) (req : ReportPostReq)
    (post_id nonce : Bytes) (s s' : Db) (r : ReportPostResp)
    → env.unb64 t ≡ some post_id
    → env.unb64 req.pow_nonce ≡ some nonce
    → report_post env clk bits id t req s ≡ (ok r, s')
    → IsReported env clk bits id post_id nonce (given_reason req.reason) s s'
unfolding report_post decode statement insert ◌>>=◌
report_post-IsReported env clk bits id t req post_id nonce s s' r u n h = record {
  exists = ground arith;
  short = ground arith;
  work = ground arith;
  reports = ground arith;
  posts = ground arith;
}

-- ===== src/Reports.antt =====
-- crates/lethe-server/src/logic/reports.rs and crates/lethe-server/src/db/reports.rs.
pub mod Effects
use lethe_project.Prelude.{
  ℕ, Bool, true, false, not, Option, none, some, List, [], ◌∷◌, ◌++◌, Bytes, Text, utf8, same, leb,
  ◌==◌, length, if◌then◌else◌,
}
use lethe_project.Table.{any}
use lethe_project.Error.{Result, ok, err, DbError, database, bad_request, not_found}
use lethe_project.Action.{Action, pure, gets, guard, ◌>>=◌, ◌>>◌}
use lethe_project.Checks.{decode, statement}
use lethe_project.Env.{Env, Clock}
use lethe_project.Db.{Db, Date, Report}
use lethe_project.Moderation.Words.{trim}
use lethe_project.Pow
use lethe_project.Posts.Queries

abbrev pub max_reason : ℕ
max_reason = 500

pub record ReportPostReq : Type 0 where
  pub reason : Option Text
  pub pow_nonce : Text

pub record ReportPostResp : Type 0 where
  pub report_id : Text

unfoldable pub is_report : Bytes → Report → Bool
is_report id r = same r.id id

-- CHECK (reason_text IS NULL OR length(reason_text) <= 500), which counts characters
unfoldable pub is_storable : Option Text → Bool
is_storable none = true
is_storable (some r) = leb (length r) 500

-- `id` is the fresh id, the primary key. `post_id` REFERENCES posts(id).
unfoldable pub insert : Bytes → Date → Bytes → Option Text → Db → Result DbError (Unit {0}) × Db
unfolding Queries.is_post is_report is_storable
insert id today post_id reason_text s =
    if not (is_storable reason_text)
    then (err (database "reports_reason_text_check"), s)
    else if any (is_report id) s.reports
    then (err (database "reports_pkey"), s)
    else if not (any (Queries.is_post post_id) s.posts)
    then (err (database "reports_post_id_fkey"), s)
    else (
      ok tt,
      record s {
        reports =
            s.reports
            ++ record { id = id; post_id = post_id; reason_text = reason_text; reported_at = today }
              ∷ [];
      },
    )

-- `as_deref().map(str::trim).filter(…)`
unfoldable pub given_reason : Option Text → Option Text
unfolding trim
given_reason none = none
given_reason (some r) = elim (trim r) [ [] ↦ none | c ∷ cs ↦ some (c ∷ cs) ]

unfoldable pub is_short : Option Text → Bool
is_short none = true
is_short (some r) = leb (length (utf8 r)) max_reason

abbrev pub or_empty : Option Text → Text
or_empty none = []
or_empty (some r) = r

-- `id` is the fresh id of the report.
unfoldable pub report_post :
    Env → Clock → ℕ → Bytes → Text → ReportPostReq → Action Db ReportPostResp
unfolding given_reason is_short insert Queries.exists
report_post env clk pow_bits id post_id_b64 req = do
  post_id ← decode env post_id_b64 "post_id b64"
  guard (length post_id == 16) (bad_request "post_id length")
  is_there ← gets (Queries.exists post_id)
  guard is_there not_found
  let reason : Option Text = given_reason req.reason
  guard (is_short reason) (bad_request "reason length")
  nonce ← decode env req.pow_nonce "pow_nonce b64"
  guard (Pow.verify env post_id (or_empty reason) nonce pow_bits) (bad_request "insufficient pow")
  statement (insert id clk.today post_id reason)
  pure (record { report_id = env.b64 id })

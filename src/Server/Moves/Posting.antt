-- ===== src/Server/Moves/Posting.antt =====
-- `delete_post` of crates/lethe-server/src/logic/posts.rs, `report_post` of logic/reports.rs and the statements on
-- posts, and the tables that they leave alone.
use lethe_project.Prelude.{ℕ, arith, Bytes, Text, Option, none, some}
use lethe_project.Error.{Result, DbError}
use lethe_project.Action.{modify}
use lethe_project.Action.Keeps.{Keeps, Keeps-modify}
use lethe_project.Checks.{statement}
use lethe_project.Checks.Keeps.{check_rules, Keeps-statement, Keeps-check_nonce}
use lethe_project.Env.{Env, Clock}
use lethe_project.Db.{Db, Date}
use lethe_project.Nonces.{record_nonce}
use lethe_project.Posts.Queries
use lethe_project.Posts.Queries.{NewPost, author_delete, signer_first_seq}
use lethe_project.Posts.Requests.{DeletePostReq}
use lethe_project.Posts.Deletion.{check_author, delete_authored, delete_post}
use lethe_project.Reports
use lethe_project.Reports.{ReportPostReq, report_post}
use lethe_project.Server.Moves.{Aside, Aside-trans}

-- A self-delete keeps what recording a nonce and leaving the rooms and the nonces alone keep.
module _ {P : Db → Type 0}
    (on_nonce : (now : ℕ) (kind : Text) (pk : Bytes) (ts : ℕ) (s : Db)
      → P s
      → P (record_nonce now kind pk ts s).1)
    (others : (s t : Db) → Aside s t → P s → P t) where
  pub delete-Keeps :
      (id : Bytes) (reason : Text) (day : Date) → Keeps P (statement (author_delete id reason day))
  delete-Keeps id reason day = Keeps-statement (author_delete id reason day) λ s.
      others s (author_delete id reason day s).1 (
        unfold author_delete in
        record {
          tables = record { rooms = ground arith; members = ground arith; rosters = ground arith };
          nonces = ground arith;
        })

  pub author-Keeps : (a : Option (Option Bytes)) (pk : Bytes) → Keeps P (check_author a pk)
  unfolding check_author
  author-Keeps none pk = search check_rules
  author-Keeps (some none) pk = search check_rules
  author-Keeps (some (some k)) pk = search check_rules

  pub delete_post-Keeps :
      (env : Env) (clk : Clock) (id : Text) (req : DeletePostReq)
      → Keeps P (delete_post env clk id req)
  unfolding delete_post delete_authored
  delete_post-Keeps env clk id req =
      let nonce = Keeps-check_nonce on_nonce clk in
      search (check_rules, nonce, delete-Keeps, author-Keeps) depth 30

module _ (s : Db) where
  -- A step from anywhere that leaves the room tables alone
  pub onward :
      {A : Type 0} (f : Db → A × Db) → ((t : Db) → Aside t (f t).1) → Keeps (Aside s) (modify f)
  onward f h = Keeps-modify f (λ t k. Aside-trans k (h t))

  stated :
      {A : Type 0} (f : Db → Result DbError A × Db)
      → ((t : Db) → Aside t (f t).1)
      → Keeps (Aside s) (statement f)
  stated f h = Keeps-statement f (λ t k. Aside-trans k (h t))

  pub insert-Keeps : (id : Bytes) (p : NewPost) → Keeps (Aside s) (statement (Queries.insert id p))
  insert-Keeps id p = stated (Queries.insert id p) λ t.
      unfold Queries.insert in
      record {
        tables = record { rooms = ground arith; members = ground arith; rosters = ground arith };
        nonces = ground arith;
      }

  pub first_seq-Keeps :
      (thread : Bytes) (pk : Bytes) → Keeps (Aside s) (statement (signer_first_seq thread pk))
  first_seq-Keeps thread pk = stated (signer_first_seq thread pk) λ t.
      unfold signer_first_seq in
      record {
        tables = record { rooms = ground arith; members = ground arith; rosters = ground arith };
        nonces = ground arith;
      }

  report-Keeps :
      (id : Bytes) (today : Date) (post : Bytes) (reason : Option Text)
      → Keeps (Aside s) (statement (Reports.insert id today post reason))
  report-Keeps id today post reason = stated (Reports.insert id today post reason) λ t.
      unfold Reports.insert in
      record {
        tables = record { rooms = ground arith; members = ground arith; rosters = ground arith };
        nonces = ground arith;
      }

  pub report_post-Keeps :
      (env : Env) (clk : Clock) (pow_bits : ℕ) (id : Bytes) (post : Text) (req : ReportPostReq)
      → Keeps (Aside s) (report_post env clk pow_bits id post req)
  unfolding report_post
  report_post-Keeps env clk pow_bits id post req = search (check_rules, report-Keeps) depth 30

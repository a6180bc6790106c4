-- ===== src/Checks.antt =====
-- The steps that the handlers of crates/lethe-server/src/logic repeat: decode, test the length and
-- the clock, verify, record the nonce.
pub mod Keeps
pub mod Ensures
use lethe_project.Prelude.{ℕ, Bytes, Text, String, length, ◌==◌}
use lethe_project.Error.{Result, ok, err, DbError, AppError, bad_request, conflict, db, crypto}
use lethe_project.Action.{Action, pure, guard, or_fail, modify, ◌>>=◌, ◌>>◌}
use lethe_project.Env.{Env, Clock}
use lethe_project.Crypto.{Checked}
use lethe_project.Db.{Db}
use lethe_project.Nonces.{in_window, record_nonce}

-- `?` on a `CryptoError`
unfoldable pub checked : Checked → Action Db (Unit {0})
checked (ok u) s = (ok tt, s)
checked (err e) s = (err (crypto e), s)

-- `?` on a `sqlx::Error`
abbrev pub from_db : {A : Type 0} → Result DbError A × Db → Result AppError A × Db
from_db (ok a, s) = (ok a, s)
from_db (err e, s) = (err (db e), s)

unfoldable pub statement : {A : Type 0} → (Db → Result DbError A × Db) → Action Db A
statement f s = from_db (f s)

-- `decode_pubkey`
unfoldable pub decode_pubkey : Env → Text → String → Action Db Bytes
decode_pubkey env s label = do
  v ← or_fail (env.unb64 s) (bad_request label)
  guard (length v == 32) (bad_request label)
  pure v

-- `ids::unb64(s).map_err(|_| AppError::BadRequest(label))?`
unfoldable pub decode : Env → Text → String → Action Db Bytes
decode env s label = or_fail (env.unb64 s) (bad_request label)

-- a signature with its length test, `SIG_LEN`
unfoldable pub decode_sig : Env → Text → String → String → Action Db Bytes
decode_sig env s label length_label = do
  v ← decode env s label
  guard (length v == 64) (bad_request length_label)
  pure v

unfoldable pub check_window : Clock → ℕ → String → Action Db (Unit {0})
check_window clk ts label = guard (in_window clk.now_ts ts) (bad_request label)

-- `if !db::nonces::record(…).await? { return Err(…) }`
unfoldable pub check_nonce : Clock → Text → Bytes → ℕ → Action Db (Unit {0})
check_nonce clk kind sig_pubkey ts = do
  is_new ← modify (record_nonce clk.now_ts kind sig_pubkey ts)
  guard is_new (conflict "replay: this signature was already used")

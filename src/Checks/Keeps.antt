-- ===== src/Checks/Keeps.antt =====
-- The checks of a handler keep every invariant; recording a nonce keeps those that the statement
-- keeps.
use lethe_project.Prelude.{◌≡◌, refl, ℕ, Bytes, Text, String}
use lethe_project.Error.{Result, ok, err, DbError}
use lethe_project.Action.Keeps.{Keeps, Keeps-modify, keeps_rules}
use lethe_project.Env.{Env, Clock}
use lethe_project.Crypto.{Checked}
use lethe_project.Db.{Db}
use lethe_project.Nonces.{record_nonce}
use lethe_project.Checks.{
  checked, from_db, statement, decode, decode_pubkey, decode_sig, check_window, check_nonce,
}

module _ {P : Db → Type 0} where
  pub Keeps-checked : (c : Checked) → Keeps P (checked c)
  unfolding checked
  Keeps-checked (ok u) = record { at = λ s h. h }
  Keeps-checked (err e) = record { at = λ s h. h }

  pub Keeps-decode : (env : Env) (t : Text) (l : String) → Keeps P (decode env t l)
  unfolding decode
  Keeps-decode env t l = search keeps_rules

  pub Keeps-decode_pubkey : (env : Env) (t : Text) (l : String) → Keeps P (decode_pubkey env t l)
  unfolding decode_pubkey
  Keeps-decode_pubkey env t l = search keeps_rules

  pub Keeps-decode_sig : (env : Env) (t : Text) (l m : String) → Keeps P (decode_sig env t l m)
  unfolding decode_sig
  Keeps-decode_sig env t l m = search (keeps_rules, Keeps-decode)

  pub Keeps-check_window : (clk : Clock) (ts : ℕ) (l : String) → Keeps P (check_window clk ts l)
  unfolding check_window
  Keeps-check_window clk ts l = search keeps_rules

  pub Keeps-check_nonce :
      ((now : ℕ) (kind : Text) (pk : Bytes) (ts : ℕ) (s : Db)
        → P s
        → P (record_nonce now kind pk ts s).1)
      → (clk : Clock) (kind : Text) (pk : Bytes) (ts : ℕ) → Keeps P (check_nonce clk kind pk ts)
  unfolding check_nonce
  Keeps-check_nonce k clk kind pk ts =
      search
        (keeps_rules, Keeps-modify (record_nonce clk.now_ts kind pk ts) (k clk.now_ts kind pk ts))

pub from_db-snd : {A : Type 0} (r : Result DbError A × Db) → (from_db r).1 ≡ r.1
from_db-snd (ok a, s) = refl
from_db-snd (err e, s) = refl

module _ {A : Type 0} {P : Db → Type 0} where
  pub Keeps-statement :
      (f : Db → Result DbError A × Db) → ((s : Db) → P s → P (f s).1) → Keeps P (statement f)
  unfolding statement
  Keeps-statement f k = record { at = λ s h. rw (from_db-snd (f s)) (k s h) }

pub ruleset check_rules = (
  keeps_rules, Keeps-checked, Keeps-decode, Keeps-decode_pubkey, Keeps-decode_sig,
  Keeps-check_window,
)

-- ===== src/Checks/Ensures.antt =====
-- A handler that goes on after a decode step has the decoded value.
use lethe_project.Prelude.{◌≡◌, some, Bytes, Text, String, arith}
use lethe_project.Action.{Action, ◌>>=◌}
use lethe_project.Action.Ensures.{Ensures}
use lethe_project.Env.{Env}
use lethe_project.Db.{Db}
use lethe_project.Checks.{decode, decode_pubkey}

module _ {B : Type 0} {Q : B → Db → Type 0} (env : Env) (t : Text) (v : Bytes) where
  pub Ensures-decode :
      (l : String) (f : Bytes → Action Db B)
      → env.unb64 t ≡ some v
      → Ensures Q (f v)
      → Ensures Q (decode env t l >>= f)
  unfolding decode ◌>>=◌
  Ensures-decode l f h k = record { at = λ s b s' e. k.at s b s' (ground arith) }

  pub Ensures-decode_pubkey :
      (l : String) (f : Bytes → Action Db B)
      → env.unb64 t ≡ some v
      → Ensures Q (f v)
      → Ensures Q (decode_pubkey env t l >>= f)
  unfolding decode_pubkey ◌>>=◌
  Ensures-decode_pubkey l f h k = record { at = λ s b s' e. k.at s b s' (ground arith) }

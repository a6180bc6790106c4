-- ===== src/Posts/Writing/Keeps.antt =====
-- The checks of the writing handlers of crates/lethe-server/src/logic/posts.rs keep every invariant.
use lethe_project.Prelude.{ℕ, Option, none, some, List, [], ◌∷◌, Bytes, Text, String}
use lethe_project.Action.{Action}
use lethe_project.Action.Keeps.{Keeps, Keeps-bind, Keeps-guard, Keeps-pure}
use lethe_project.Checks.Keeps.{check_rules, Keeps-decode}
use lethe_project.Env.{Env, Clock}
use lethe_project.Db.{Db}
use lethe_project.Posts.Requests.{VouchPayload}
use lethe_project.Posts.Writing.{
  Posting, decode_array, decode_ring, decode_scalars, validate_vouch, check_signature, check_vouch,
}

module _ {P : Db → Type 0} (env : Env) (clk : Clock) (io : Posting) where
  array-Keeps : (n : ℕ) (t : Text) (l : String) → Keeps P (decode_array env clk io n t l)
  unfolding decode_array
  array-Keeps n t l = search check_rules

  ring-Keeps : (ps : List Text) → Keeps P (decode_ring env clk io ps)
  unfolding decode_ring
  ring-Keeps [] = search check_rules
  ring-Keeps (p ∷ ps) =
      Keeps-bind _ _ (Keeps-decode env p _) λ b.
        Keeps-bind _ _ (Keeps-guard _ _) λ u. Keeps-bind _ _ (ring-Keeps ps) λ rest. Keeps-pure _

  scalars-Keeps : (xs : List Text) → Keeps P (decode_scalars env clk io xs)
  unfolding decode_scalars
  scalars-Keeps [] = search check_rules
  scalars-Keeps (x ∷ xs) =
      Keeps-bind _ _ (array-Keeps 32 x _)
        λ b. Keeps-bind _ _ (scalars-Keeps xs) λ rest. Keeps-pure _

  vouch-Keeps :
      (v : VouchPayload) (thread : Bytes) (body : Text)
      → Keeps P (validate_vouch env clk io v thread body)
  unfolding validate_vouch
  vouch-Keeps v thread body = search (check_rules, ring-Keeps, array-Keeps, scalars-Keeps) depth 40

  pub signature-Keeps :
      (claim : Action Db (Unit {0})) (thread : Bytes) (body : Text) (pk sig : Option Text)
      → Keeps P claim
      → Keeps P (check_signature env clk io claim thread body pk sig)
  unfolding check_signature
  signature-Keeps claim thread body none none k = search check_rules
  signature-Keeps claim thread body (some pk) (some sig) k = search check_rules depth 20
  signature-Keeps claim thread body (some pk) none k = search check_rules
  signature-Keeps claim thread body none (some sig) k = search check_rules

  pub check_vouch-Keeps :
      (claim : Action Db (Unit {0})) (v : Option VouchPayload) (thread : Bytes) (body : Text)
      → Keeps P claim
      → Keeps P (check_vouch env clk io claim v thread body)
  unfolding check_vouch
  check_vouch-Keeps claim none thread body k = search check_rules
  check_vouch-Keeps claim (some v) thread body k = search (check_rules, vouch-Keeps) depth 20

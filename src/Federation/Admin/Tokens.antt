-- ===== src/Federation/Admin/Tokens.antt =====
-- Revoked and missing tokens: crates/lethe-server/src/federation/route.rs and db/admin_tokens.rs.
use lethe_project.Prelude.{
  ◌≡◌, ◌≢◌, refl, subst, false, Option, none, some, List, [], ◌∷◌, Bytes, Text, same, arith,
  map_option,
}
use lethe_project.Prelude.{
  true, Bool, sym, ◌∙◌, Bool-cases, inl, inr, ◌⊎◌, utf8, not, ◌&&◌, &&-eq-true, is_some,
  Option-cases,
}
use lethe_project.Table.{first, update}
use lethe_project.Error.{ok, err, AppError}
use lethe_project.Action.{◌>>=◌, fail}
use lethe_project.Env.{Env, Clock}
use lethe_project.Db.{Db, Date, AdminToken}
use lethe_project.AdminTokens
use lethe_project.Federation.Admin.Access.{constant_time_eq-same}
use lethe_project.Federation.Admin.{
  AdminConfig, is_bootstrap, presented_token, constant_time_eq, refuse_admin, has_active_token,
  require_admin, add_peer, mint_token, revoke_token, set_peer_enabled, list_all_peers, list_tokens,
  AddPeerReq, DisablePeerReq,
}

-- The token that a hash finds after the label was revoked has another label.
first-revoked :
    (today : Date) (h : Bytes) (label : Text) (ts : List AdminToken) (t : AdminToken)
    → first (AdminTokens.is_valid h) (
        update
          (AdminTokens.is_active label)
          (λ (u : AdminToken). record u { revoked_at = some today })
          ts)
      ≡ some t
    → same t.label label ≡ false
unfolding first update AdminTokens.is_valid AdminTokens.is_active
first-revoked today h label [] t k = ground arith
first-revoked today h label (u ∷ us) t k = ground (arith, first-revoked today h label us t)

label-of :
    (label : Text) (o : Option AdminToken) (found : Text)
    → ((t : AdminToken) → o ≡ some t → same t.label label ≡ false)
    → map_option (λ (t : AdminToken). t.label) o ≡ some found
    → same found label ≡ false
label-of label none found k h = ground arith
label-of label (some t) found k h =
    let e : t.label ≡ found = ground arith in subst (λ x. same x label ≡ false) e (k t refl)

-- After the tokens of a label are revoked, no token is accepted under that label.
pub verify-revoke :
    (env : Env) (today : Date) (token label found : Text) (s : Db)
    → AdminTokens.verify env token (AdminTokens.revoke today label s).1 ≡ some found
    → same found label ≡ false
unfolding AdminTokens.verify AdminTokens.revoke
verify-revoke env today token label found s h =
    label-of label _ found (first-revoked today (AdminTokens.hash env token) label s.admin_tokens) h

module _ (env : Env) (clk : Clock) (cfg : AdminConfig) where
  -- Where the admin test refuses a caller, all six admin handlers answer with its error and change nothing.
  pub handlers-refused :
      (header : Option Text) (s : Db) (e : AppError) (peer : AddPeerReq) (disable : DisablePeerReq)
      (label : Text)
      → require_admin env clk cfg header s ≡ (err e, s)
      → (add_peer env clk cfg header peer s ≡ (err e, s))
        × ((set_peer_enabled env clk cfg header disable s ≡ (err e, s))
            × ((mint_token env clk cfg header label s ≡ (err e, s))
                × ((revoke_token env clk cfg header label s ≡ (err e, s))
                    × ((list_all_peers env clk cfg header s ≡ (err e, s))
                        × (list_tokens env clk cfg header s ≡ (err e, s))))))
  unfolding add_peer set_peer_enabled mint_token revoke_token list_all_peers list_tokens ◌>>=◌
  handlers-refused header s e peer disable label h =
      (rw h refl, (rw h refl, (rw h refl, (rw h refl, (rw h refl, rw h refl)))))

  -- The token that was set up, or one of the table
  abbrev pub IsKnown : Text → Db → Type 0
  IsKnown presented s =
      ((c : Text) × ((cfg.admin_token ≡ some c)
          × ((same c [] ≡ false) × (same (utf8 c) (utf8 presented) ≡ true))))
      ⊎ ((same presented [] ≡ false)
          × ((label : Text) × (AdminTokens.verify env presented s ≡ some label)))

  bootstrap-known :
      (token : Option Text) (presented : Text)
      → is_bootstrap token presented ≡ true
      → (c : Text) × ((token ≡ some c)
          × ((same c [] ≡ false) × (same (utf8 c) (utf8 presented) ≡ true)))
  unfolding is_bootstrap
  bootstrap-known none presented h = ground arith
  bootstrap-known (some c) presented h =
      let (a, b) = &&-eq-true (not (same c [])) (constant_time_eq (utf8 c) (utf8 presented)) h in
      (c, (refl, (ground arith, sym (constant_time_eq-same (utf8 c) (utf8 presented)) ∙ b)))

  refuse_admin-error :
      (token : Option Text) (b : Bool) (s : Db) → (refuse_admin env clk cfg token b s).0 ≢ ok tt
  unfolding refuse_admin fail
  refuse_admin-error none false s h = ground arith
  refuse_admin-error none true s h = ground arith
  refuse_admin-error (some t) b s h = ground arith

  token-known :
      (presented : Text) (s : Db)
      → (not (same presented []) && is_some (AdminTokens.verify env presented s)) ≡ true
      → (same presented [] ≡ false)
        × ((label : Text) × (AdminTokens.verify env presented s ≡ some label))
  token-known presented s h =
      let (a, b) = &&-eq-true (not (same presented [])) _ h in
      (
        ground arith,
        elim (Option-cases (AdminTokens.verify env presented s)) [
          | inl t ↦ absurd (ground arith)
          | inr (label, t) ↦ (label, t)
        ],
      )

  -- A caller is let in only with the configured token, which is not empty, or with a token that is not empty
  -- and whose hash is in a row that is not revoked.
  pub require_admin-IsKnown :
      (header : Option Text) (s : Db)
      → (require_admin env clk cfg header s).0 ≡ ok tt
      → IsKnown (presented_token header) s
  unfolding require_admin
  require_admin-IsKnown header s h =
      elim (Bool-cases (is_bootstrap cfg.admin_token (presented_token header))) [
        | inl t ↦ inl (bootstrap-known cfg.admin_token (presented_token header) t)
        | inr t ↦
            elim (Bool-cases (
              not (same (presented_token header) [])
              && is_some (AdminTokens.verify env (presented_token header) s))) [
                | inl u ↦ inr (token-known (presented_token header) s u)
                | inr u ↦
                    let refused =
                      refuse_admin-error cfg.admin_token (has_active_token env clk cfg s) s in
                    absurd (ground arith)
              ]
      ]

-- ===== src/Server/Moves/Admin.antt =====
-- The reading and the admin handlers of crates/lethe-server/src/federation/route.rs and logic/posts.rs, and the
-- tables that they leave alone.
use lethe_project.Prelude.{
  ◌≡◌, refl, subst, sym, arith, Bool, true, false, Bytes, Text, String, Option, none, some,
}
use lethe_project.Error.{Result, ok, err, DbError}
use lethe_project.Action.{fail, modify}
use lethe_project.Action.Keeps.{Keeps, Keeps-modify, keeps_rules}
use lethe_project.Checks.{statement}
use lethe_project.Checks.Keeps.{check_rules, Keeps-statement}
use lethe_project.Env.{Env, Clock}
use lethe_project.Db.{Db}
use lethe_project.AdminTokens
use lethe_project.Paging.{ℤ}
use lethe_project.Posts.Requests.{VouchPayload}
use lethe_project.Posts.Reading
use lethe_project.Federation.Peers.{upsert_peer, set_enabled}
use lethe_project.Federation.Admin.{
  AdminConfig, AddPeerReq, DisablePeerReq, refuse_admin, has_active_token, require_admin,
  decode_key, minted, add_peer, set_peer_enabled, mint_token, revoke_token, list_all_peers,
  list_tokens, list_peers_public,
}
use lethe_project.Server.Moves.{Aside, Aside-trans}

module _ (s : Db) (env : Env) (clk : Clock) (cfg : AdminConfig) where
  refuse-state : (t : Option Text) (b : Bool) (x : Db) → (refuse_admin env clk cfg t b x).1 ≡ x
  unfolding refuse_admin fail
  refuse-state none false x = refl
  refuse-state none true x = refl
  refuse-state (some t) b x = refl

  pub admin-state : (header : Option Text) (x : Db) → (require_admin env clk cfg header x).1 ≡ x
  unfolding require_admin
  admin-state header x =
      ground (arith, refuse-state cfg.admin_token (has_active_token env clk cfg x) x)

  admin-Keeps : (header : Option Text) → Keeps (Aside s) (require_admin env clk cfg header)
  admin-Keeps header = record { at = λ x h. subst (Aside s) (sym (admin-state header x)) h }

  key-Keeps : (t : Text) (l : String) → Keeps (Aside s) (decode_key env clk cfg t l)
  unfolding decode_key
  key-Keeps t l = search keeps_rules

  upsert-Keeps :
      (pk : Bytes) (endpoint : Text) (label : Option Text) (c : Option Bytes)
      → Keeps (Aside s) (modify (λ x. (tt, upsert_peer clk.today pk endpoint label c x)))
  upsert-Keeps pk endpoint label c =
      Keeps-modify (λ x. (tt, upsert_peer clk.today pk endpoint label c x))
        λ x h. Aside-trans h (
          unfold upsert_peer in
          record {
            tables = record { rooms = refl; members = refl; rosters = refl };
            nonces = refl;
          })

  enable-Keeps : (pk : Bytes) (b : Bool) → Keeps (Aside s) (modify (set_enabled pk b))
  enable-Keeps pk b = Keeps-modify (set_enabled pk b) λ x h. Aside-trans h (
      unfold set_enabled in
      record { tables = record { rooms = refl; members = refl; rosters = refl }; nonces = refl })

  revoke-Keeps : (label : Text) → Keeps (Aside s) (modify (AdminTokens.revoke clk.today label))
  revoke-Keeps label = Keeps-modify (AdminTokens.revoke clk.today label) λ x h. Aside-trans h (
      unfold AdminTokens.revoke in
      record { tables = record { rooms = refl; members = refl; rosters = refl }; nonces = refl })

  minted-snd : (r : Result DbError (Unit {0}) × Db) → (minted env clk cfg r).1 ≡ r.1
  minted-snd (ok u, x) = refl
  minted-snd (err e, x) = refl

  mint-Keeps :
      (label token : Text)
      → Keeps (Aside s) (λ x. minted env clk cfg (AdminTokens.insert env clk.today label token x))
  mint-Keeps label token = record {
    at = λ x h.
        subst (Aside s) (sym (minted-snd (AdminTokens.insert env clk.today label token x))) (
          Aside-trans h (
            unfold AdminTokens.insert in
            record {
              tables = record {
                rooms = ground arith;
                members = ground arith;
                rosters = ground arith;
              };
              nonces = ground arith;
            }));
  }

  pub add_peer-Keeps :
      (header : Option Text) (req : AddPeerReq) → Keeps (Aside s) (add_peer env clk cfg header req)
  unfolding add_peer
  add_peer-Keeps header req = search (keeps_rules, admin-Keeps, key-Keeps, upsert-Keeps) depth 20

  pub set_peer-Keeps :
      (header : Option Text) (req : DisablePeerReq)
      → Keeps (Aside s) (set_peer_enabled env clk cfg header req)
  unfolding set_peer_enabled
  set_peer-Keeps header req = search (keeps_rules, admin-Keeps, key-Keeps, enable-Keeps) depth 20

  pub mint_token-Keeps :
      (header : Option Text) (label : Text) → Keeps (Aside s) (mint_token env clk cfg header label)
  unfolding mint_token
  mint_token-Keeps header label = search (keeps_rules, admin-Keeps, mint-Keeps) depth 20

  pub revoke_token-Keeps :
      (header : Option Text) (label : Text)
      → Keeps (Aside s) (revoke_token env clk cfg header label)
  unfolding revoke_token
  revoke_token-Keeps header label = search (keeps_rules, admin-Keeps, revoke-Keeps) depth 20

  pub peers-Keeps : (header : Option Text) → Keeps (Aside s) (list_all_peers env clk cfg header)
  unfolding list_all_peers
  peers-Keeps header = search (keeps_rules, admin-Keeps)

  pub tokens-Keeps : (header : Option Text) → Keeps (Aside s) (list_tokens env clk cfg header)
  unfolding list_tokens
  tokens-Keeps header = search (keeps_rules, admin-Keeps)

  pub public-Keeps : Keeps (Aside s) (list_peers_public env clk cfg)
  unfolding list_peers_public
  public-Keeps = search keeps_rules

module _ (s : Db) (env : Env) (parse_vouch : Text → Option VouchPayload) where
  listed-Keeps :
      {A : Type 0} (f : Db → Result DbError A) → Keeps (Aside s) (statement (λ x. (f x, x)))
  listed-Keeps f = Keeps-statement (λ x. (f x, x)) (λ x h. h)

  pub posts-Keeps :
      (self : Bytes) (thread : Text) (since : ℤ)
      → Keeps (Aside s) (Reading.list_posts env parse_vouch self thread since)
  unfolding Reading.list_posts
  posts-Keeps self thread since = search (check_rules, listed-Keeps)

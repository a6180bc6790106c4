-- ===== src/Cli.antt =====
-- crates/lethe-cli/src/main.rs: what a command sends to the server, and what it prints. The views that
-- it reads have the fields of the server's.
pub mod Arguments
use lethe_project.Prelude.{
  ℕ, ◌-◌, ◌≡◌, refl, Bool, true, false, ◌&&◌, ◌==◌, Option, none, some, List, [], ◌∷◌, ◌++◌, zero,
  suc, Bytes, Text, codes, length, map, if◌then◌else◌, arith,
}
use lethe_project.Error.{Result, ok, err, ◌>>=◌, ◌>>◌}
use lethe_project.Config.{unwrap_or}
use lethe_project.Federation.Pull.Cycle.{trim_slashes}
use lethe_project.Federation.Admin.{AddPeerReq, DisablePeerReq, PeerView, TokenView, MintTokenResp}

pub data PeersCmd : Type 0 where
  list : PeersCmd
  add : (pubkey endpoint : Text) (label : Option Text) → PeersCmd
  disable enable : (pubkey : Text) → PeersCmd

pub data TokensCmd : Type 0 where
  list : TokensCmd
  add revoke : (label : Text) → TokensCmd

pub data Cmd : Type 0 where
  info : Cmd
  peers : PeersCmd → Cmd
  tokens : TokensCmd → Cmd

pub record Cli : Type 0 where
  pub url : Option Text
  pub token : Option Text
  pub cmd : Cmd

-- The argument of `json`, where there is one
pub data Body : Type 0 where
  empty : Body
  peer : AddPeerReq → Body
  peer_state : DisablePeerReq → Body
  label_only : Text → Body

-- `bearer` is the argument of `bearer_auth`.
pub record Request : Type 0 where
  pub is_post : Bool
  pub url : Text
  pub bearer : Option Text
  pub body : Body

-- A line of the standard output, or of the standard error
pub data Line : Type 0 where
  out note : Text → Line

-- reqwest and serde_json, with the texts of their errors: `build`, `send` with `error_for_status`,
-- and `json` for the types that are read.
pub record Http : Type 0 where
  pub build : Result Text (Unit {0})
  pub send : Request → Result Text Bytes
  pub pretty : Bytes → Result Text Text
  pub read_peers : Bytes → Result Text (List PeerView)
  pub read_tokens : Bytes → Result Text (List TokenView)
  pub read_minted : Bytes → Result Text MintTokenResp

unfoldable pub ok_or : Option Text → Text → Result Text Text
ok_or none e = err e
ok_or (some t) e = ok t

unfoldable pub spaces : ℕ → Text
spaces zero = []
spaces (suc n) = 32 ∷ spaces n

-- `{t:n}`
unfoldable pub pad : ℕ → Text → Text
unfolding spaces
pad n t = t ++ spaces (n - length t)

unfoldable pub no_token : Text
no_token = codes "LETHE_ADMIN_TOKEN not set"

unfoldable pub get_request : Text → Text → Option Text → Request
get_request url path bearer = record {
  is_post = false;
  url = url ++ path;
  bearer = bearer;
  body = empty;
}

unfoldable pub post_request : Text → Text → Text → Body → Request
post_request url path token body = record {
  is_post = true;
  url = url ++ path;
  bearer = some token;
  body = body;
}

unfoldable pub peer_line : PeerView → Line
unfolding unwrap_or pad
peer_line p = out (
    pad 9 (if p.enabled then codes "enabled" else codes "disabled")
    ++ (codes "  "
        ++ (pad 24 (unwrap_or p.label (codes "-"))
            ++ (codes "  " ++ (p.endpoint ++ (codes "  " ++ p.server_pubkey))))))

unfoldable pub token_status : Option Text → Text
token_status none = codes "active"
token_status (some d) = codes "revoked " ++ d

unfoldable pub token_line : TokenView → Line
unfolding pad token_status
token_line t = out (
    pad 24 t.label
    ++ (codes " " ++ (pad 24 t.created_at ++ (codes " " ++ token_status t.revoked_at))))

-- The lines of a list, or the one line that says that it is empty
unfoldable pub lines_or : {A : Type 0} → Text → (A → Line) → List A → List Line
lines_or text line [] = out text ∷ []
lines_or text line (x ∷ xs) = line x ∷ map line xs

unfoldable pub bool_text : Bool → Text
bool_text b = if b then codes "true" else codes "false"

module _ (http : Http) where
  unfoldable pub set_peer : Text → Option Text → Text → Bool → Result Text (List Line)
  unfolding ok_or no_token post_request bool_text
  set_peer url token pubkey enabled = do
    token ← ok_or token no_token
    http.send (
        post_request url (codes "/api/federation/peers/disable") token
          (peer_state (record { server_pubkey = pubkey; enabled = enabled })))
    ok (out (codes "ok: peer " ++ (pubkey ++ (codes " → enabled=" ++ bool_text enabled))) ∷ [])

  unfoldable pub run_info : Text → Result Text (List Line)
  unfolding get_request
  run_info url = do
    r ← http.send (get_request url (codes "/api/federation/info") none)
    text ← http.pretty r
    ok (out text ∷ [])

  unfoldable pub run_peers : Text → Option Text → PeersCmd → Result Text (List Line)
  unfolding ok_or no_token get_request post_request lines_or peer_line set_peer
  run_peers url token list = do
    token ← ok_or token no_token
    r ← http.send (get_request url (codes "/api/federation/peers") (some token))
    views ← http.read_peers r
    ok (lines_or (codes "(no peers)") peer_line views)
  run_peers url token (add pubkey endpoint label) = do
    token ← ok_or token no_token
    http.send (
        post_request url (codes "/api/federation/peers") token
          (peer (record { server_pubkey = pubkey; endpoint = endpoint; label = label })))
    ok (out (codes "ok: peer added/updated") ∷ [])
  run_peers url token (disable pubkey) = set_peer url token pubkey false
  run_peers url token (enable pubkey) = set_peer url token pubkey true

  unfoldable pub run_tokens : Text → Option Text → TokensCmd → Result Text (List Line)
  unfolding ok_or no_token get_request post_request lines_or token_line
  run_tokens url token list = do
    token ← ok_or token no_token
    r ← http.send (get_request url (codes "/api/federation/admin/tokens") (some token))
    views ← http.read_tokens r
    ok (lines_or (codes "(no tokens)") token_line views)
  run_tokens url token (add text) = do
    token ← ok_or token no_token
    r ← http.send (post_request url (codes "/api/federation/admin/tokens") token (label_only text))
    minted ← http.read_minted r
    ok (
        out (codes "label: " ++ minted.label)
        ∷ out (codes "token: " ++ minted.token)
        ∷ note []
        ∷ note (codes "This is the only time the token will be shown. Save it now.")
        ∷ [])
  run_tokens url token (revoke text) = do
    token ← ok_or token no_token
    http.send
        (post_request url (codes "/api/federation/admin/tokens/revoke") token (label_only text))
    ok (out (codes "ok: revoked " ++ text) ∷ [])

  unfoldable pub run_cmd : Text → Option Text → Cmd → Result Text (List Line)
  unfolding run_info run_peers run_tokens
  run_cmd url token info = run_info url
  run_cmd url token (peers c) = run_peers url token c
  run_cmd url token (tokens c) = run_tokens url token c

  -- `main`, after the arguments are parsed
  unfoldable pub main : Cli → Result Text (List Line)
  unfolding ok_or trim_slashes run_cmd
  main cli = do
    url ← ok_or cli.url (codes "LETHE_ADMIN_URL not set (or pass --url)")
    http.build
    run_cmd (trim_slashes url) cli.token cli.cmd

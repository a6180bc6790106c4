-- ===== src/Cli/Arguments.antt =====
-- The address and the token that crates/lethe-cli/src/main.rs is called with.
use lethe_project.Prelude.{◌≢◌, ◌≡◌, refl, Option, none, some, [], ◌∷◌, ◌++◌, Text}
use lethe_project.Error.{err}
use lethe_project.Federation.Pull.Cycle.{trim_slashes}
use lethe_project.Cli.{
  PeersCmd, TokensCmd, Cmd, info, peers, tokens, run_cmd, Cmd, Http, list, add, disable, enable,
  revoke, no_token, ok_or, run_peers, run_tokens, set_peer, main,
}

trim-slash : (t : Text) → trim_slashes (t ++ 47 ∷ []) ≡ trim_slashes t
unfolding trim_slashes
trim-slash [] = refl
trim-slash (c ∷ t) = rw (trim-slash t) refl

-- A slash at the end of the server's address changes nothing.
main-slash :
    (http : Http) (t : Text) (token : Option Text) (c : Cmd)
    → main http (record { url = some (t ++ 47 ∷ []); token = token; cmd = c })
      ≡ main http (record { url = some t; token = token; cmd = c })
unfolding main ok_or
main-slash http t token c = rw (trim-slash t) refl

module _ (http : Http) (url : Text) where
  peers-no_token : (c : PeersCmd) → run_peers http url none c ≡ err no_token
  unfolding run_peers set_peer ok_or
  peers-no_token list = refl
  peers-no_token (add pubkey endpoint label) = refl
  peers-no_token (disable pubkey) = refl
  peers-no_token (enable pubkey) = refl

  tokens-no_token : (c : TokensCmd) → run_tokens http url none c ≡ err no_token
  unfolding run_tokens ok_or
  tokens-no_token list = refl
  tokens-no_token (add label) = refl
  tokens-no_token (revoke label) = refl

  -- Without a token every command but `info` is refused with the text that says so.
  cmd-no_token : (c : Cmd) → c ≢ info → run_cmd http url none c ≡ err no_token
  unfolding run_cmd
  cmd-no_token info h = absurd (h refl)
  cmd-no_token (peers c) h = peers-no_token c
  cmd-no_token (tokens c) h = tokens-no_token c

-- ===== src/Server/Replay/Handlers.antt =====
-- What each endpoint of a signed request does at its gates: logic/rooms.rs and logic/posts.rs of
-- crates/lethe-server/src.
pub mod Writers
use lethe_project.Prelude.{ℕ, ◌≤◌, ◌<◌, ◌^◌, ◌≡◌, some, Bytes, Text, codes, ◌++◌}
use lethe_project.Action.Ensures.{Ensures, Ensures-bind}
use lethe_project.Checks.Keeps.{check_rules}
use lethe_project.Checks.Ensures.{Ensures-decode, Ensures-decode_pubkey}
use lethe_project.Env.{Env, Clock}
use lethe_project.Nonces.{i64_mod}
use lethe_project.Nonces.Replay.Requests.{Accepted}
use lethe_project.Posts.Requests.{DeletePostReq}
use lethe_project.Posts.Deletion
use lethe_project.Rooms.Requests.{
  CreateRoomReq, LeaveRoomReq, WrapKeyReq, MembersReq, ListMessagesReq, RemoveMemberReq,
}
use lethe_project.Rooms.Creation
use lethe_project.Rooms.Membership
use lethe_project.Rooms.Talk
use lethe_project.Rooms.Removal
use lethe_project.Rooms.Calls.Stable.{
  soft_remove-Keeps, grant-Keeps, wraps-Keeps, rekey-Keeps, create_room-Keeps, bytes-Keeps,
  pubkey-Keeps, sig-Keeps, provenance-Keeps, check_list-Keeps,
}
use lethe_project.Server.Moves.Posting.{delete-Keeps, author-Keeps}
use lethe_project.Server.Replay.Known.{Known, Known-stable, Known-others}
use lethe_project.Server.Replay.Gates.{
  Bars, Bars-bind, Bars-decode, Bars-decode_pubkey, Bars-window, Bars-nonce, Ensures-window,
  Ensures-nonce,
}

module _ (env : Env) (clk : Clock) (pk : Bytes) (hi : clk.now_ts < 2 ^ 62) where
  -- The request under its kind, accepted now
  abbrev pub taken : Text → ℕ → Accepted
  taken kind ts = record { kind = kind; sig_pubkey = pk; ts = ts; at = clk.now_ts }

  pub leave-Known :
      60 ≤ clk.now_ts
      → (room : Text) (req : LeaveRoomReq) → env.unb64 req.sig_pubkey ≡ some pk
      → req.ts < i64_mod
      → Ensures
          (λ b s. Known (taken (codes "leave") req.ts) clk.now_ts s)
          (Membership.leave env clk room req)
  unfolding Membership.leave
  leave-Known lo room req h r =
      let stable = Known-stable (taken (codes "leave") req.ts) clk.now_ts in
      let removed = soft_remove-Keeps stable env clk in
      search
        (
          Ensures-decode_pubkey env req.sig_pubkey pk,
          Ensures-window,
          Ensures-nonce,
          Ensures-bind,
          check_rules,
          removed,
        )
        depth 60

  pub leave-Bars :
      (a : Accepted) (room : Text) (req : LeaveRoomReq)
      → env.unb64 req.sig_pubkey ≡ some pk
      → codes "leave" ≡ a.kind
      → pk ≡ a.sig_pubkey
      → req.ts ≡ a.ts
      → Bars (Known a clk.now_ts) (Membership.leave env clk room req)
  unfolding Membership.leave
  leave-Bars a room req h ek ep et =
      search
        (Bars-decode_pubkey env req.sig_pubkey pk, Bars-window, Bars-nonce, Bars-bind, check_rules)
        depth 60

  pub wrap-Known :
      60 ≤ clk.now_ts
      → (room : Text) (req : WrapKeyReq) → env.unb64 req.inviter_sig_pubkey ≡ some pk
      → req.inviter_ts < i64_mod
      → Ensures
          (λ b s. Known (taken (codes "wrap:" ++ req.for_box_pubkey) req.inviter_ts) clk.now_ts s)
          (Membership.wrap env clk room req)
  unfolding Membership.wrap
  wrap-Known lo room req h r =
      let stable =
        Known-stable (taken (codes "wrap:" ++ req.for_box_pubkey) req.inviter_ts) clk.now_ts in
      let granted = grant-Keeps stable env clk in
      search
        (
          Ensures-decode_pubkey env req.inviter_sig_pubkey pk,
          Ensures-window,
          Ensures-nonce,
          Ensures-bind,
          check_rules,
          granted,
        )
        depth 60

  pub wrap-Bars :
      (a : Accepted) (room : Text) (req : WrapKeyReq)
      → env.unb64 req.inviter_sig_pubkey ≡ some pk
      → codes "wrap:" ++ req.for_box_pubkey ≡ a.kind
      → pk ≡ a.sig_pubkey
      → req.inviter_ts ≡ a.ts
      → Bars (Known a clk.now_ts) (Membership.wrap env clk room req)
  unfolding Membership.wrap
  wrap-Bars a room req h ek ep et =
      search
        (
          Bars-decode_pubkey env req.inviter_sig_pubkey pk,
          Bars-window,
          Bars-nonce,
          Bars-bind,
          check_rules,
        )
        depth 60

  pub members-Known :
      60 ≤ clk.now_ts
      → (room : Text) (req : MembersReq) → env.unb64 req.requester_sig_pubkey ≡ some pk
      → req.ts < i64_mod
      → Ensures
          (λ b s. Known (taken (codes "members") req.ts) clk.now_ts s)
          (Talk.members_authed env clk room req)
  unfolding Talk.members_authed
  members-Known lo room req h r =
      search
        (
          Ensures-decode_pubkey env req.requester_sig_pubkey pk,
          Ensures-window,
          Ensures-nonce,
          Ensures-bind,
          check_rules,
        )
        depth 60

  pub members-Bars :
      (a : Accepted) (room : Text) (req : MembersReq)
      → env.unb64 req.requester_sig_pubkey ≡ some pk
      → codes "members" ≡ a.kind
      → pk ≡ a.sig_pubkey
      → req.ts ≡ a.ts
      → Bars (Known a clk.now_ts) (Talk.members_authed env clk room req)
  unfolding Talk.members_authed
  members-Bars a room req h ek ep et =
      search
        (
          Bars-decode_pubkey env req.requester_sig_pubkey pk,
          Bars-window,
          Bars-nonce,
          Bars-bind,
          check_rules,
        )
        depth 60

  pub list-Known :
      60 ≤ clk.now_ts
      → (room : Text) (req : ListMessagesReq) → env.unb64 req.requester_sig_pubkey ≡ some pk
      → req.ts < i64_mod
      → Ensures
          (λ b s. Known (taken (codes "list") req.ts) clk.now_ts s)
          (Talk.list_messages_authed env clk room req)
  unfolding Talk.list_messages_authed
  list-Known lo room req h r =
      search
        (
          Ensures-decode_pubkey env req.requester_sig_pubkey pk,
          Ensures-window,
          Ensures-nonce,
          Ensures-bind,
          check_rules,
        )
        depth 60

  pub list-Bars :
      (a : Accepted) (room : Text) (req : ListMessagesReq)
      → env.unb64 req.requester_sig_pubkey ≡ some pk
      → codes "list" ≡ a.kind
      → pk ≡ a.sig_pubkey
      → req.ts ≡ a.ts
      → Bars (Known a clk.now_ts) (Talk.list_messages_authed env clk room req)
  unfolding Talk.list_messages_authed
  list-Bars a room req h ek ep et =
      search
        (
          Bars-decode_pubkey env req.requester_sig_pubkey pk,
          Bars-window,
          Bars-nonce,
          Bars-bind,
          check_rules,
        )
        depth 60

-- ===== src/Server/Replay/Handlers/Writers.antt =====
-- The gates of `remove_and_rekey` and `create` of logic/rooms.rs and of `delete_post` of logic/posts.rs, in
-- crates/lethe-server/src.
use lethe_project.Prelude.{◌≤◌, ◌<◌, ◌^◌, ◌≡◌, some, Bytes, Text, codes}
use lethe_project.Action.Ensures.{Ensures, Ensures-bind}
use lethe_project.Checks.Keeps.{check_rules}
use lethe_project.Checks.Ensures.{Ensures-decode, Ensures-decode_pubkey}
use lethe_project.Env.{Env, Clock}
use lethe_project.Nonces.{i64_mod}
use lethe_project.Nonces.Replay.Requests.{Accepted}
use lethe_project.Posts.Requests.{DeletePostReq}
use lethe_project.Posts.Deletion
use lethe_project.Rooms.Requests.{CreateRoomReq, RemoveMemberReq}
use lethe_project.Rooms.Creation
use lethe_project.Rooms.Removal
use lethe_project.Rooms.Calls.Stable.{
  wraps-Keeps, rekey-Keeps, create_room-Keeps, bytes-Keeps, pubkey-Keeps, sig-Keeps,
  provenance-Keeps, check_list-Keeps,
}
use lethe_project.Server.Moves.Posting.{delete-Keeps, author-Keeps}
use lethe_project.Server.Replay.Known.{Known, Known-stable, Known-others}
use lethe_project.Server.Replay.Gates.{
  Bars, Bars-bind, Bars-decode, Bars-decode_pubkey, Bars-window, Bars-nonce, Ensures-window,
  Ensures-nonce,
}
use lethe_project.Server.Replay.Handlers.{taken}

module _ (env : Env) (clk : Clock) (pk : Bytes) (hi : clk.now_ts < 2 ^ 62) where
  pub remove-Known :
      60 ≤ clk.now_ts
      → (room : Text) (req : RemoveMemberReq) → env.unb64 req.remover_sig_pubkey ≡ some pk
      → req.ts < i64_mod
      → Ensures
          (λ b s. Known (taken env clk pk hi (codes "remove") req.ts) clk.now_ts s)
          (Removal.remove_and_rekey env clk room req)
  unfolding Removal.remove_and_rekey
  remove-Known lo room req h r =
      let stable = Known-stable (taken env clk pk hi (codes "remove") req.ts) clk.now_ts in
      let wraps = wraps-Keeps stable env clk in
      let rekeyed = rekey-Keeps stable env clk in
      search
        (
          Ensures-decode_pubkey env req.remover_sig_pubkey pk,
          Ensures-window,
          Ensures-nonce,
          Ensures-bind,
          check_rules,
          wraps,
          rekeyed,
        )
        depth 60

  pub remove-Bars :
      (a : Accepted) (room : Text) (req : RemoveMemberReq)
      → env.unb64 req.remover_sig_pubkey ≡ some pk
      → codes "remove" ≡ a.kind
      → pk ≡ a.sig_pubkey
      → req.ts ≡ a.ts
      → Bars (Known a clk.now_ts) (Removal.remove_and_rekey env clk room req)
  unfolding Removal.remove_and_rekey
  remove-Bars a room req h ek ep et =
      search
        (
          Bars-decode_pubkey env req.remover_sig_pubkey pk,
          Bars-window,
          Bars-nonce,
          Bars-bind,
          check_rules,
        )
        depth 60

  pub create-Known :
      60 ≤ clk.now_ts
      → (id : Bytes) (code : Text) (req : CreateRoomReq)
      → env.unb64 req.creator_sig_pubkey ≡ some pk
      → req.creator_create_ts < i64_mod
      → Ensures
          (λ b s. Known (taken env clk pk hi (codes "create") req.creator_create_ts) clk.now_ts s)
          (Creation.create env clk id code req)
  unfolding Creation.create
  create-Known lo id code req h r =
      let stable =
        Known-stable (taken env clk pk hi (codes "create") req.creator_create_ts) clk.now_ts in
      let created = create_room-Keeps stable env clk in
      let bytes = bytes-Keeps stable env clk in
      let keys = pubkey-Keeps stable env clk in
      let sigs = sig-Keeps stable env clk in
      let provenance = provenance-Keeps stable env clk in
      let lists = check_list-Keeps stable env clk in
      search
        (
          Ensures-decode_pubkey env req.creator_sig_pubkey pk,
          Ensures-window,
          Ensures-nonce,
          Ensures-bind,
          check_rules,
          created,
          bytes,
          keys,
          sigs,
          provenance,
          lists,
        )
        depth 60

  pub create-Bars :
      (a : Accepted) (id : Bytes) (code : Text) (req : CreateRoomReq)
      → env.unb64 req.creator_sig_pubkey ≡ some pk
      → codes "create" ≡ a.kind
      → pk ≡ a.sig_pubkey
      → req.creator_create_ts ≡ a.ts
      → Bars (Known a clk.now_ts) (Creation.create env clk id code req)
  unfolding Creation.create
  create-Bars a id code req h ek ep et =
      search
        (
          Bars-decode_pubkey env req.creator_sig_pubkey pk,
          Bars-window,
          Bars-nonce,
          Bars-bind,
          check_rules,
        )
        depth 60

  pub delete-Known :
      60 ≤ clk.now_ts
      → (id : Text) (req : DeletePostReq) → env.unb64 req.pubkey ≡ some pk
      → req.ts < i64_mod
      → Ensures
          (λ b s. Known (taken env clk pk hi (codes "postdel") req.ts) clk.now_ts s)
          (Deletion.delete_post env clk id req)
  unfolding Deletion.delete_post Deletion.delete_authored
  delete-Known lo id req h r =
      let stable = Known-stable (taken env clk pk hi (codes "postdel") req.ts) clk.now_ts in
      let others = Known-others (taken env clk pk hi (codes "postdel") req.ts) clk.now_ts in
      let deleted = delete-Keeps stable.on_nonce others in
      let authored = author-Keeps stable.on_nonce others in
      search
        (
          Ensures-decode env req.pubkey pk,
          Ensures-window,
          Ensures-nonce,
          Ensures-bind,
          check_rules,
          deleted,
          authored,
        )
        depth 60

  pub delete-Bars :
      (a : Accepted) (id : Text) (req : DeletePostReq)
      → env.unb64 req.pubkey ≡ some pk
      → codes "postdel" ≡ a.kind
      → pk ≡ a.sig_pubkey
      → req.ts ≡ a.ts
      → Bars (Known a clk.now_ts) (Deletion.delete_post env clk id req)
  unfolding Deletion.delete_post
  delete-Bars a id req h ek ep et =
      search (Bars-decode env req.pubkey pk, Bars-window, Bars-nonce, Bars-bind, check_rules) depth
        60

-- ===== src/Federation/Pull/Unsigned.antt =====
-- The author's key of an event without an author's signature: `apply_post_event` of
-- crates/lethe-server/src/federation/pull.rs.
use lethe_project.Prelude.{
  ℕ, ◌+◌, ◌≡◌, refl, true, false, Option, none, some, Bytes, same_refl, arith,
}
use lethe_project.Table.{any}
use lethe_project.Table.Rows.{any-append}
use lethe_project.Env.{Env, Clock}
use lethe_project.Db.{Db}
use lethe_project.Moderation.{Judge, allow, evaluate}
use lethe_project.Threads
use lethe_project.Posts.Queries.{
  has_origin, is_post, signed_by, in_thread, holds, max_seq, pubkey_signed_in_thread,
}
use lethe_project.Posts.Federated.{insert_federated, federated_row}
use lethe_project.Federation.Wire.{PostEventFields}
use lethe_project.Federation.Events.{Calendar}
use lethe_project.Federation.Pull.Ingest.{
  admit_post, admit_judged, store_post, store_in_thread, is_author_valid, federated_post,
}

module _ (env : Env) (cal : Calendar) (clk : Clock) (judge : Judge) where
  row-signed :
      (local_id : Bytes) (seq : ℕ) (d : PostEventFields) (pk : Bytes)
      → d.author_pubkey ≡ some pk
      → signed_by d.thread_id pk (federated_row local_id seq (federated_post env cal clk judge d))
        ≡ true
  unfolding signed_by in_thread holds federated_row
  row-signed local_id seq d pk h = rw (h, same_refl d.thread_id, same_refl pk) refl

  unsigned-valid :
      (thread_id body : Bytes) (pk sig : Option Bytes)
      → sig ≡ none
      → is_author_valid env cal clk judge thread_id body pk sig ≡ true
  unfolding is_author_valid
  unsigned-valid thread_id body none sig h = refl
  unsigned-valid thread_id body (some pk) none h = refl
  unsigned-valid thread_id body (some pk) (some sig) h = ground arith

  -- An event with the key of an author and no signature of theirs is stored as signed by that key, where moderation
  -- allows the body, the thread exists, the post is new and the local id is free.
  pub admit_post-signed :
      (local_id action_id : Bytes) (d : PostEventFields) (pk : Bytes) (s : Db)
      → d.author_pubkey ≡ some pk
      → d.author_signature ≡ none
      → evaluate judge clk.now_ts d.board_id d.body s ≡ allow
      → Threads.exists d.thread_id s ≡ true
      → any (has_origin d.origin_server_id d.origin_post_id) s.posts ≡ false
      → any (is_post local_id) s.posts ≡ false
      → pubkey_signed_in_thread d.thread_id pk
          (admit_post env cal clk judge local_id action_id d s).1
        ≡ true
  unfolding admit_post admit_judged store_post store_in_thread insert_federated
      Threads.ensure_for_federation Threads.exists pubkey_signed_in_thread
  admit_post-signed local_id action_id d pk s h k v t o i =
      let seq = max_seq d.thread_id s.posts + 1 in
      let row = row-signed local_id seq d pk h in
      let stored =
        any-append (signed_by d.thread_id pk) s.posts
          (federated_row local_id seq (federated_post env cal clk judge d)) row in
      rw (unsigned-valid d.thread_id d.body d.author_pubkey d.author_signature k, v, t, o, i, t)
        stored

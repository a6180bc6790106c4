-- ===== src/Posts/Queries/Numbers.antt =====
-- The number that `insert` gives a post in its thread.
use lethe_project.Prelude.{
  ℕ, ◌+◌, ◌≤◌, ◌++◌, refl, ◌<◌, ◌≡◌, true, List, [], ◌∷◌, Bytes, All, All-weaken, arith,
}
use lethe_project.Table.{select}
use lethe_project.Table.Every.{All-select_where}
use lethe_project.Error.{ok}
use lethe_project.Db.{Db, Post}
use lethe_project.Posts.Queries.{insert, in_thread, max_seq, NewPost, post_row}

seq-le-max :
    (thread_id : Bytes) (ps : List Post) (top : ℕ)
    → max_seq thread_id ps ≤ top
    → All (λ p. in_thread thread_id p ≡ true → p.seq ≤ top) ps
unfolding max_seq
seq-le-max thread_id [] top h = tt
seq-le-max thread_id (p ∷ ps) top h =
    (λ t. ground arith, seq-le-max thread_id ps top (ground arith))

-- Where `insert` succeeds, the posts are the earlier ones and then one row, in the thread of the new post, with the
-- id and the number that it answers, and that number is larger than those of all the posts that the thread had.
pub insert-seq_grows :
    (post_id : Bytes) (new : NewPost) (id : Bytes) (seq : ℕ) (s s' : Db)
    → insert post_id new s ≡ (ok (id, seq), s')
    → ((r : Post) × (s'.posts ≡ s.posts ++ r ∷ [])
        × (r.id ≡ id)
        × (r.thread_id ≡ new.thread_id)
        × (r.seq ≡ seq))
      × All (λ p. p.seq < seq) (select (in_thread new.thread_id) s.posts)
unfolding insert post_row
insert-seq_grows post_id new id seq s s' h = (
  (
    post_row post_id (max_seq new.thread_id s.posts + 1) new,
    ground arith,
    ground arith,
    refl,
    ground arith,
  ),
  All-select_where (λ p. p.seq < seq) (in_thread new.thread_id) s.posts
      (All-weaken (λ p. in_thread new.thread_id p ≡ true → p.seq < seq) s.posts
        (λ p le t. ground (arith, le t))
        (seq-le-max new.thread_id s.posts (max_seq new.thread_id s.posts) (omega arith))),
)

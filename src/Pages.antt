-- ===== src/Pages.antt =====
-- The pages of crates/lethe-server/src/routes/pages.rs that read the database, as the records that
-- their templates are filled with, routes/boards.rs, and `list_for_board` of db/threads.rs.
use lethe_project.Prelude.{
  ℕ, ◌%◌, Bool, Option, none, some, List, [], ◌∷◌, Bytes, Text, codes, same, take, map,
  if◌then◌else◌,
}
use lethe_project.Table.{any, first, select}
use lethe_project.Error.{Result, ok, err, AppError, bad_request, not_found, ◌>>=◌}
use lethe_project.Env.{Env}
use lethe_project.Db.{Db, Date, Board, Thread, ModerationAction}
use lethe_project.Threads.{get_title}
use lethe_project.Moderation.Log.{list_recent}
use lethe_project.Paging.{later, page}

unfoldable pub is_board : Text → Board → Bool
is_board id b = same b.id id

-- `pow_bits` is an i16, cut to a u8.
unfoldable pub board_pow_bits : Text → Db → Result AppError ℕ
unfolding is_board
board_pow_bits id s = elim (first (is_board id) s.boards) [
  | none ↦ err not_found
  | some b ↦ ok (b.pow_bits % 256)
]

pub record BoardView : Type 0 where
  pub id : Text
  pub title : Text
  pub pow_bits : ℕ

-- `get` of routes/boards.rs
unfoldable pub get_board : Text → Db → Result AppError BoardView
unfolding is_board
get_board id s = elim (first (is_board id) s.boards) [
  | none ↦ err not_found
  | some b ↦ ok (record { id = b.id; title = b.title; pow_bits = b.pow_bits % 256 })
]

unfoldable pub thread_key : Thread → Date × Bytes
thread_key t = (t.created_at, t.id)

unfoldable pub list_for_board : Text → ℕ → Db → List Thread
unfolding thread_key page
list_for_board board_id limit s =
    page later thread_key none limit (select (λ (t : Thread). same t.board_id board_id) s.threads)

pub record ThreadEntry : Type 0 where
  pub id_b64 : Text
  pub title : Text

pub record BoardPage : Type 0 where
  pub board_id : Text
  pub pow_bits : ℕ
  pub threads : List ThreadEntry

pub record ThreadPage : Type 0 where
  pub board_id : Text
  pub thread_id_b64 : Text
  pub title : Text
  pub pow_bits : ℕ

pub record FeedPage : Type 0 where
  pub categories : List (Text × Text)
  pub selected_category : Text
  pub selected_sort : Text
  pub pow_bits : ℕ

pub record ModerationEntry : Type 0 where
  pub id_short : Text
  pub board_id : Text
  pub body_hash_short : Text
  pub reason : Text
  pub decided_at : Text

-- The slugs and the labels
abbrev pub categories : List (Text × Text)
categories =
    (codes "government", codes "Government")
    ∷ (codes "economy", codes "Economy")
    ∷ (codes "science_tech", codes "Science & Tech")
    ∷ (codes "all_other", codes "All other")
    ∷ []

unfoldable pub select_category : Option Text → Text
select_category none = []
select_category (some c) = if any (λ (e : Text × Text). same e.0 c) categories then c else []

unfoldable pub select_sort : Option Text → Text
select_sort none = codes "last_comment"
select_sort (some s) = if same s (codes "newest") then codes "newest" else codes "last_comment"

-- The em dash that stands for no board
unfoldable pub board_or_dash : Option Text → Text
board_or_dash none = 8212 ∷ []
board_or_dash (some b) = b

module _ (env : Env) where
  unfoldable pub board : Text → Db → Result AppError BoardPage
  unfolding board_pow_bits list_for_board
  board board_id s = do
    pow_bits ← board_pow_bits board_id s
    ok (record {
      board_id = board_id;
      pow_bits = pow_bits;
      threads =
          map (λ (t : Thread). record { id_b64 = env.b64 t.id; title = t.title })
            (list_for_board board_id 100 s);
    })

  unfoldable pub thread : Text → Text → Db → Result AppError ThreadPage
  unfolding board_pow_bits get_title
  thread board_id thread_id_b64 s = elim (env.unb64 thread_id_b64) [
    | none ↦ err (bad_request "thread id")
    | some thread_id ↦ elim (get_title thread_id s) [
      | none ↦ err not_found
      | some title ↦ do
        pow_bits ← board_pow_bits board_id s
        ok (record {
          board_id = board_id;
          thread_id_b64 = thread_id_b64;
          title = title;
          pow_bits = pow_bits;
        })
    ]
  ]

  unfoldable pub index : ℕ → Option Text → Option Text → FeedPage
  unfolding select_category select_sort
  index default_pow_bits cat sort = record {
    categories = categories;
    selected_category = select_category cat;
    selected_sort = select_sort sort;
    pow_bits = default_pow_bits;
  }

  -- An id has 16 bytes and a hash 32, so the slices are inside their texts.
  unfoldable pub moderation_log : (Date → Text) → Db → List ModerationEntry
  unfolding list_recent board_or_dash
  moderation_log show_date s =
      map
        (λ (r : ModerationAction). record {
          id_short = take 8 (env.b64 r.id);
          board_id = board_or_dash r.board_id;
          body_hash_short = take 12 (env.b64 r.body_hash);
          reason = r.reason;
          decided_at = show_date r.decided_at;
        })
        (list_recent 200 none s)

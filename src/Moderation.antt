-- ===== src/Moderation.antt =====
-- crates/lethe-server/src/moderation: the rules of rules.rs, the pipeline of mod.rs and the log of
-- crates/lethe-server/src/db/moderation.rs.
pub mod Words
pub mod Duplicates
pub mod Log
use lethe_project.Prelude.{
  ℕ, ◌+◌, ◌*◌, Bool, true, false, not, ◌&&◌, ◌||◌, Option, none, some, List, [], ◌∷◌, ◌++◌, Bytes,
  Text, String, codes, utf8, same, ltb, length, if◌then◌else◌,
}
use lethe_project.Table.{any}
use lethe_project.Env.{Env, Clock}
use lethe_project.Db.{Db, Date, Post, Thread, ModerationAction}
use lethe_project.Moderation.Words.{
  trim, split_ascii_whitespace, contains, to_ascii_lowercase, starts_with,
}

pub data Reason : Type 0 where
  spam_duplicate spam_link_density spam_too_short malware_link harassment_or_hate ai_classifier :
      Reason

pub data Verdict : Type 0 where
  allow : Verdict
  reject : Reason → Verdict

unfoldable pub code : Reason → Text
code spam_duplicate = codes "spam_duplicate"
code spam_link_density = codes "spam_link_density"
code spam_too_short = codes "spam_too_short"
code malware_link = codes "malware_link"
code harassment_or_hate = codes "harassment_or_hate"
code ai_classifier = codes "ai_classifier"

-- The `rustrict` analysis of a text, and the classifier that the operator plugs in.
pub record Judge : Type 0 where
  pub is_severe : Text → Bool
  pub is_offensive : Text → Bool
  pub is_mean : Text → Bool
  pub classify : Text → Option Reason

-- `NoopClassifier`
unfoldable pub noop_classify : Text → Option Reason
noop_classify body = none

abbrev pub malware_host_blocklist : List Text
malware_host_blocklist = []

unfoldable pub has_blocklisted_host : Text → Bool
has_blocklisted_host body = any (λ h. contains h (to_ascii_lowercase body)) malware_host_blocklist

unfoldable pub is_link : Text → Bool
is_link tok = starts_with (codes "http://") tok || starts_with (codes "https://") tok

unfoldable pub count_links : List Text → ℕ
count_links [] = 0
count_links (tok ∷ toks) = if is_link tok then count_links toks + 1 else count_links toks

unfoldable pub non_link_chars : List Text → ℕ
non_link_chars [] = 0
non_link_chars (tok ∷ toks) =
    if is_link tok then non_link_chars toks else length tok + non_link_chars toks

unfoldable pub is_link_density_spam : Text → Bool
unfolding count_links non_link_chars
is_link_density_spam body =
    if ltb (count_links (split_ascii_whitespace body)) 4
    then false
    else ltb (non_link_chars (split_ascii_whitespace body)) 80

unfoldable pub is_severe_harassment : Judge → Text → Bool
is_severe_harassment judge body =
    judge.is_severe body && (judge.is_offensive body || judge.is_mean body)

-- The Julian day number of 1970-01-01.
abbrev pub unix_epoch_day : ℕ
unix_epoch_day = 2440588

-- posts.created_at > now() - interval '24 hours', where the DATE is the midnight that begins it, in
-- UTC; both sides are moved by a day and by the epoch.
unfoldable pub is_recent : ℕ → Date → Bool
is_recent now created_at = ltb (now + unix_epoch_day * 86400) ((created_at + 1) * 86400)

-- The JOIN of posts and threads.
unfoldable pub is_duplicate_of : ℕ → Text → Text → Db → Post → Bool
unfolding is_recent
is_duplicate_of now board_id body s p =
    any (λ (t : Thread). same t.id p.thread_id && same t.board_id board_id) s.threads
    && (same p.body body && is_recent now p.created_at)

unfoldable pub is_recent_duplicate : ℕ → Text → Text → Db → Bool
unfolding is_duplicate_of
is_recent_duplicate now board_id body s = any (is_duplicate_of now board_id body s) s.posts

unfoldable pub evaluate_rules : Judge → ℕ → Text → Text → Db → Option Reason
evaluate_rules judge now board_id body s =
    if ltb (length (trim body)) 3
    then some spam_too_short
    else if has_blocklisted_host body
    then some malware_link
    else if is_link_density_spam body
    then some spam_link_density
    else if is_severe_harassment judge body
    then some harassment_or_hate
    else if is_recent_duplicate now board_id body s
    then some spam_duplicate
    else none

unfoldable pub evaluate : Judge → ℕ → Text → Text → Db → Verdict
evaluate judge now board_id body s = elim (evaluate_rules judge now board_id body s) [
  | some reason ↦ reject reason
  | none ↦ elim (judge.classify body) [ some reason ↦ reject reason | none ↦ allow ]
]

-- `id` is the fresh id.
unfoldable pub log_reject : Env → Clock → Bytes → Option Text → Text → Reason → Db → Db
log_reject env clk id board_id body reason s = record s {
  moderation_actions =
      s.moderation_actions
      ++ record {
        id = id;
        board_id = board_id;
        body_hash = env.sha256 (utf8 body);
        reason = code reason;
        decided_at = clk.today;
      }
        ∷ [];
}

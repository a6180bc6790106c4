-- ===== src/AdminTokens.antt =====
-- crates/lethe-server/src/db/admin_tokens.rs.
use lethe_project.Prelude.{
  ℕ, Bool, ◌&&◌, ◌||◌, Option, none, some, List, [], ◌∷◌, ◌++◌, Bytes, Text, same, utf8, is_none,
  ltb, ◌==◌, lex_lt, map_option, if◌then◌else◌,
}
use lethe_project.Table.{any, first, count, update, order_by}
use lethe_project.Error.{Result, ok, err, DbError, database}
use lethe_project.Env.{Env}
use lethe_project.Db.{Db, Date, AdminToken}

unfoldable pub hash : Env → Text → Bytes
hash env token = env.sha256 (utf8 token)

unfoldable pub has_hash : Bytes → AdminToken → Bool
has_hash h t = same t.token_hash h

-- The hash is the primary key.
unfoldable pub insert : Env → Date → Text → Text → Db → Result DbError (Unit {0}) × Db
unfolding hash has_hash
insert env today label token s =
    if any (has_hash (hash env token)) s.admin_tokens
    then (err (database "admin_tokens_pkey"), s)
    else (
      ok tt,
      record s {
        admin_tokens =
            s.admin_tokens
            ++ record {
              token_hash = hash env token;
              label = label;
              created_at = today;
              revoked_at = none;
            }
              ∷ [];
      },
    )

unfoldable pub is_valid : Bytes → AdminToken → Bool
unfolding has_hash
is_valid h t = has_hash h t && is_none t.revoked_at

unfoldable pub verify : Env → Text → Db → Option Text
unfolding hash is_valid
verify env token s =
    map_option (λ (t : AdminToken). t.label) (first (is_valid (hash env token)) s.admin_tokens)

unfoldable pub is_active : Text → AdminToken → Bool
is_active label t = same t.label label && is_none t.revoked_at

unfoldable pub revoke : Date → Text → Db → ℕ × Db
unfolding is_active
revoke today label s = (
  count (is_active label) s.admin_tokens,
  record s {
    admin_tokens =
        update (is_active label) (λ (t : AdminToken). record t { revoked_at = some today })
          s.admin_tokens;
  },
)

-- `TokenRow`, in the order of the query; it leaves out the hash.
unfoldable pub token_before : AdminToken → AdminToken → Bool
token_before t u =
    ltb t.created_at u.created_at || (t.created_at == u.created_at && lex_lt t.label u.label)

unfoldable pub list : Db → List AdminToken
unfolding token_before order_by
list s = order_by token_before s.admin_tokens

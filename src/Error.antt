-- ===== src/Error.antt =====
-- crates/lethe-server/src/error.rs, the error types of crypto.rs and of sqlx as far as the handlers
-- tell them apart, and Rust's `Result`.
use lethe_project.Prelude.{◌≡◌, refl, arith, ℕ, List, [], ◌∷◌, String}

pub data Result {ℓ} (E A : Type ℓ) : Type ℓ where
  ok : A → Result E A
  err : E → Result E A

pub data CryptoError : Type 0 where
  bad_pubkey bad_signature verify_failed : CryptoError

-- A constraint by its name, a row that is not there, a column that does not decode, and the text of a protocol error.
pub data DbError : Type 0 where
  database : String → DbError
  row_not_found column_decode : DbError
  protocol : String → DbError

pub data AppError : Type 0 where
  bad_request forbidden conflict internal : String → AppError
  not_found : AppError
  db : DbError → AppError
  crypto : CryptoError → AppError

-- The body `{ "error": code, "message": … }` with its status.
pub record Response : Type 0 where
  pub status : ℕ
  pub code : String
  pub message : List String

infixl 5 ◌>>=◌ ◌>>◌
abbrev pub ◌>>=◌ {ℓ} : {E A B : Type ℓ} → Result E A → (A → Result E B) → Result E B
ok a >>= f = f a
err e >>= f = err e

abbrev pub ◌>>◌ {ℓ} : {E A B : Type ℓ} → Result E A → Result E B → Result E B
m >> n = m >>= λ _. n

pub bind-ok {ℓ} :
    {E A B : Type ℓ} (m : Result E A) (f : A → Result E B) (b : B)
    → (m >>= f) ≡ ok b
    → (a : A) × ((m ≡ ok a) × (f a ≡ ok b))
bind-ok (ok a) f b h = (a, (refl, h))
bind-ok (err e) f b h = ground arith

-- `CryptoError`'s Display
describe : CryptoError → String
describe bad_pubkey = "malformed public key"
describe bad_signature = "malformed signature"
describe verify_failed = "signature does not verify"

-- The message as the pieces that Display writes one after the other.
unfoldable pub into_response : AppError → Response
unfolding describe
into_response (bad_request m) = record {
  status = 400;
  code = "bad_request";
  message = "bad request: " ∷ m ∷ [];
}
into_response not_found = record { status = 404; code = "not_found"; message = "not found" ∷ [] }
into_response (forbidden m) = record {
  status = 403;
  code = "forbidden";
  message = "forbidden: " ∷ m ∷ [];
}
into_response (conflict m) = record {
  status = 409;
  code = "conflict";
  message = "conflict: " ∷ m ∷ [];
}
into_response (crypto e) = record {
  status = 400;
  code = "bad_signature";
  message = describe e ∷ [];
}
into_response (db e) = record { status = 500; code = "internal"; message = "internal error" ∷ [] }
into_response (internal m) = record {
  status = 500;
  code = "internal";
  message = "internal error" ∷ [];
}

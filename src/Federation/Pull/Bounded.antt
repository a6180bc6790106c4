-- ===== src/Federation/Pull/Bounded.antt =====
-- `read_bounded` of crates/lethe-server/src/federation/pull.rs against all chunks put together.
use lethe_project.Prelude.{
  ℕ, ◌+◌, ◌≤◌, ◌≡◌, ◌↔◌, refl, sym, ap, ◌∙◌, Option, none, some, List, [], ◌∷◌, ◌++◌, Bytes, length,
  length-append, append_assoc, append-nil, arith, map_option, ltb, Bool-cases, inl, inr,
}
use lethe_project.Error.{ok}
use lethe_project.Federation.Pull.Cycle.{read_chunks, read_bounded}

-- The whole body, if the transport does not fail
unfoldable pub body_of : List (Option Bytes) → Option Bytes
body_of [] = some []
body_of (none ∷ cs) = none
body_of (some c ∷ cs) = map_option (λ r. c ++ r) (body_of cs)

map_nil : (o : Option Bytes) → map_option (λ r. [] ++ r) o ≡ o
map_nil none = refl
map_nil (some r) = refl

length-prefix :
    (buf : Bytes) (o : Option Bytes) (b : Bytes)
    → map_option (λ r. buf ++ r) o ≡ some b
    → length buf ≤ length b
length-prefix buf none b h = ground arith
length-prefix buf (some r) b h =
    let sum = length-append buf r in
    let e : buf ++ r ≡ b = ground arith in rw (sym e) (omega (arith, sum))

prepend :
    (buf c : Bytes) (o : Option Bytes)
    → map_option (λ r. buf ++ r) (map_option (λ r. c ++ r) o) ≡ map_option (λ r. (buf ++ c) ++ r) o
prepend buf c none = refl
prepend buf c (some r) = ap some (sym (append_assoc buf c r))

read_chunks_sound :
    (m : ℕ) (buf : Bytes) (cs : List (Option Bytes)) (b : Bytes)
    → length buf ≤ m
    → read_chunks m buf cs ≡ ok b
    → (length b ≤ m) × (map_option (λ r. buf ++ r) (body_of cs) ≡ some b)
unfolding read_chunks body_of
read_chunks_sound m buf [] b l h = rw (append-nil buf) (ground arith)
read_chunks_sound m buf (none ∷ cs) b l h = ground arith
read_chunks_sound m buf (some c ∷ cs) b l h = elim (Bool-cases (ltb m (length buf + length c))) [
  | inl t ↦ absurd (ground arith)
  | inr t ↦
      let (k, e) =
        read_chunks_sound m (buf ++ c) cs b (ground (arith, length-append buf c)) (ground arith) in
      (k, prepend buf c (body_of cs) ∙ e)
]

read_chunks_complete :
    (m : ℕ) (buf : Bytes) (cs : List (Option Bytes)) (b : Bytes)
    → length b ≤ m
    → map_option (λ r. buf ++ r) (body_of cs) ≡ some b
    → read_chunks m buf cs ≡ ok b
unfolding read_chunks body_of
read_chunks_complete m buf [] b l h = let e = append-nil buf in ground arith
read_chunks_complete m buf (none ∷ cs) b l h = ground arith
read_chunks_complete m buf (some c ∷ cs) b l h =
    let h' = sym (prepend buf c (body_of cs)) ∙ h in
    let rest = read_chunks_complete m (buf ++ c) cs b l h' in
    let bound = length-prefix (buf ++ c) (body_of cs) b h' in
    let sum = length-append buf c in ground arith

-- Reading a response succeeds exactly where no chunk fails and the whole body is within the bound, and gives the
-- whole body.
pub read_bounded_iff :
    (m : ℕ) (cs : List (Option Bytes)) (b : Bytes)
    → (read_bounded m cs ≡ ok b) ↔ ((length b ≤ m) × (body_of cs ≡ some b))
unfolding read_bounded
read_bounded_iff m cs b = (
  λ h.
      let (l, e) = read_chunks_sound m [] cs b (omega arith) h in
      (l, sym (map_nil (body_of cs)) ∙ e),
  λ (l, e). read_chunks_complete m [] cs b l (map_nil (body_of cs) ∙ e),
)

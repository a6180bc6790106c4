-- ===== src/Rooms/Talk/History.antt =====
-- What a member reads of a room's messages.
use lethe_project.Prelude.{
  ℕ, ◌≤◌, ◌<◌, ◌≡◌, true, Option, none, some, List, [], ◌∷◌, Bytes, arith, same-eq, ltb, length,
  take, All, All-take, All-weaken, length-take-le, zero, suc, Bool-cases, inl, inr,
}
use lethe_project.Table.{order_by, place, select}
use lethe_project.Table.Every.{All-place, All-order_by, All-select_test}
use lethe_project.Db.{Db, Date, Message}
use lethe_project.Rooms.Messages.{visible_messages, is_visible, is_after, seq_before}

-- In the order of the sequence numbers
abbrev pub Ascending : List Message → Type 0
Ascending [] = Unit
Ascending (m ∷ ms) = All (λ n. m.seq ≤ n.seq) ms × Ascending ms

place-Ascending :
    (x : Message) (ms : List Message) → Ascending ms → Ascending (place seq_before x ms)
unfolding place
place-Ascending x [] h = (tt, tt)
place-Ascending x (y ∷ ms) (a, h) = elim (Bool-cases (ltb y.seq x.seq)) [
  | inl t ↦
      rw t (All-place seq_before (λ n. y.seq ≤ n.seq) x ms (ground arith) a, place-Ascending x ms h)
  | inr f ↦
      rw f (((ground arith, All-weaken (λ n. x.seq ≤ n.seq) ms (λ n p. ground arith) a), (a, h)))
]

order_by-Ascending : (ms : List Message) → Ascending (order_by seq_before ms)
unfolding order_by
order_by-Ascending [] = tt
order_by-Ascending (m ∷ ms) = place-Ascending m (order_by seq_before ms) (order_by-Ascending ms)

take-Ascending : (n : ℕ) (ms : List Message) → Ascending ms → Ascending (take n ms)
unfolding take
take-Ascending zero ms h = tt
take-Ascending (suc n) [] h = tt
take-Ascending (suc n) (m ∷ ms) (a, h) =
    (All-take (λ k. m.seq ≤ k.seq) n ms a, take-Ascending n ms h)

-- Past the cursor, where there is one
abbrev pub Past : Option ℕ → ℕ → Type 0
Past none n = Unit {0}
Past (some since) n = since < n

gate :
    (room_id : Bytes) (joined_at : Date) (since : Option ℕ) (m : Message)
    → is_visible room_id joined_at since m ≡ true
    → (m.room_id ≡ room_id) × (joined_at ≤ m.created_at) × Past since m.seq
unfolding is_visible is_after
gate room_id joined_at none m h = ground (arith, same-eq m.room_id room_id)
gate room_id joined_at (some since) m h = ground (arith, same-eq m.room_id room_id)

-- The page of messages that a member reads is in the order of the sequence numbers and no longer
-- than the limit, and each of its messages belongs to the room, is not older than the day the member
-- joined, and, where the request has a cursor, has a sequence number past it.
pub visible_messages-gated :
    (room_id : Bytes) (joined_at : Date) (since : Option ℕ) (limit : ℕ) (s : Db)
    → Ascending (visible_messages room_id joined_at since limit s)
      × (length (visible_messages room_id joined_at since limit s) ≤ limit)
      × All
          (λ m. (m.room_id ≡ room_id) × (joined_at ≤ m.created_at) × Past since m.seq)
          (visible_messages room_id joined_at since limit s)
unfolding visible_messages
visible_messages-gated room_id joined_at since limit s =
    let seen = select (is_visible room_id joined_at since) s.room_messages in
    let page = order_by seq_before seen in
    (
      take-Ascending limit page (order_by-Ascending seen),
      length-take-le limit page,
      All-take _ limit page (
          All-order_by seq_before _ seen (
            All-weaken _ seen (λ m h. gate room_id joined_at since m h)
              (All-select_test (is_visible room_id joined_at since) s.room_messages))),
    )

-- ===== src/Rooms/Membership/Admission.antt =====
-- Whom `wrap` of crates/lethe-server/src/logic/rooms.rs lets in, and by whom.
use lethe_project.Prelude.{
  ◌≡◌, Bool, true, false, ◌&&◌, List, [], ◌∷◌, ◌++◌, Bytes, arith, same, same_refl,
}
use lethe_project.Table.{any, count, update}
use lethe_project.Table.Rows.{any-append, count-append}
use lethe_project.Db.{Db, Date, Member}
use lethe_project.Rooms.Queries.{
  has_box, has_sig, has_id, is_active, is_active_box, is_accepted_in, is_pending_box,
  is_active_member_pair, add_member, pending_row, grant_wrap, grant_row,
}

accepts_last :
    (p q : Member → Bool) (f : Member → Member) (rows : List Member) (m : Member)
    → p m ≡ true
    → q (f m) ≡ true
    → any q (update p f (rows ++ m ∷ [])) ≡ true
unfolding any update
accepts_last p q f [] m h k = ground arith
accepts_last p q f (x ∷ rows) m h k = ground (arith, accepts_last p q f rows m h k)

no_pending :
    (r b : Bytes) (rows : List Member)
    → any (has_box r b) rows ≡ false
    → count (is_pending_box r b) rows ≡ 0
unfolding any count is_pending_box
no_pending r b [] h = ground arith
no_pending r b (x ∷ rows) h = ground (arith, no_pending r b rows)

-- The row is accepted in the room, under that signing key.
abbrev pub is_accepted_as : Bytes → Bytes → Member → Bool
is_accepted_as r sig m = is_accepted_in r m && same m.member_sig_pubkey sig

module _ (r box sig : Bytes) (today : Date) (s : Db) where
  -- The newcomer has its pending row.
  abbrev arrived : Db
  arrived = record s { room_members = s.room_members ++ pending_row r box sig today ∷ [] }

  pair-arrived : is_active_member_pair r sig box arrived ≡ true
  unfolding is_active_member_pair pending_row has_sig is_active
  pair-arrived =
      any-append (λ (m : Member). has_sig r sig m && (same m.member_box_pubkey box && is_active m))
        s.room_members (pending_row r box sig today)
        (ground (arith, same_refl r, same_refl sig, same_refl box))

  active-arrived : any (is_active_box r box) arrived.room_members ≡ true
  unfolding pending_row is_active_box
  active-arrived =
      any-append (is_active_box r box) s.room_members (pending_row r box sig today)
        (ground (arith, same_refl r, same_refl box))

  one_pending :
      any (has_box r box) s.room_members ≡ false
      → count (is_pending_box r box) arrived.room_members ≡ 1
  unfolding pending_row is_pending_box
  one_pending k = ground (
    arith,
    count-append (is_pending_box r box) s.room_members (pending_row r box sig today),
    no_pending r box s.room_members k,
    same_refl r,
    same_refl box,
  )

  admitted :
      (w : Bytes)
      → any (has_box r box) s.room_members ≡ false
      → ((grant_wrap r box w box arrived).0 ≡ true)
        × (any (is_accepted_as r sig) (grant_wrap r box w box arrived).1.room_members ≡ true)
  unfolding grant_wrap
  admitted w k = rw active-arrived (
    ground (arith, one_pending k),
    unfold pending_row is_accepted_in is_pending_box in
        accepts_last (is_pending_box r box) (is_accepted_as r sig) (grant_row w box) s.room_members
          (pending_row r box sig today) (ground (arith, same_refl r, same_refl box))
          (ground (arith, same_refl r, same_refl sig)),
  )

-- A box key that has no row in an existing room passes, as soon as it is added, for an active member who may wrap keys,
-- also for itself: the wrap is taken, whatever its bytes, and the newcomer is an accepted member.
pub newcomer_admits_itself :
    (r box sig w : Bytes) (today : Date) (s : Db)
    → any (has_id r) s.rooms ≡ true
    → any (has_box r box) s.room_members ≡ false
    → (is_active_member_pair r sig box (add_member r box sig today s).1 ≡ true)
      × ((grant_wrap r box w box (add_member r box sig today s).1).0 ≡ true)
      × (any
            (is_accepted_as r sig)
            (grant_wrap r box w box (add_member r box sig today s).1).1.room_members
          ≡ true)
unfolding add_member
newcomer_admits_itself r box sig w today s h k =
    let (taken, accepted) = admitted r box sig today s w k in
    rw (k, h) (pair-arrived r box sig today s, taken, accepted)

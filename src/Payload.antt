-- ===== src/Payload.antt =====
-- The byte strings that clients sign: the `canonical_*` functions of crates/lethe-types/src/rooms.rs
-- and posts.rs. An i64 or i32 is its bit pattern, written out little-endian.
use lethe_project.Prelude.{
  ℕ, List, [], ◌∷◌, ◌++◌, length, Bytes, Text, codes, utf8, le_bytes, ◌%◌, ◌^◌,
}

-- A tag is ASCII text with a trailing zero byte.
abbrev pub zero_byte : Bytes
zero_byte = 0 ∷ []

-- `buf.extend_from_slice` for each of a list of byte strings
unfoldable pub concat : List Bytes → Bytes
concat [] = []
concat (b ∷ bs) = b ++ concat bs

unfoldable pub canonical_members_request : Bytes → ℕ → Bytes
canonical_members_request room_id ts =
    codes "lethe-members-v1" ++ (zero_byte ++ (room_id ++ le_bytes 8 ts))

unfoldable pub canonical_roster : Bytes → ℕ → List Bytes → Bytes
canonical_roster room_id epoch member_sig_pubkeys =
    codes "lethe-roster-v1"
    ++ (zero_byte
        ++ (room_id
            ++ (le_bytes 4 epoch
                ++ (le_bytes 2 (length member_sig_pubkeys % 2 ^ 16) ++ concat member_sig_pubkeys))))

unfoldable pub canonical_remove_request : Bytes → ℕ → Bytes → Bytes
canonical_remove_request room_id ts target_box_pubkey =
    codes "lethe-remove-v1" ++ (zero_byte ++ (room_id ++ (le_bytes 8 ts ++ target_box_pubkey)))

unfoldable pub canonical_list_request : Bytes → ℕ → Bytes
canonical_list_request room_id ts =
    codes "lethe-list-v1" ++ (zero_byte ++ (room_id ++ le_bytes 8 ts))

unfoldable pub canonical_room_provenance : Bytes → Bytes → Bytes
canonical_room_provenance origin_thread creator_thread_pubkey =
    codes "lethe-room-v1" ++ (zero_byte ++ (origin_thread ++ creator_thread_pubkey))

unfoldable pub canonical_leave_request : Bytes → ℕ → Bytes
canonical_leave_request room_id ts =
    codes "lethe-leave-v1" ++ (zero_byte ++ (room_id ++ le_bytes 8 ts))

unfoldable pub canonical_join_proof : Text → Bytes → ℕ → Bytes
canonical_join_proof invite_code box_pubkey ts =
    codes "lethe-join-v1" ++ (zero_byte ++ (utf8 invite_code ++ (box_pubkey ++ le_bytes 8 ts)))

unfoldable pub canonical_message_payload : Bytes → Bytes → Bytes → Bytes
canonical_message_payload room_id nonce ciphertext =
    codes "lethe-msg-v1" ++ (zero_byte ++ (room_id ++ (nonce ++ ciphertext)))

unfoldable pub canonical_create_room : Bytes → Bytes → Bytes → ℕ → Bytes
canonical_create_room creator_box_pubkey creator_sig_pubkey wrapped_key_for_creator ts =
    codes "lethe-create-v1"
    ++ (zero_byte
        ++ (le_bytes 8 ts
            ++ (creator_box_pubkey ++ (creator_sig_pubkey ++ wrapped_key_for_creator))))

unfoldable pub canonical_wrap_request : Bytes → Bytes → Bytes → ℕ → Bytes
canonical_wrap_request room_id for_box_pubkey wrapped_key ts =
    codes "lethe-wrap-v1"
    ++ (zero_byte ++ (le_bytes 8 ts ++ (room_id ++ (for_box_pubkey ++ wrapped_key))))

-- This tag alone has no trailing zero byte.
unfoldable pub canonical_post_payload : Bytes → Text → Bytes
canonical_post_payload thread_id body = codes "lethe-post-v1" ++ (thread_id ++ utf8 body)

unfoldable pub canonical_delete_request : Bytes → ℕ → Bytes
canonical_delete_request post_id ts =
    codes "lethe-delete-v1" ++ (zero_byte ++ (post_id ++ le_bytes 8 ts))

unfoldable pub vouch_key_image_input : Bytes → Bytes → Bytes → Bytes
vouch_key_image_input room_id thread_id member_pubkey =
    codes "lethe-vouch-ki-v1" ++ (zero_byte ++ (room_id ++ (thread_id ++ member_pubkey)))

unfoldable pub vouch_message_input : Bytes → Bytes → Bytes → ℕ → List Bytes → Bytes → Bytes
vouch_message_input room_id thread_id body_sha256 roster_epoch ring key_image =
    codes "lethe-vouch-msg-v1"
    ++ (zero_byte
        ++ (room_id
            ++ (thread_id
                ++ (body_sha256
                    ++ (le_bytes 4 roster_epoch
                        ++ (le_bytes 2 (length ring % 2 ^ 16) ++ (concat ring ++ key_image)))))))

unfoldable pub vouch_challenge_input : Bytes → Bytes → Bytes → Bytes
vouch_challenge_input m l r = codes "lethe-vouch-ch-v1" ++ (zero_byte ++ (m ++ (l ++ r)))

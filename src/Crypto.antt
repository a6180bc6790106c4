-- ===== src/Crypto.antt =====
-- crates/lethe-server/src/crypto.rs: each signed request against its canonical bytes.
pub mod Vouch
use lethe_project.Prelude.{ℕ, not, List, length, Bytes, Text, ◌==◌, if◌then◌else◌}
use lethe_project.Error.{Result, ok, err, CryptoError, bad_pubkey, bad_signature, verify_failed}
use lethe_project.Env.{Env}
use lethe_project.Payload.{
  canonical_members_request, canonical_roster, canonical_remove_request, canonical_list_request,
  canonical_room_provenance, canonical_leave_request, canonical_join_proof,
  canonical_message_payload, canonical_create_room, canonical_wrap_request, canonical_post_payload,
  canonical_delete_request,
}

abbrev pub Checked : Type 0
Checked = Result CryptoError (Unit {0})

module _ (env : Env) where
  -- The conversions `try_into` to [u8; 32] and [u8; 64] are tests of the length.
  unfoldable pub verify_ed25519 : Bytes → Bytes → Bytes → Checked
  verify_ed25519 pubkey sig msg =
      if not (length pubkey == 32)
      then err bad_pubkey
      else if not (length sig == 64)
      then err bad_signature
      else if not (env.is_key pubkey)
      then err bad_pubkey
      else if env.verify_strict pubkey sig msg
      then ok tt
      else err verify_failed

  unfoldable pub verify_post_signature : Bytes → Bytes → Bytes → Text → Checked
  verify_post_signature pubkey signature thread_id body =
      verify_ed25519 pubkey signature (canonical_post_payload thread_id body)

  unfoldable pub verify_post_delete : Bytes → Bytes → Bytes → ℕ → Checked
  verify_post_delete pubkey sig post_id ts =
      verify_ed25519 pubkey sig (canonical_delete_request post_id ts)

  unfoldable pub verify_room_provenance : Bytes → Bytes → Bytes → Checked
  verify_room_provenance creator_thread_pubkey provenance_sig origin_thread =
      verify_ed25519 creator_thread_pubkey provenance_sig
        (canonical_room_provenance origin_thread creator_thread_pubkey)

  unfoldable pub verify_leave_request : Bytes → Bytes → Bytes → ℕ → Checked
  verify_leave_request sig_pubkey sig room_id ts =
      verify_ed25519 sig_pubkey sig (canonical_leave_request room_id ts)

  unfoldable pub verify_join_proof : Bytes → Bytes → Text → Bytes → ℕ → Checked
  verify_join_proof proof_thread_pubkey proof_sig invite_code box_pubkey ts =
      verify_ed25519 proof_thread_pubkey proof_sig (canonical_join_proof invite_code box_pubkey ts)

  unfoldable pub verify_remove_request : Bytes → Bytes → Bytes → ℕ → Bytes → Checked
  verify_remove_request remover_sig_pubkey sig room_id ts target_box_pubkey =
      verify_ed25519 remover_sig_pubkey sig (canonical_remove_request room_id ts target_box_pubkey)

  unfoldable pub verify_list_request : Bytes → Bytes → Bytes → ℕ → Checked
  verify_list_request requester_sig_pubkey sig room_id ts =
      verify_ed25519 requester_sig_pubkey sig (canonical_list_request room_id ts)

  unfoldable pub verify_room_message_sender : Bytes → Bytes → Bytes → Bytes → Bytes → Checked
  verify_room_message_sender sender_sig_pubkey sender_sig room_id nonce ciphertext =
      verify_ed25519 sender_sig_pubkey sender_sig
        (canonical_message_payload room_id nonce ciphertext)

  unfoldable pub verify_create_room : Bytes → Bytes → Bytes → Bytes → ℕ → Checked
  verify_create_room creator_sig_pubkey sig creator_box_pubkey wrapped_key_for_creator ts =
      verify_ed25519 creator_sig_pubkey sig
        (canonical_create_room creator_box_pubkey creator_sig_pubkey wrapped_key_for_creator ts)

  unfoldable pub verify_wrap_request : Bytes → Bytes → Bytes → Bytes → Bytes → ℕ → Checked
  verify_wrap_request inviter_sig_pubkey sig room_id for_box_pubkey wrapped_key ts =
      verify_ed25519 inviter_sig_pubkey sig
        (canonical_wrap_request room_id for_box_pubkey wrapped_key ts)

  unfoldable pub verify_roster_sig : Bytes → Bytes → Bytes → ℕ → List Bytes → Checked
  verify_roster_sig creator_sig_pubkey sig room_id epoch member_sig_pubkeys =
      verify_ed25519 creator_sig_pubkey sig (canonical_roster room_id epoch member_sig_pubkeys)

  unfoldable pub verify_members_request : Bytes → Bytes → Bytes → ℕ → Checked
  verify_members_request requester_sig_pubkey sig room_id ts =
      verify_ed25519 requester_sig_pubkey sig (canonical_members_request room_id ts)

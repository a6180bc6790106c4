-- ===== src/Federation/Events/Origin.antt =====
-- An event that verifies is signed by the peer that it was pulled from.
use lethe_project.Prelude.{◌≡◌, refl, subst, Bool, true, false, Bytes, same, same-eq, arith}
use lethe_project.Error.{bind-ok, Result, ok, ◌>>◌}
use lethe_project.Env.{Env}
use lethe_project.Federation.Wire.{
  PostEvent, RemovalEvent, PostEventFields, RemovalEventFields, canonical_post_payload,
  canonical_removal_payload,
}
use lethe_project.Federation.Events.{
  Calendar, DecodeError, verify_post_event, verify_removal_event, verify_server_signature, require,
  authenticate, decode_post_event, decode_removal_event,
}

module _ (env : Env) (cal : Calendar) where
  require-ok :
      {B : Type 0} (t : Bool) (e : DecodeError) (m : Result DecodeError B) (b : B)
      → (require env cal t e >> m) ≡ ok b
      → (t ≡ true) × (m ≡ ok b)
  unfolding require
  require-ok true e m b h = (refl, h)
  require-ok false e m b h = ground arith

  -- The peer's key is the origin, and it signs the payload of the fields.
  abbrev pub IsSignedBy : Bytes → Bytes → Bytes → Type 0
  IsSignedBy signer origin payload =
      (origin ≡ signer)
      × ((sig : Bytes) × (verify_server_signature env cal origin sig payload ≡ true))

  signed_lem :
      {F : Type 0} (o signer sig payload : Bytes) (f d : F)
      → authenticate env cal o signer sig payload f ≡ ok d
      → (f ≡ d) × IsSignedBy signer o payload
  unfolding authenticate
  signed_lem o signer sig payload f d h =
      let (t, h1) = require-ok (same o signer) _ _ _ h in
      let (v, h2) = require-ok (verify_server_signature env cal o sig payload) _ (ok f) _ h1 in
      (ground arith, (same-eq o signer t, (sig, v)))

  pub verify_post_event-IsSignedBy :
      (e : PostEvent) (signer : Bytes) (d : PostEventFields)
      → verify_post_event env cal e signer ≡ ok d
      → IsSignedBy signer d.origin_server_id (canonical_post_payload d)
  unfolding verify_post_event
  verify_post_event-IsSignedBy e signer d h =
      let ((sig, f), (k, h1)) = bind-ok (decode_post_event env cal e) _ d h in
      let (same_fields, signed) = signed_lem f.origin_server_id signer sig _ f d h1 in
      subst
        (λ (x : PostEventFields). IsSignedBy signer x.origin_server_id (canonical_post_payload x))
        same_fields signed

  -- A removal event that verifies has the key of the expected peer as its origin, and carries a signature by that
  -- key of exactly the decoded fields.
  pub verify_removal_event-IsSignedBy :
      (e : RemovalEvent) (signer : Bytes) (d : RemovalEventFields)
      → verify_removal_event env cal e signer ≡ ok d
      → IsSignedBy signer d.origin_server_id (canonical_removal_payload d)
  unfolding verify_removal_event
  verify_removal_event-IsSignedBy e signer d h =
      let ((sig, f), (k, h1)) = bind-ok (decode_removal_event env cal e) _ d h in
      let (same_fields, signed) = signed_lem f.origin_server_id signer sig _ f d h1 in
      subst
        (λ (x : RemovalEventFields).
          IsSignedBy signer x.origin_server_id (canonical_removal_payload x))
        same_fields signed

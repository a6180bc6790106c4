-- ===== src/Posts/Requests.antt =====
-- The types of crates/lethe-types/src/posts.rs that the posting handlers read and answer with.
use lethe_project.Prelude.{ℕ, Option, List, Text}

pub record VouchPayload : Type 0 where
  pub room_id : Text
  pub roster_epoch : ℕ
  pub creator_sig : Text
  pub ring : List Text
  pub key_image : Text
  pub c0 : Text
  pub s : List Text

-- `expires_in_days` is an i32: `Option` of a number of days, the negative ones all being 0 here,
-- which the range test refuses like them.
pub record CreateThreadReq : Type 0 where
  pub board_id : Text
  pub title : Text
  pub body : Text
  pub pow_nonce : Text
  pub thread_id : Option Text
  pub pubkey : Option Text
  pub signature : Option Text
  pub expires_in_days : Option ℕ
  pub vouch : Option VouchPayload

pub record CreateThreadResp : Type 0 where
  pub thread_id : Text
  pub seq : ℕ

pub record CreatePostReq : Type 0 where
  pub body : Text
  pub pow_nonce : Text
  pub pubkey : Option Text
  pub signature : Option Text
  pub vouch : Option VouchPayload

pub record CreatePostResp : Type 0 where
  pub post_id : Text
  pub seq : ℕ
  pub signer_first_seq : Option ℕ

pub record DeletePostReq : Type 0 where
  pub pubkey : Text
  pub ts : ℕ
  pub sig : Text

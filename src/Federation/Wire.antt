-- ===== src/Federation/Wire.antt =====
-- The events of crates/lethe-server/src/federation/events.rs and the byte strings that a server
-- signs for them, with the version of federation/constitution.rs.
pub mod Injective
use lethe_project.Prelude.{
  ℕ, ◌%◌, ◌^◌, ◌==◌, not, Option, none, some, List, [], ◌∷◌, ◌++◌, length, Bytes, Text, String,
  codes, same, utf8, be_bytes, if◌then◌else◌, map_option,
}
use lethe_project.Db.{Date}

abbrev pub protocol_version : Text
protocol_version = codes "lethe-fed-v1"

-- `constitution::VERSION`
abbrev pub version : Text
version = codes "v1"

pub record PostEvent : Type 0 where
  pub protocol_version : Text
  pub constitution_version : Text
  pub board_id : Text
  pub thread_id : Text
  pub thread_origin_server_id : Text
  pub thread_title : Text
  pub origin_server_id : Text
  pub origin_post_id : Text
  pub body : Text
  pub created_at : Text
  pub author_pubkey : Option Text
  pub author_signature : Option Text
  pub server_signature : Text

pub record RemovalEvent : Type 0 where
  pub protocol_version : Text
  pub constitution_version : Text
  pub origin_server_id : Text
  pub origin_post_id : Text
  pub reason : Text
  pub removed_at : Text
  pub server_signature : Text

pub record EventsResponse : Type 0 where
  pub posts : List PostEvent
  pub removals : List RemovalEvent
  pub next_post_cursor : Option Text
  pub next_removal_cursor : Option Text

-- Also `DecodedPost`, which has the same fields.
pub record PostEventFields : Type 0 where
  pub board_id : Text
  pub thread_id : Bytes
  pub thread_origin_server_id : Bytes
  pub thread_title : Text
  pub origin_server_id : Bytes
  pub origin_post_id : Bytes
  pub body : Text
  pub created_at : Date
  pub author_pubkey : Option Bytes
  pub author_signature : Option Bytes

-- Also `DecodedRemoval`.
pub record RemovalEventFields : Type 0 where
  pub origin_server_id : Bytes
  pub origin_post_id : Bytes
  pub reason : Text
  pub removed_at : Date

-- A length is cut to a u32.
unfoldable pub write_bytes : Bytes → Bytes
write_bytes b = be_bytes 4 (length b % 2 ^ 32) ++ b

unfoldable pub write_str : Text → Bytes
write_str s = be_bytes 4 (length (utf8 s) % 2 ^ 32) ++ utf8 s

unfoldable pub write_opt_bytes : Option Bytes → Bytes
unfolding write_bytes
write_opt_bytes none = 0 ∷ []
write_opt_bytes (some b) = 1 ∷ write_bytes b

-- The Julian day as an i32
unfoldable pub write_date : Date → Bytes
write_date d = be_bytes 4 d

abbrev pub post_event_domain : Bytes
post_event_domain = codes "lethe-fed-post-v1" ++ 0 ∷ []

abbrev pub removal_event_domain : Bytes
removal_event_domain = codes "lethe-fed-removal-v1" ++ 0 ∷ []

unfoldable pub canonical_post_payload : PostEventFields → Bytes
canonical_post_payload f =
    post_event_domain
    ++ (write_str protocol_version
        ++ (write_str version
            ++ (write_str f.board_id
                ++ (write_bytes f.thread_id
                    ++ (write_bytes f.thread_origin_server_id
                        ++ (write_str f.thread_title
                            ++ (write_bytes f.origin_server_id
                                ++ (write_bytes f.origin_post_id
                                    ++ (write_str f.body
                                        ++ (write_date f.created_at
                                            ++ (write_opt_bytes f.author_pubkey
                                                ++ write_opt_bytes f.author_signature)))))))))))

unfoldable pub canonical_removal_payload : RemovalEventFields → Bytes
canonical_removal_payload f =
    removal_event_domain
    ++ (write_str protocol_version
        ++ (write_str version
            ++ (write_bytes f.origin_server_id
                ++ (write_bytes f.origin_post_id
                    ++ (write_str f.reason ++ write_date f.removed_at)))))

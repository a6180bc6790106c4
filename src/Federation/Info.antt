-- ===== src/Federation/Info.antt =====
-- crates/lethe-server/src/federation/info.rs and the handler `info` of federation/route.rs.
use lethe_project.Prelude.{
  ℕ, ◌/◌, ◌%◌, ◌+◌, Option, none, some, [], ◌∷◌, Bytes, Text, codes, map_option, ltb, if◌then◌else◌,
}
use lethe_project.Error.{Result, ok, err, AppError, not_found}
use lethe_project.Env.{Env}
use lethe_project.Federation.Wire.{protocol_version, version}

pub record InfoResponse : Type 0 where
  pub server_pubkey : Text
  pub protocol_version : Text
  pub constitution_version : Text
  pub constitution_hash : Text
  pub code_version : Text
  pub code_commit : Text
  pub local_moderation_summary : Text
  pub operator_label : Option Text
  pub release_manifest_sha256 : Option Text

-- What the build writes into the binary, the settings, and the file system
pub record Deployment : Type 0 where
  pub constitution_hash : Text
  pub code_version : Text
  pub code_commit : Text
  pub moderation_summary : Option Text
  pub operator_label : Option Text
  pub release_manifest_path : Option Text
  pub read_file : Text → Option Bytes

-- `{b:02x}`
unfoldable pub hex_digit : ℕ → ℕ
hex_digit n = if ltb n 10 then 48 + n else 87 + n

unfoldable pub hex : Bytes → Text
unfolding hex_digit
hex [] = []
hex (b ∷ bs) = hex_digit (b / 16) ∷ hex_digit (b % 16) ∷ hex bs

module _ (env : Env) (deployment : Deployment) where
  unfoldable pub manifest_sha256 : Text → Option Text
  unfolding hex
  manifest_sha256 path = map_option (λ bytes. hex (env.sha256 bytes)) (deployment.read_file path)

  abbrev pub or_baseline : Option Text → Text
  or_baseline none = codes "baseline"
  or_baseline (some s) = s

  unfoldable pub build : Bytes → Text → Option Text → Option Text → InfoResponse
  build server_pubkey local_moderation_summary operator_label release_manifest_sha256 = record {
    server_pubkey = env.b64 server_pubkey;
    protocol_version = protocol_version;
    constitution_version = version;
    constitution_hash = deployment.constitution_hash;
    code_version = deployment.code_version;
    code_commit = deployment.code_commit;
    local_moderation_summary = local_moderation_summary;
    operator_label = operator_label;
    release_manifest_sha256 = release_manifest_sha256;
  }

  -- The manifest is left out where there is no path or no file.
  unfoldable pub manifest : Option Text → Option Text
  unfolding manifest_sha256
  manifest none = none
  manifest (some path) = manifest_sha256 path

  unfoldable pub info : Option Bytes → Result AppError InfoResponse
  unfolding build manifest
  info none = err not_found
  info (some server_pubkey) = ok (
      build server_pubkey (or_baseline deployment.moderation_summary) deployment.operator_label
        (manifest deployment.release_manifest_path))

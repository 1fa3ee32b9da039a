-- ===== src/Center/Config.antt =====
-- crates/wist-center: the settings of config.rs that the handlers read, and what api/mod.rs derives
-- from the public address.
use warp_insight.Prelude.{
  ℕ, ◌==◌, Bool, true, false, Option, none, some, [], ◌∷◌, ◌++◌, length, reverse, zero, suc,
  if◌then◌else◌,
}
use warp_insight.Prelude.Text.{Text, text, strip_prefix, trim_start}

pub record CenterConfig : Type 0 where
  pub admin_token_hash : Option Text
  pub public_url : Text
  pub gateway_image : Text
  pub ca_cert : Option Text
  pub protocol_version : Text
  pub hmac_secret : Text
  pub credential_ttl_seconds : ℕ

-- The credential bundle and the trust bundle without the dates that are never set.
pub record ControlCenterTrustBundle : Type 0 where
  pub trust_bundle_id : Text
  pub control_endpoint : Text
  pub ca_bundle : Text
  pub server_name : Text
  pub expected_san : Text

abbrev has_prefix : Option Text → Bool
has_prefix none = false
has_prefix (some rest) = true

unfoldable pub control_center_tls_required : CenterConfig → Bool
unfolding strip_prefix trim_start
control_center_tls_required config =
    has_prefix (strip_prefix (text "https://") (trim_start config.public_url))

abbrev strip_again : (Text → Text) → Text → Option Text → Text
strip_again again url none = url
strip_again again url (some rest) = again rest

-- `trim_start_matches`, which takes the prefix off no more than once for each byte.
unfoldable pub trim_matches : ℕ → Text → Text → Text
unfolding strip_prefix
trim_matches zero prefix url = url
trim_matches (suc fuel) prefix url =
    strip_again (trim_matches fuel prefix) url (strip_prefix prefix url)

-- `split(':').next()`.
unfoldable pub before_colon : Text → Text
before_colon [] = []
before_colon (c ∷ url) = if c == 58 then [] else c ∷ before_colon url

unfoldable pub host_of : Text → Text
unfolding trim_matches before_colon
host_of url =
    let rest = trim_matches (length url) (text "http://") url in
    before_colon (trim_matches (length rest) (text "https://") rest)

unfoldable pub drop_slashes : Text → Text
drop_slashes [] = []
drop_slashes (c ∷ url) = if c == 47 then drop_slashes url else c ∷ url

-- `trim_end_matches('/')`.
unfoldable pub without_end_slashes : Text → Text
unfolding drop_slashes
without_end_slashes url = reverse (drop_slashes (reverse url))

unfoldable pub build_control_center_trust_bundle :
    CenterConfig → Text → Option ControlCenterTrustBundle
unfolding host_of
build_control_center_trust_bundle config gateway_id = elim config.ca_cert [
  | none ↦ none
  | some ca_bundle ↦ some (record {
    trust_bundle_id = text "trust-" ++ (gateway_id ++ text "-1");
    control_endpoint = config.public_url;
    ca_bundle = ca_bundle;
    server_name = host_of config.public_url;
    expected_san = host_of config.public_url;
  })
]

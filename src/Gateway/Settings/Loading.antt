-- ===== src/Gateway/Settings/Loading.antt =====
-- crates/warp-gateway/src/infra/config.rs: a configuration is read, and its administrator's token
-- tested. The parsed file, the environment and the public key of the signing key are given.
use warp_insight.Prelude.{
  ℕ, ◌+◌, ◌^◌, ◌==◌, ltb, leb, max, Bool, true, false, not, ◌&&◌, ◌||◌, Option, none, some, List,
  [], ◌∷◌, ◌++◌, map, reverse, length, if◌then◌else◌,
}
use warp_insight.Prelude.Text.{Text, text, text_eq, trim, strip_prefix}
use warp_insight.Prelude.Results.{Result, ok, guard, ◌>>=◌, ◌>>◌}
use warp_insight.Secret.{sha256_hex}
use warp_insight.Gateway.Identifiers.{to_ascii_lowercase}
use warp_insight.Gateway.Settings.{
  Seconds, AdminConfig, FileKind, any, require_non_empty, require_min_secret_length, expand_env,
  validate,
}

pub record RawServerConfig : Type 0 where
  pub listen_addr : Text
  pub public_base_url : Text
  pub tls_cert_file : Text
  pub tls_key_file : Text
  pub admin_api_token : Text
  pub victoria_metrics_url : Text

pub record RawAgentConfig : Type 0 where
  pub package_file : Text
  pub bootstrap_token_ttl_seconds : Seconds
  pub credential_ttl_seconds : Seconds
  pub store_file : Text
  pub trust_bundle : Text
  pub install_script_signing_private_key_file : Text
  pub tenant_id : Text
  pub environment_id : Text

pub record RawAdminConfig : Type 0 where
  pub server : RawServerConfig
  pub agent : RawAgentConfig

abbrev weak_admin_api_tokens : List Text
weak_admin_api_tokens =
    text "admin"
    ∷ text "password"
    ∷ text "changeme"
    ∷ text "letmein"
    ∷ text "secret"
    ∷ text "1234567890123456"
    ∷ text "install-test-admin-token"
    ∷ []

unfoldable pub one_of : Text → List Text → Bool
unfolding text_eq
one_of t [] = false
one_of t (u ∷ texts) = text_eq u t || one_of t texts

abbrev is_upper : ℕ → Bool
is_upper c = leb 65 c && leb c 90

abbrev is_lower : ℕ → Bool
is_lower c = leb 97 c && leb c 122

abbrev is_digit : ℕ → Bool
is_digit c = leb 48 c && leb c 57

abbrev is_symbol : ℕ → Bool
is_symbol c = not (is_upper c || is_lower c || is_digit c)

abbrev number_if : Bool → ℕ → ℕ
number_if true n = n
number_if false n = 0

-- The size of the alphabet, at least 2.
unfoldable pub alphabet : Text → ℕ
alphabet value =
    max
      (number_if (any is_upper value) 26
        + number_if (any is_lower value) 26
        + number_if (any is_digit value) 10
        + number_if (any is_symbol value) 10)
      2

-- Fewer than 40 bits: the comparison of the logarithms, without the rounding of f64.
unfoldable pub has_little_entropy : Text → Bool
unfolding alphabet
has_little_entropy value = ltb (alphabet value ^ length value) (2 ^ 40)

unfoldable pub distinct : Text → Text
distinct [] = []
distinct (c ∷ value) =
    let rest = distinct value in if any (λ d. d == c) value then rest else c ∷ rest

unfoldable pub require_non_weak_admin_token : Text → Result Text (Unit {0})
unfolding trim to_ascii_lowercase one_of has_little_entropy distinct
require_non_weak_admin_token value = do
  guard (not (one_of (map to_ascii_lowercase (trim value)) weak_admin_api_tokens))
      (text "server.admin_api_token uses a known weak value; use a randomly generated token")
  guard (not (has_little_entropy (trim value))) (
      text
        "server.admin_api_token is too weak: use a mixed-case alphanumeric token with at least 40 bits of entropy (an 8-character alphanumeric token qualifies)")
  guard (leb 3 (length (distinct (trim value))))
      (text "server.admin_api_token is too weak: too few distinct characters")

abbrev is_absolute : Option Text → Bool
is_absolute none = false
is_absolute (some rest) = true

-- `join` on a directory without a slash at its end.
unfoldable pub absolutize_path : (base_dir path : Text) → Text
unfolding strip_prefix
absolutize_path base_dir path =
    if is_absolute (strip_prefix (text "/") path) then path else base_dir ++ (text "/" ++ path)

unfoldable pub drop_slashes : Text → Text
drop_slashes [] = []
drop_slashes (c ∷ value) = if c == 47 then drop_slashes value else c ∷ value

unfoldable pub trim_trailing_slash : Text → Text
unfolding drop_slashes
trim_trailing_slash value = reverse (drop_slashes (reverse value))

unfoldable pub from_raw :
    (List ℕ → List ℕ)
    → (env : Text → Option Text) → (load_public_key : Text → Result Text Text) → (config_dir : Text)
    → RawAdminConfig
    → Result Text AdminConfig
unfolding expand_env absolutize_path require_non_empty require_min_secret_length
    require_non_weak_admin_token trim_trailing_slash sha256_hex
from_raw digest env load_public_key config_dir raw = do
  package_file ← expand_env env raw.agent.package_file
  tls_cert_file ← expand_env env raw.server.tls_cert_file
  tls_key_file ← expand_env env raw.server.tls_key_file
  admin_api_token ← expand_env env raw.server.admin_api_token
  private_key_file ← expand_env env raw.agent.install_script_signing_private_key_file
  require_non_empty (text "server.admin_api_token") admin_api_token
  require_min_secret_length (text "server.admin_api_token") admin_api_token 8
  require_non_weak_admin_token admin_api_token
  listen_addr ← expand_env env raw.server.listen_addr
  public_base_url ← expand_env env raw.server.public_base_url
  store_file ← expand_env env raw.agent.store_file
  trust_bundle ← expand_env env raw.agent.trust_bundle
  public_key_pem ← load_public_key (absolutize_path config_dir private_key_file)
  tenant_id ← expand_env env raw.agent.tenant_id
  environment_id ← expand_env env raw.agent.environment_id
  victoria_metrics_url ← expand_env env raw.server.victoria_metrics_url
  ok (record {
    listen_addr = listen_addr;
    public_base_url = trim_trailing_slash public_base_url;
    tls_cert_file = absolutize_path config_dir tls_cert_file;
    tls_key_file = absolutize_path config_dir tls_key_file;
    admin_api_token_hash = sha256_hex digest admin_api_token;
    agent_package_file = absolutize_path config_dir package_file;
    bootstrap_token_ttl_seconds = raw.agent.bootstrap_token_ttl_seconds;
    credential_ttl_seconds = raw.agent.credential_ttl_seconds;
    store_file = absolutize_path config_dir store_file;
    trust_bundle = trust_bundle;
    install_script_signing_private_key_file = absolutize_path config_dir private_key_file;
    install_script_signing_public_key_pem = public_key_pem;
    tenant_id = tenant_id;
    environment_id = environment_id;
    victoria_metrics_url = trim_trailing_slash victoria_metrics_url;
  })

-- `load_from_path`, once the file is read and parsed.
unfoldable pub load_config :
    (List ℕ → List ℕ)
    → (env : Text → Option Text) → (load_public_key : Text → Result Text Text)
    → (files : Text → FileKind) → (config_dir : Text) → RawAdminConfig
    → Result Text AdminConfig
unfolding from_raw validate
load_config digest env load_public_key files config_dir raw = do
  config ← from_raw digest env load_public_key config_dir raw
  validate files config
  ok config

-- ===== src/Gateway/Settings.antt =====
-- crates/warp-gateway/src/infra/config.rs: what a configuration is asked before the gateway starts.
-- The file system and the environment are arguments; characters are those of ASCII.
pub mod Shell
pub mod Loading
use warp_insight.Prelude.{
  ℕ, ◌+◌, ◌^◌, ◌==◌, ltb, leb, max, Bool, true, false, not, ◌&&◌, ◌||◌, Option, none, some, List,
  [], ◌∷◌, ◌++◌, reverse, length, if◌then◌else◌,
}
use warp_insight.Prelude.Text.{Text, text, text_eq, trim, is_empty, strip_prefix}
use warp_insight.Prelude.Results.{Result, ok, err, guard, ◌>>=◌, ◌>>◌}

-- An i64.
pub data Seconds : Type 0 where
  nonnegative below_zero : ℕ → Seconds

pub data FileKind : Type 0 where
  missing directory file : FileKind

pub record AdminConfig : Type 0 where
  pub listen_addr : Text
  pub public_base_url : Text
  pub tls_cert_file : Text
  pub tls_key_file : Text
  pub admin_api_token_hash : Text
  pub agent_package_file : Text
  pub bootstrap_token_ttl_seconds : Seconds
  pub credential_ttl_seconds : Seconds
  pub store_file : Text
  pub trust_bundle : Text
  pub install_script_signing_private_key_file : Text
  pub install_script_signing_public_key_pem : Text
  pub tenant_id : Text
  pub environment_id : Text
  pub victoria_metrics_url : Text

unfoldable pub require_non_empty : (field value : Text) → Result Text (Unit {0})
unfolding trim is_empty
require_non_empty field value =
    guard (not (is_empty (trim value))) (field ++ text " must not be empty")

-- " \ $ ` ; | & < > ( ) space ' ! and the line breaks and the tab.
unfoldable pub is_shell_metacharacter : ℕ → Bool
is_shell_metacharacter c =
    c == 34
    || c == 92
    || c == 36
    || c == 96
    || c == 59
    || c == 124
    || c == 38
    || c == 60
    || c == 62
    || c == 40
    || c == 41
    || c == 32
    || c == 39
    || c == 33
    || c == 10
    || c == 13
    || c == 9

abbrev pub any : (ℕ → Bool) → Text → Bool
any test [] = false
any test (c ∷ t) = test c || any test t

unfoldable pub contains_shell_metacharacters : Text → Bool
unfolding is_shell_metacharacter
contains_shell_metacharacters value = any is_shell_metacharacter value

abbrev has_prefix : Option Text → Bool
has_prefix none = false
has_prefix (some rest) = true

unfoldable pub require_https_url : (field value : Text) → Result Text (Unit {0})
unfolding require_non_empty strip_prefix contains_shell_metacharacters
require_https_url field value = do
  require_non_empty field value
  guard (has_prefix (strip_prefix (text "https://") value))
      (field ++ text " must start with https://")
  guard (not (contains_shell_metacharacters value))
      (field ++ text " contains characters that are unsafe in generated install scripts")

abbrev is_positive : Seconds → Bool
is_positive (nonnegative n) = ltb 0 n
is_positive (below_zero n) = false

abbrev is_at_most : ℕ → Seconds → Bool
is_at_most most (nonnegative n) = leb n most
is_at_most most (below_zero n) = true

unfoldable pub require_positive_seconds : Text → Seconds → Result Text (Unit {0})
require_positive_seconds field value =
    guard (is_positive value) (field ++ text " must be greater than 0")

-- The text names the bound, which is 3600 where this is called.
unfoldable pub require_seconds_at_most : Text → Seconds → ℕ → Result Text (Unit {0})
require_seconds_at_most field value most =
    guard (is_at_most most value) (field ++ text " must be less than or equal to 3600")

unfoldable pub require_existing_file :
    (Text → FileKind) → (field path : Text) → Result Text (Unit {0})
require_existing_file files field path = elim (files path) [
  | missing ↦ err (field ++ (text " does not exist: " ++ path))
  | directory ↦ err (field ++ (text " is not a file: " ++ path))
  | file ↦ ok tt
]

abbrev pub max_bootstrap_token_ttl_seconds : ℕ
max_bootstrap_token_ttl_seconds = 3600

unfoldable pub validate : (Text → FileKind) → AdminConfig → Result Text (Unit {0})
unfolding require_non_empty require_https_url require_positive_seconds require_seconds_at_most
    require_existing_file
validate files c = do
  require_non_empty (text "server.listen_addr") c.listen_addr
  require_https_url (text "server.public_base_url") c.public_base_url
  require_existing_file files (text "server.tls_cert_file") c.tls_cert_file
  require_existing_file files (text "server.tls_key_file") c.tls_key_file
  require_existing_file files (text "agent.package_file") c.agent_package_file
  require_positive_seconds (text "agent.bootstrap_token_ttl_seconds") c.bootstrap_token_ttl_seconds
  require_seconds_at_most (text "agent.bootstrap_token_ttl_seconds") c.bootstrap_token_ttl_seconds
      max_bootstrap_token_ttl_seconds
  require_positive_seconds (text "agent.credential_ttl_seconds") c.credential_ttl_seconds
  require_non_empty (text "agent.trust_bundle") c.trust_bundle
  require_existing_file files (text "agent.install_script_signing_private_key_file")
      c.install_script_signing_private_key_file
  require_non_empty (text "agent.install_script_signing_public_key_pem")
      c.install_script_signing_public_key_pem
  require_non_empty (text "agent.tenant_id") c.tenant_id
  require_non_empty (text "agent.environment_id") c.environment_id
  require_non_empty (text "server.victoria_metrics_url") c.victoria_metrics_url

unfoldable pub install_script_url : AdminConfig → Text → Text
install_script_url c arch =
    c.public_base_url ++ (text "/api/v1/agent/install/" ++ (arch ++ text "/install.sh"))

unfoldable pub agent_package_url : AdminConfig → Text
agent_package_url c = c.public_base_url ++ text "/api/v1/agent/packages/current"

unfoldable pub agent_initial_config_url : AdminConfig → Text
agent_initial_config_url c = c.public_base_url ++ text "/api/v1/agent/initial-config"

-- crates/warp-gateway/src/api/install.rs.
unfoldable pub supported_agent_arch : Text → Option Text
unfolding text_eq
supported_agent_arch arch =
    if text_eq arch (text "x86")
    then some (text "x86")
    else if text_eq arch (text "arm")
    then some (text "arm")
    else none

-- Where the expansion of a value stands: outside a placeholder, after a `$`, or within `${`, with the
-- key read so far, its last byte first.
pub data Expansion : Type 0 where
  outside dollar : Expansion
  within : Text → Expansion

abbrev after : Text → Result Text Text → Result Text Text
after t (ok rest) = ok (t ++ rest)
after t (err e) = err e

abbrev replaced : Text → Option Text → Result Text Text → Result Text Text
replaced key none rest = err (text "missing environment variable " ++ key)
replaced key (some replacement) rest = after replacement rest

-- The text of an invalid placeholder, which quotes the value, is cut to its first words.
unfoldable pub expand_from : (Text → Option Text) → Expansion → Text → Result Text Text
unfolding is_empty
expand_from env outside [] = ok []
expand_from env dollar [] = ok (text "$")
expand_from env (within key) [] = err (text "invalid environment placeholder")
expand_from env outside (c ∷ t) =
    let plain = expand_from env outside t in
    let opened = expand_from env dollar t in if c == 36 then opened else after (c ∷ []) plain
expand_from env dollar (c ∷ t) =
    let plain = expand_from env outside t in
    let again = expand_from env dollar t in
    let opened = expand_from env (within []) t in
    if c == 123
    then opened
    else if c == 36
    then after (text "$") again
    else after (36 ∷ c ∷ []) plain
expand_from env (within key) (c ∷ t) =
    let rest = expand_from env outside t in
    let longer = expand_from env (within (c ∷ key)) t in
    if c == 125
    then if is_empty key
      then err (text "empty environment placeholder")
      else replaced (reverse key) (env (reverse key)) rest
    else longer

unfoldable pub expand_env : (Text → Option Text) → Text → Result Text Text
unfolding expand_from
expand_env env value = expand_from env outside value

-- The text names the bound, which is 8 where this is called.
unfoldable pub require_min_secret_length : (field value : Text) → ℕ → Result Text (Unit {0})
require_min_secret_length field value least =
    guard (leb least (length value)) (field ++ text " must be at least 8 bytes")

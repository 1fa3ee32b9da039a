-- ===== src/Gateway/Install.antt =====
-- crates/warp-gateway/src/api/install.rs: the commands, the script and the settings that an agent is
-- installed with. A text is the codes of its characters. The template of the script, the pin of the
-- TLS certificate, the hash of the package and the signature are arguments.
use warp_insight.Prelude.{ℕ, suc, zero, none, some, List, [], ◌∷◌, ◌++◌, take, drop, length}
use warp_insight.Prelude.Text.{Text, text, strip_prefix}
use warp_insight.Prelude.Results.{Result, ok, err, ◌>>=◌}
use warp_insight.Secret.{sha256_hex}
use warp_insight.Gateway.Toml.{toml_escape}
use warp_insight.Gateway.Settings.{
  AdminConfig, install_script_url, agent_package_url, agent_initial_config_url,
  supported_agent_arch,
}
use warp_insight.Gateway.Settings.Loading.{trim_trailing_slash}

abbrev quote : Text → Text
quote t = 34 ∷ (t ++ (34 ∷ []))

abbrev lines : List Text → Text
lines [] = []
lines (t ∷ texts) = t ++ (10 ∷ lines texts)

unfoldable pub tls_mode_for_endpoint : Text → Text
unfolding strip_prefix
tls_mode_for_endpoint endpoint = elim (strip_prefix (text "https://") endpoint) [
  | none ↦ text "http"
  | some rest ↦ text "https"
]

unfoldable pub short_token_id : (List ℕ → List ℕ) → Text → Text
unfolding sha256_hex
short_token_id digest token = take 12 (sha256_hex digest token)

abbrev setting : (key value : Text) → Text
setting key value = key ++ (text " = " ++ quote value)

unfoldable pub agent_initial_config_toml : (List ℕ → List ℕ) → AdminConfig → Text → Text
unfolding short_token_id tls_mode_for_endpoint toml_escape
agent_initial_config_toml digest config enrollment_token = lines (
    setting (text "schema_version") (text "v1")
    ∷ []
    ∷ text "[agent]"
    ∷ setting (text "environment_id") (toml_escape config.environment_id)
    ∷ setting (text "instance_name")
        (toml_escape (text "host-" ++ short_token_id digest enrollment_token))
    ∷ []
    ∷ text "[control_plane]"
    ∷ text "enabled = true"
    ∷ setting (text "endpoint") (toml_escape config.public_base_url)
    ∷ setting (text "enrollment_token") (toml_escape enrollment_token)
    ∷ setting (text "credential_request") (text "bearer")
    ∷ setting (text "tls_mode") (toml_escape (tls_mode_for_endpoint config.public_base_url))
    ∷ setting (text "trust_bundle") (toml_escape config.trust_bundle)
    ∷ setting (text "auth_mode") (text "enrollment_token")
    ∷ []
    ∷ text "[paths]"
    ∷ setting (text "root_dir") (text "..")
    ∷ setting (text "run_dir") (text "run")
    ∷ setting (text "state_dir") (text "state")
    ∷ setting (text "log_dir") (text "log")
    ∷ []
    ∷ text "[telemetry.logs]"
    ∷ text "in_memory_buffer_bytes = 1048576"
    ∷ setting (text "spool_dir") (text "state/spool/logs")
    ∷ []
    ∷ text "[telemetry.logs.output]"
    ∷ setting (text "kind") (text "file")
    ∷ []
    ∷ text "[telemetry.logs.output.file]"
    ∷ setting (text "path") (text "log/wist-records.ndjson")
    ∷ []
    ∷ text "[discovery]"
    ∷ text "host_enabled = true"
    ∷ text "network_enabled = true"
    ∷ text "endpoint_enabled = true"
    ∷ text "process_enabled = true"
    ∷ text "container_enabled = false"
    ∷ [])

unfoldable pub install_script_signature_url : Text → Text
install_script_signature_url script_url = script_url ++ text ".sig"

-- The first line of both commands.
abbrev working_dir : Text
working_dir =
    text "set -eu; D=\"$(mktemp -d)\"; trap 'rm -rf \"$D\"' EXIT INT TERM; echo \"working dir: $D\""

-- The last line has no line feed after it, and the PEM brings its own.
unfoldable pub install_command : AdminConfig → Text → Text
unfolding install_script_signature_url
install_command config script_url =
    lines (
      working_dir
      ∷ (text "curl -fsSLk " ++ (quote script_url ++ text " -o \"$D/s\""))
      ∷ (text "curl -fsSLk "
          ++ (quote (install_script_signature_url script_url) ++ text " -o \"$D/sig\""))
      ∷ text "cat >\"$D/key.pem\" <<'EOF'"
      ∷ (config.install_script_signing_public_key_pem ++ text "EOF")
      ∷ [])
    ++ text
        "openssl pkeyutl -verify -pubin -inkey \"$D/key.pem\" -rawin -in \"$D/s\" -sigfile \"$D/sig\" && sh \"$D/s\""

unfoldable pub macos_install_command :
    (server_tls_spki_pin : Result Text Text) → AdminConfig → Result Text Text
unfolding trim_trailing_slash
macos_install_command server_tls_spki_pin config = do
  pin ← server_tls_spki_pin
  ok (
      lines (
        working_dir
        ∷ text
            "if [ \"$(uname -s)\" != \"Darwin\" ]; then echo \"this install command is for macOS only\" >&2; exit 2; fi"
        ∷ text "case \"$(uname -m)\" in arm64) ARCH=arm ;; *) ARCH=x86 ;; esac"
        ∷ (text "curl -fsSLk --pinnedpubkey "
            ++ (quote (text "sha256//" ++ pin)
                ++ (text " "
                    ++ (quote (
                          trim_trailing_slash config.public_base_url
                          ++ text "/api/v1/agent/install/$ARCH/install.sh")
                        ++ text " -o \"$D/s\""))))
        ∷ [])
      ++ text "sh \"$D/s\"")

-- `str::replace` of a pattern that is not empty: `left` counts what remains of a match.
unfoldable pub replace : (pattern value : Text) → (left : ℕ) → Text → Text
unfolding strip_prefix
replace pattern value left [] = []
replace pattern value (suc left) (c ∷ t) = replace pattern value left t
replace pattern value zero (c ∷ t) =
    let skipped = replace pattern value (length (drop 1 pattern)) t in
    let kept = replace pattern value zero t in
    elim (strip_prefix pattern (c ∷ t)) [ none ↦ c ∷ kept | some rest ↦ value ++ skipped ]

unfoldable pub install_script :
    (template : Text)
    → (package_sha256 : Result Text Text) → AdminConfig
    → (arch : Text) → Result Text Text
unfolding replace agent_package_url agent_initial_config_url
install_script template package_sha256 config arch = do
  hash ← package_sha256
  ok (
      replace (text "{{TRUST_BUNDLE}}") config.trust_bundle 0 (
        replace (text "{{AGENT_PACKAGE_SHA256}}") hash 0 (
          replace (text "{{AGENT_INITIAL_CONFIG_URL}}") (agent_initial_config_url config) 0 (
            replace (text "{{AGENT_PACKAGE_URL}}") (agent_package_url config) 0
              (replace (text "{{ARCH}}") arch 0 template)))))

unfoldable pub install_script_signature :
    (sign : Text → Result Text (List ℕ))
    → (template : Text) → (package_sha256 : Result Text Text) → AdminConfig
    → (arch : Text) → Result Text (List ℕ)
unfolding install_script
install_script_signature sign template package_sha256 config arch = do
  script ← install_script template package_sha256 config arch
  sign script

pub record AgentBootstrapBundle : Type 0 where
  pub bundle_id : Text
  pub install_script_url : Text
  pub agent_package_url : Text
  pub agent_package_sha256 : Text
  pub control_endpoint : Text
  pub trust_bundle : Text
  pub tenant_id : Text
  pub environment_id : Text
  pub expires_at : ℕ

pub record AgentInstallCode : Type 0 where
  pub x86_linux_install_code : Text
  pub bootstrap_enrollment_token : Text
  pub arm_linux_install_code : Text
  pub macos_install_code : Text
  pub bootstrap_bundle : AgentBootstrapBundle

-- `expires_at` is printed and parsed again in the source, which gives the same instant.
unfoldable pub agent_install_code :
    (List ℕ → List ℕ)
    → (package_sha256 server_tls_spki_pin : Result Text Text) → AdminConfig
    → (token : Text) → (expires_at : ℕ) → Result Text AgentInstallCode
unfolding short_token_id install_command macos_install_command agent_package_url
agent_install_code digest package_sha256 server_tls_spki_pin config token expires_at = do
  hash ← package_sha256
  macos ← macos_install_command server_tls_spki_pin config
  ok (record {
    x86_linux_install_code = install_command config (install_script_url config (text "x86"));
    bootstrap_enrollment_token = token;
    arm_linux_install_code = install_command config (install_script_url config (text "arm"));
    macos_install_code = macos;
    bootstrap_bundle = record {
      bundle_id = text "agent-bootstrap-" ++ short_token_id digest token;
      install_script_url = install_script_url config (text "x86");
      agent_package_url = agent_package_url config;
      agent_package_sha256 = hash;
      control_endpoint = config.public_base_url;
      trust_bundle = config.trust_bundle;
      tenant_id = config.tenant_id;
      environment_id = config.environment_id;
      expires_at = expires_at;
    };
  })

-- The answers of the two handlers of the script: its text or its signature, 404, or 500.
pub data ScriptReturned : Type 0 where
  rendered : Text → ScriptReturned
  unknown_arch : ScriptReturned
  failed : Text → ScriptReturned

abbrev answered : (error : Text) → Result Text Text → ScriptReturned
answered error (ok body) = ScriptReturned.rendered body
answered error (err e) = ScriptReturned.failed (error ++ e)

unfoldable pub get_agent_install_script :
    (template : Text)
    → (package_sha256 : Result Text Text) → AdminConfig
    → (arch : Text) → ScriptReturned
unfolding supported_agent_arch install_script
get_agent_install_script template package_sha256 config arch = elim (supported_agent_arch arch) [
  | none ↦ ScriptReturned.unknown_arch
  | some known ↦
      answered (text "failed to render install script: ")
        (install_script template package_sha256 config known)
]

unfoldable pub get_agent_install_script_signature :
    (sign : Text → Result Text (List ℕ))
    → (template : Text) → (package_sha256 : Result Text Text) → AdminConfig
    → (arch : Text) → ScriptReturned
unfolding supported_agent_arch install_script_signature
get_agent_install_script_signature sign template package_sha256 config arch =
    elim (supported_agent_arch arch) [
      | none ↦ ScriptReturned.unknown_arch
      | some known ↦
          answered (text "failed to sign install script: ")
            (install_script_signature sign template package_sha256 config known)
    ]

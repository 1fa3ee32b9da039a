-- ===== src/Gateway/SettingsTests.antt =====
-- The settings of the gateway on concrete data.
use warp_insight.Prelude.{
  ◌≡◌, ◌≤◌, ◌-◌, refl, length, take, [], ◌∷◌, ◌++◌, ℕ, map, Option, none, some,
}
use warp_insight.Prelude.Text.{Text, text}
use warp_insight.Prelude.Results.{ok}
use warp_insight.Gateway.Package.{Metadata}
use warp_insight.Gateway.Package.Fresh.{current_hash, run, run-current_hash}
use warp_insight.Gateway.Toml.{Reading, toml_escape, basic_string, basic_string-toml_escape}
use warp_insight.Gateway.Settings.{
  AdminConfig, nonnegative, file, install_script_url, supported_agent_arch, validate,
}
use warp_insight.Gateway.Settings.Shell.{double_quoted, double_quoted-install_script_url}
use warp_insight.Gateway.Install.{install_script_signature_url}
use warp_insight.Gateway.Overview.{DateTimes}
use warp_insight.Gateway.Overview.Recent.{Recording, record_all, entries, record_all-bounds}

basic_string-toml_escape_example :
    basic_string Reading.outside (toml_escape (text "a\"b\\" ++ (10 ∷ 27 ∷ [])))
    ≡ some (text "a\"b\\" ++ (10 ∷ 27 ∷ []))
basic_string-toml_escape_example = basic_string-toml_escape (text "a\"b\\" ++ (10 ∷ 27 ∷ []))

abbrev config : AdminConfig
config = record {
  listen_addr = text "0.0.0.0:443";
  public_base_url = text "https://gw";
  tls_cert_file = text "/c";
  tls_key_file = text "/k";
  admin_api_token_hash = text "h";
  agent_package_file = text "/p";
  bootstrap_token_ttl_seconds = nonnegative 900;
  credential_ttl_seconds = nonnegative 3600;
  store_file = text "/s";
  trust_bundle = text "PEM";
  install_script_signing_private_key_file = text "/i";
  install_script_signing_public_key_pem = text "PEM";
  tenant_id = text "t";
  environment_id = text "e";
  victoria_metrics_url = text "http://vm";
}

double_quoted-install_script_url_example :
    (double_quoted (install_script_url config (text "arm") ++ (34 ∷ text " -o"))
      ≡ some (install_script_url config (text "arm"), text " -o"))
    × (double_quoted (
          install_script_signature_url (install_script_url config (text "arm"))
          ++ (34 ∷ text " -o"))
        ≡ some (install_script_signature_url (install_script_url config (text "arm")), text " -o"))
unfolding validate supported_agent_arch
double_quoted-install_script_url_example =
    double_quoted-install_script_url (λ path. file) config (text "arm") (text "arm") (text " -o")
      refl refl

abbrev dates : DateTimes
dates = record { from_rfc3339 = λ t. none; seconds_until = λ a b. nonnegative (b - a) }

abbrev seen : (now : ℕ) → (agent_id : Text) → Recording
seen now agent_id = record {
  now = now;
  agent_id = agent_id;
  instance_id = text "i";
  version = text "1";
  requested_at = text "";
}

record_all-bounds_example :
    let agents =
      record_all dates
        ((seen 1 (text "a") ∷ seen 2 (text "b") ∷ []) ++ (seen 3 (text "a") ∷ []))
        [] in
    (length agents ≤ 6)
    × (entries (text "a") agents ≤ 1)
    × (map (λ a. a.agent_id) (take 1 agents) ≡ text "a" ∷ [])
record_all-bounds_example =
    record_all-bounds dates (seen 1 (text "a") ∷ seen 2 (text "b") ∷ []) (seen 3 (text "a"))
      (text "a")

abbrev built : (modified : Option ℕ) → (len : ℕ) → Metadata
built modified len = record { modified = modified; len = len }

run-current_hash_example :
    run
      (λ bytes. bytes)
      (λ modified len. modified ∷ len ∷ [])
      (built (some 5) 2 ∷ built (some 5) 2 ∷ built none 3 ∷ [])
      none
    ≡ map
        (λ m. ok (current_hash (λ bytes. bytes) (λ modified len. modified ∷ len ∷ []) m))
        (built (some 5) 2 ∷ built (some 5) 2 ∷ built none 3 ∷ [])
run-current_hash_example =
    run-current_hash (λ bytes. bytes) (λ modified len. modified ∷ len ∷ [])
      (built (some 5) 2 ∷ built (some 5) 2 ∷ built none 3 ∷ [])

-- ===== src/Gateway/Agents/Renewal.antt =====
-- crates/warp-gateway/src/api/agent_ops.rs, `renew_agent_credential`: the credential is replaced.
pub mod Rotation
use warp_insight.Prelude.{
  ℕ, ◌+◌, ◌*◌, Bool, true, false, not, ◌&&◌, ◌||◌, Option, none, some, List, ◌++◌, leb,
  if◌then◌else◌,
}
use warp_insight.Prelude.Text.{Text, text, text_eq}
use warp_insight.Prelude.Assoc.{get}
use warp_insight.Prelude.Chrono.{Chrono}
use warp_insight.Prelude.Results.{Result, ok, err, guard, ◌>>=◌, ◌>>◌}
use warp_insight.Secret.{Headers, bearer_token, sha256_hex, new_secret_token}
use warp_insight.Gateway.Config.{AdminConfig}
use warp_insight.Gateway.Store.{
  StoredAgentRegistration, AdminStoreSnapshot, credential_is_active, Disk, update,
}
use warp_insight.Gateway.Agents.{
  Refusal, unauthorized, bad_request, internal, or_refuse, authenticate_agent, put_agent,
}

pub record CredentialRenewal : Type 0 where
  pub api_version : Text
  pub kind : Text
  pub credential_request : Text
  pub agent_id : Text
  pub instance_id : Text

-- The part of `CredentialBundle` that carries the credential.
pub record CredentialBundle : Type 0 where
  pub credential_id : Text
  pub agent_id : Text
  pub instance_id : Text
  pub bearer_token : Text
  pub issued_at : Text
  pub not_after : Text

unfoldable pub renewed : Text → CredentialBundle → StoredAgentRegistration → StoredAgentRegistration
renewed token_hash bundle stored = record stored {
  credential_id = bundle.credential_id;
  credential_token_hash = token_hash;
  credential_issued_at = bundle.issued_at;
  credential_expires_at = bundle.not_after;
}

-- The closure of the update: the token may have been replaced since it was checked.
unfoldable pub replace_credential :
    (List ℕ → List ℕ)
    → Text
    → StoredAgentRegistration
    → CredentialBundle
    → AdminStoreSnapshot
    → AdminStoreSnapshot × Bool
unfolding renewed sha256_hex
replace_credential digest current_token_hash agent bundle s = elim (get agent.agent_id s.agents) [
  | none ↦ (s, false)
  | some stored ↦
      if not (text_eq stored.instance_id agent.instance_id)
        || not (text_eq stored.credential_token_hash current_token_hash)
        || not (credential_is_active stored.credential_status)
      then (s, false)
      else (
        put_agent (renewed (sha256_hex digest bundle.bearer_token) bundle stored) agent.agent_id s,
        true,
      )
]

abbrev pub answer :
    CredentialBundle
    → AdminStoreSnapshot × Result Text Bool
    → AdminStoreSnapshot × Result Refusal CredentialBundle
answer bundle (s, ok true) = (s, ok bundle)
answer bundle (s, ok false) = (s, err (unauthorized (text "invalid agent credential")))
answer bundle (s, err e) = (s, err (internal (text "failed to renew agent credential: " ++ e)))

-- The text that `new_secret_token` fails with.
abbrev no_random : Refusal
no_random = internal (text "failed to read system random source")

-- What comes before the update: the token in use, the agent, and the new credential.
unfoldable pub prepare :
    (List ℕ → List ℕ)
    → Chrono
    → AdminConfig
    → (renew_agent_credential_kind : Text) → (auth_now now : ℕ) → Disk
    → (token_bytes id_bytes : Option (List ℕ)) → Headers
    → CredentialRenewal
    → AdminStoreSnapshot
    → Result Refusal (Text × StoredAgentRegistration × CredentialBundle)
unfolding bearer_token sha256_hex authenticate_agent new_secret_token
prepare digest chrono config kind auth_now now disk token_bytes id_bytes headers input s = do
  guard (text_eq input.api_version (text "v1") && text_eq input.kind kind)
      (bad_request (text "invalid credential renewal request"))
  guard (text_eq input.credential_request (text "bearer"))
      (bad_request (text "unsupported credential request"))
  current_token ← or_refuse (unauthorized (text "missing bearer credential")) (bearer_token headers)
  agent ← authenticate_agent digest chrono auth_now disk s headers input.agent_id input.instance_id
  new_token ← or_refuse no_random (new_secret_token (text "wic") token_bytes)
  credential_id ← or_refuse no_random (new_secret_token (text "cred") id_bytes)
  ok (
    sha256_hex digest current_token,
    agent,
    record {
      credential_id = credential_id;
      agent_id = agent.agent_id;
      instance_id = agent.instance_id;
      bearer_token = new_token;
      issued_at = chrono.to_rfc3339 now;
      not_after = chrono.to_rfc3339 (now + config.credential_ttl_seconds * 1_000_000_000);
    },
  )

unfoldable pub renew_agent_credential :
    (List ℕ → List ℕ)
    → Chrono
    → AdminConfig
    → (renew_agent_credential_kind : Text) → (auth_now now : ℕ) → (loading writing : Disk)
    → (token_bytes id_bytes : Option (List ℕ)) → Headers
    → CredentialRenewal
    → AdminStoreSnapshot
    → AdminStoreSnapshot × Result Refusal CredentialBundle
unfolding prepare update replace_credential
renew_agent_credential digest chrono config kind auth_now now loading writing token_bytes id_bytes
      headers input s =
    elim (prepare digest chrono config kind auth_now now loading token_bytes id_bytes headers input
      s) [
        | err refusal ↦ (s, err refusal)
        | ok (current_token_hash, agent, bundle) ↦
            answer bundle
              (update writing (replace_credential digest current_token_hash agent bundle) s)
      ]

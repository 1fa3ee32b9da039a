-- ===== src/Gateway/Agents/Credential.antt =====
-- A registration that holds one credential, and who then passes as the agent.
use warp_insight.Prelude.{ℕ, ◌<◌, ◌≡◌, sym, ap, ◌∙◌, some, List, arith}
use warp_insight.Prelude.Text.{Text}
use warp_insight.Prelude.Assoc.{get}
use warp_insight.Prelude.Chrono.{Chrono}
use warp_insight.Prelude.Results.{ok}
use warp_insight.Secret.{Headers, bearer_token, sha256_hex}
use warp_insight.Gateway.Store.{
  StoredAgentRegistration, StoredCredentialStatus, AdminStoreSnapshot, Disk, load,
}
use warp_insight.Gateway.Agents.{authenticate_agent}
use warp_insight.Gateway.Agents.Authentication.{authenticate_agent_iff}

pub record HasCredential (digest : List ℕ → List ℕ) (agent_id instance_id token not_after : Text)
    (s : AdminStoreSnapshot) : Type 0 where
  pub agent : StoredAgentRegistration
  pub registered : get agent_id s.agents ≡ some agent
  pub instance_matches : agent.instance_id ≡ instance_id
  pub hash_matches : agent.credential_token_hash ≡ sha256_hex digest token
  pub active : agent.credential_status ≡ StoredCredentialStatus.active
  pub expiry : agent.credential_expires_at ≡ not_after

module _ (digest : List ℕ → List ℕ) (chrono : Chrono) (agent_id instance_id token not_after : Text)
    (s : AdminStoreSnapshot) (has : HasCredential digest agent_id instance_id token not_after s)
    (later : ℕ) (disk : Disk) (readable : load disk s ≡ ok s) (headers : Headers) where
  pub credential-accepts :
      (expires_at : ℕ)
      → chrono.parse_from_rfc3339 not_after ≡ some expires_at
      → later < expires_at
      → bearer_token headers ≡ some token
      → authenticate_agent digest chrono later disk s headers agent_id instance_id ≡ ok has.agent
  credential-accepts expires_at p t b =
      (authenticate_agent_iff digest chrono later disk s headers agent_id instance_id has.agent
          readable).1
        (record {
          token = token;
          sent = b;
          registered = has.registered;
          instance_matches = has.instance_matches;
          hash_matches = has.hash_matches;
          active = has.active;
          expires_at = expires_at;
          expiry = ap (λ x. chrono.parse_from_rfc3339 x) has.expiry ∙ p;
          in_time = t;
        })

  pub credential-refuses :
      (agent : StoredAgentRegistration) (other : Text)
      → bearer_token headers ≡ some other
      → authenticate_agent digest chrono later disk s headers agent_id instance_id ≡ ok agent
      → sha256_hex digest other ≡ sha256_hex digest token
  credential-refuses agent other b h =
      let a =
        (authenticate_agent_iff digest chrono later disk s headers agent_id instance_id agent
            readable).0
          h in
      let same_token : a.token ≡ other = ground (arith, a.sent) in
      let same_agent : agent ≡ has.agent = ground (arith, a.registered, has.registered) in
      sym (ap (sha256_hex digest) same_token)
      ∙ sym a.hash_matches
      ∙ ap (λ x. x.credential_token_hash) same_agent
      ∙ has.hash_matches

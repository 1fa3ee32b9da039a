-- ===== src/Gateway/Agents/Authentication.antt =====
-- Who passes `authenticate_agent`.
use warp_insight.Prelude.{ℕ, ◌<◌, ◌≡◌, refl, ◌↔◌, true, false, some, List, arith}
use warp_insight.Prelude.Text.{Text, text_eq, text_eq_iff}
use warp_insight.Prelude.Assoc.{get}
use warp_insight.Prelude.Chrono.{Chrono}
use warp_insight.Prelude.Results.{ok}
use warp_insight.Secret.{Headers, bearer_token, sha256_hex, constant_time_eq, constant_time_eq_iff}
use warp_insight.Gateway.Store.{
  StoredAgentRegistration, StoredCredentialStatus, AdminStoreSnapshot, credential_is_active, Disk,
  load,
}
use warp_insight.Gateway.Agents.{authenticate_agent, credential_is_expired}

-- What is asked of a request for the agent's registration.
pub record Authentic (digest : List ℕ → List ℕ) (chrono : Chrono) (now : ℕ) (s : AdminStoreSnapshot)
    (headers : Headers) (agent_id instance_id : Text) (agent : StoredAgentRegistration)
    : Type 0 where
  pub token : Text
  pub sent : bearer_token headers ≡ some token
  pub registered : get agent_id s.agents ≡ some agent
  pub instance_matches : agent.instance_id ≡ instance_id
  pub hash_matches : agent.credential_token_hash ≡ sha256_hex digest token
  pub active : agent.credential_status ≡ StoredCredentialStatus.active
  pub expires_at : ℕ
  pub expiry : chrono.parse_from_rfc3339 agent.credential_expires_at ≡ some expires_at
  pub in_time : now < expires_at

pub is_active-eq :
    (status : StoredCredentialStatus)
    → credential_is_active status ≡ true
    → status ≡ StoredCredentialStatus.active
is_active-eq StoredCredentialStatus.active h = refl
is_active-eq StoredCredentialStatus.expired h = cc
is_active-eq StoredCredentialStatus.revoked h = cc

unexpired :
    (chrono : Chrono) (now : ℕ) (expires_at : Text)
    → credential_is_expired chrono now expires_at ≡ false
    → (t : ℕ) × (chrono.parse_from_rfc3339 expires_at ≡ some t) × (now < t)
unfolding credential_is_expired
unexpired chrono now expires_at h = ground arith

authenticate-inv :
    (digest : List ℕ → List ℕ) (chrono : Chrono) (now : ℕ) (disk : Disk) (s : AdminStoreSnapshot)
    (headers : Headers) (agent_id instance_id : Text) (agent : StoredAgentRegistration)
    → load disk s ≡ ok s
    → authenticate_agent digest chrono now disk s headers agent_id instance_id ≡ ok agent
    → (token : Text) × (bearer_token headers ≡ some token)
      × (get agent_id s.agents ≡ some agent)
      × (text_eq agent.instance_id instance_id ≡ true)
      × (constant_time_eq agent.credential_token_hash (sha256_hex digest token) ≡ true)
      × (credential_is_active agent.credential_status ≡ true)
      × (credential_is_expired chrono now agent.credential_expires_at ≡ false)
unfolding authenticate_agent
authenticate-inv digest chrono now disk s headers agent_id instance_id agent d h = ground arith

authenticate_complete :
    (digest : List ℕ → List ℕ) (chrono : Chrono) (now : ℕ) (disk : Disk) (s : AdminStoreSnapshot)
    (headers : Headers) (agent_id instance_id : Text) (agent : StoredAgentRegistration)
    → load disk s ≡ ok s
    → Authentic digest chrono now s headers agent_id instance_id agent
    → authenticate_agent digest chrono now disk s headers agent_id instance_id ≡ ok agent
unfolding authenticate_agent credential_is_expired
authenticate_complete digest chrono now disk s headers agent_id instance_id agent d a =
    let same_id = (text_eq_iff agent.instance_id instance_id).1 a.instance_matches in
    let same_hash =
      (constant_time_eq_iff agent.credential_token_hash (sha256_hex digest a.token)).1
        a.hash_matches in
    let is_active : credential_is_active agent.credential_status ≡ true = rw a.active refl in
    ground (arith, a.sent, a.registered, same_id, same_hash, is_active, a.expiry, a.in_time, d)

-- When the store can be read, a request passes as an agent exactly if it carries a bearer token, the
-- agent named in it is registered with the instance named in it, the registration holds the hash of
-- the token and is active, and its expiry is a time that is not reached.
pub authenticate_agent_iff :
    (digest : List ℕ → List ℕ) (chrono : Chrono) (now : ℕ) (disk : Disk) (s : AdminStoreSnapshot)
    (headers : Headers) (agent_id instance_id : Text) (agent : StoredAgentRegistration)
    → load disk s ≡ ok s
    → (authenticate_agent digest chrono now disk s headers agent_id instance_id ≡ ok agent)
      ↔ Authentic digest chrono now s headers agent_id instance_id agent
authenticate_agent_iff digest chrono now disk s headers agent_id instance_id agent d =
    (sound, authenticate_complete digest chrono now disk s headers agent_id instance_id agent d)
  where
    sound :
        authenticate_agent digest chrono now disk s headers agent_id instance_id ≡ ok agent
        → Authentic digest chrono now s headers agent_id instance_id agent
    sound h =
        let (token, sent, registered, i, c, a, e) =
          authenticate-inv digest chrono now disk s headers agent_id instance_id agent d h in
        let (t, expiry, in_time) = unexpired chrono now agent.credential_expires_at e in
        record {
          token = token;
          sent = sent;
          registered = registered;
          instance_matches = (text_eq_iff agent.instance_id instance_id).0 i;
          hash_matches =
              (constant_time_eq_iff agent.credential_token_hash (sha256_hex digest token)).0 c;
          active = is_active-eq agent.credential_status a;
          expires_at = t;
          expiry = expiry;
          in_time = in_time;
        }

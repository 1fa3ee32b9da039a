-- ===== src/Gateway/Tests.antt =====
-- Runs of the gateway on concrete data. Here the digest is the identity, and the text of a time is
-- the number itself.
use warp_insight.Prelude.{
  ℕ, ◌+◌, ◌*◌, ◌-◌, ◌/◌, ◌≤◌, ◌<◌, ◌≡◌, refl, ◌↔◌, max, true, false, Bool, List, [], ◌∷◌, ◌++◌,
  Option, none, some, arith, length,
}
use warp_insight.Prelude.Text.{Text, text, text_eq, text_eq_iff}
use warp_insight.Prelude.Assoc.{contains_key, get}
use warp_insight.Prelude.Chrono.{Chrono}
use warp_insight.Prelude.Results.{ok, err}
use warp_insight.Secret.{Headers, bearer_token, sha256_hex}
use warp_insight.Snapshots.{works, sync_fails, load}
use warp_insight.Gateway.Config.{AdminConfig}
use warp_insight.Gateway.RateLimit.{second, check_rate_limit}
use warp_insight.Gateway.RateLimit.Bound.{run-bound, run, Call, checks, records, clears}
use warp_insight.Gateway.RateLimit.Amid.{check_rate_limit-blocked, failures_of, last_of}
use warp_insight.Gateway.RateLimit.Blocking.{
  fail_at, check_rate_limit-few, check_rate_limit-cut_short,
}
use warp_insight.Gateway.Store.{AdminStoreSnapshot, StoredAgentRegistration}
use warp_insight.Gateway.Tokens.{store_issued_token}
use warp_insight.Gateway.Tokens.Uses.{
  validates, reserves, commits, rolls_back, registrations, reissued,
}
use warp_insight.Gateway.Tokens.SingleUse.{issued_token-single_use}
use warp_insight.Gateway.Identifiers.{agent_version_from_capability_summary}
use warp_insight.Gateway.Enrollment.{
  EnrollmentRequest, Enrolled, Surroundings, registration, enrolled, agent_enrollment_result,
}
use warp_insight.Gateway.Enrollment.Accepted.{agent_enrollment_result-accepts}
use warp_insight.Gateway.Enrollment.Rejected.{agent_enrollment_result-rejects}
use warp_insight.Gateway.Agents.{authenticate_agent}
use warp_insight.Gateway.Agents.Authentication.{Authentic, authenticate_agent_iff}
use warp_insight.Gateway.Agents.Renewal.{
  CredentialRenewal, CredentialBundle, renew_agent_credential,
}
use warp_insight.Gateway.Agents.Renewal.Rotation.{
  renew_agent_credential-accepts, renew_agent_credential-refuses,
}
use warp_insight.Gateway.AdminOps.{
  DispatchReceipt, dispatch_receipt, upgrade_agent, upgrade_agent-admits,
}
use warp_insight.Gateway.Admission.{require_admin_bearer}
use warp_insight.Gateway.Admission.AdminBearer.{Passes, require_admin_bearer_iff}

abbrev digest : List ℕ → List ℕ
digest bytes = bytes

abbrev read_stamp : Text → Option ℕ
read_stamp [] = none
read_stamp (t ∷ []) = some t
read_stamp (t ∷ u ∷ rest) = none

abbrev clock : Chrono
clock = record { parse_from_rfc3339 = read_stamp; to_rfc3339 = λ t. t ∷ [] }

abbrev config : AdminConfig
config = record {
  tenant_id = text "t";
  environment_id = text "e";
  admin_api_token_hash = text "61";
  bootstrap_token_ttl_seconds = 60;
  credential_ttl_seconds = 60;
}

abbrev bearer : Text → Headers
bearer token = record { authorization = some (text "Bearer " ++ token); identity_token = none }

abbrev no_store : AdminStoreSnapshot
no_store = record { enrollment_tokens = []; agents = [] }

abbrev request : EnrollmentRequest
request = record {
  api_version = text "v1";
  kind = text "submit_enrollment_request";
  token = text "x";
  requested_at = text "";
  node_id = text "unknown";
  hostname = text " h-1 ";
  machine_id = text "";
  capability_summary = text "host, version=1";
}

abbrev calm : Option (List ℕ) → Surroundings
calm random = record {
  reserve_now = 2;
  reserve_later = 3;
  issue_now = 4;
  commit_now = 5;
  reserve_disk = works;
  commit_disk = works;
  rollback_disk = works;
  random = random;
}

abbrev agent : StoredAgentRegistration
agent =
    registration digest clock config 5 request (text "1")
      (enrolled clock config 4 request (text "y"))

abbrev enrolled_store : AdminStoreSnapshot
enrolled_store = record { enrollment_tokens = []; agents = (text "agent-h-1", agent) ∷ [] }

-- The hash of the token "x".
abbrev hash : Text
hash = text "78"

issued_token-single_use_example :
    registrations clock config hash
      ((validates 1 hash, works)
        ∷ (reserves 2 3 hash (text "a"), works)
        ∷ (commits hash agent, sync_fails (text "disk"))
        ∷ (rolls_back hash, works)
        ∷ (reserves 4 5 hash (text "b"), works)
        ∷ [])
      (store_issued_token clock config 0 hash no_store).0
    ≤ 1
unfolding reissued
issued_token-single_use_example =
    issued_token-single_use clock config 0 hash
      ((validates 1 hash, works)
        ∷ (reserves 2 3 hash (text "a"), works)
        ∷ (commits hash agent, sync_fails (text "disk"))
        ∷ (rolls_back hash, works)
        ∷ (reserves 4 5 hash (text "b"), works)
        ∷ [])
      no_store refl

authenticate_agent_iff_example :
    (authenticate_agent digest clock 5 works enrolled_store
        (bearer (text "y"))
        (text "agent-h-1")
        (text "h-1")
      ≡ ok agent)
    ↔ Authentic digest clock 5 enrolled_store
        (bearer (text "y"))
        (text "agent-h-1")
        (text "h-1")
        agent
unfolding load
authenticate_agent_iff_example =
    authenticate_agent_iff digest clock 5 works enrolled_store (bearer (text "y"))
      (text "agent-h-1") (text "h-1") agent refl

abbrev issued_store : AdminStoreSnapshot
issued_store = (store_issued_token clock config 0 hash no_store).0

abbrev accepted_store : AdminStoreSnapshot
accepted_store =
    (agent_enrollment_result digest clock config (calm (some (7 ∷ []))) request (text "1")
      issued_store).0

abbrev outcome : Enrolled
outcome = enrolled clock config 4 request (text "wic_07")

enrollment_accepted :
    agent_enrollment_result digest clock config
      (calm (some (7 ∷ [])))
      request
      (text "1")
      issued_store
    ≡ (accepted_store, ok outcome)
unfolding agent_enrollment_result text_eq get store_issued_token warp_insight.Prelude.Assoc.insert
    warp_insight.Prelude.Assoc.contains_key
enrollment_accepted = refl

agent_enrollment_result-accepts_example :
    (a : StoredAgentRegistration) × (authenticate_agent digest clock 6 works accepted_store
        (bearer (text "wic_07"))
        (text "agent-h-1")
        (text "h-1")
      ≡ ok a)
unfolding load bearer_token enrolled text_eq
agent_enrollment_result-accepts_example =
    agent_enrollment_result-accepts digest clock config (calm (some (7 ∷ []))) request (text "1")
      outcome issued_store accepted_store (λ t. refl) enrollment_accepted 6 works refl (omega arith)
      (bearer (text "wic_07")) refl

enrollment_rejected :
    agent_enrollment_result digest clock config (calm (some (7 ∷ []))) request (text "1") no_store
    ≡ (no_store, err (text "invalid_enrollment_token"))
unfolding agent_enrollment_result text_eq get
enrollment_rejected = refl

agent_enrollment_result-rejects_example : no_store.agents ≡ no_store.agents
agent_enrollment_result-rejects_example =
    agent_enrollment_result-rejects digest clock config (calm (some (7 ∷ []))) request (text "1")
      (text "invalid_enrollment_token") no_store no_store refl enrollment_rejected

abbrev renewal : CredentialRenewal
renewal = record {
  api_version = text "v1";
  kind = text "renew";
  credential_request = text "bearer";
  agent_id = text "agent-h-1";
  instance_id = text "h-1";
}

abbrev bundle : CredentialBundle
bundle = record {
  credential_id = text "cred_08";
  agent_id = text "agent-h-1";
  instance_id = text "h-1";
  bearer_token = text "wic_07";
  issued_at = 6 ∷ [];
  not_after = (6 + 60 * 1_000_000_000) ∷ [];
}

abbrev renewed_store : AdminStoreSnapshot
renewed_store =
    (renew_agent_credential digest clock config (text "renew") 5 6 works works (some (7 ∷ []))
      (some (8 ∷ [])) (bearer (text "y")) renewal enrolled_store).0

renewal_answers :
    renew_agent_credential digest clock config
      (text "renew")
      5
      6
      works
      works
      (some (7 ∷ []))
      (some (8 ∷ []))
      (bearer (text "y"))
      renewal
      enrolled_store
    ≡ (renewed_store, ok bundle)
unfolding renew_agent_credential text_eq get warp_insight.Prelude.Assoc.insert registration enrolled
renewal_answers = refl

renew_agent_credential-accepts_example :
    (a : StoredAgentRegistration) × (authenticate_agent digest clock 9 works renewed_store
        (bearer (text "wic_07"))
        (text "agent-h-1")
        (text "h-1")
      ≡ ok a)
unfolding load bearer_token
renew_agent_credential-accepts_example =
    renew_agent_credential-accepts digest clock config (text "renew") 5 6 works works
      (some (7 ∷ [])) (some (8 ∷ [])) (bearer (text "y")) renewal enrolled_store renewed_store
      bundle renewal_answers 9 works refl (bearer (text "wic_07")) (λ t. refl) (omega arith) refl

abbrev renewed_agent : StoredAgentRegistration
renewed_agent = record agent {
  credential_id = text "cred_08";
  credential_token_hash = sha256_hex digest (text "wic_07");
  credential_issued_at = 6 ∷ [];
  credential_expires_at = (6 + 60 * 1_000_000_000) ∷ [];
}

passes :
    authenticate_agent digest clock 9 works renewed_store
      (bearer (text "wic_07"))
      (text "agent-h-1")
      (text "h-1")
    ≡ ok renewed_agent
unfolding authenticate_agent renew_agent_credential text_eq get warp_insight.Prelude.Assoc.insert
    registration enrolled
passes = refl

renew_agent_credential-refuses_example :
    sha256_hex digest (text "wic_07") ≡ sha256_hex digest (text "wic_07")
unfolding load bearer_token
renew_agent_credential-refuses_example =
    renew_agent_credential-refuses digest clock config (text "renew") 5 6 works works
      (some (7 ∷ [])) (some (8 ∷ [])) (bearer (text "y")) renewal enrolled_store renewed_store
      bundle renewal_answers 9 works refl (bearer (text "wic_07")) renewed_agent (text "wic_07")
      refl passes

require_admin_bearer_iff_example :
    (require_admin_bearer digest config 1 2 (bearer (text "a")) (text "c") [] ≡ ([], ok tt))
    ↔ Passes digest config 1 (bearer (text "a")) (text "c") [] []
require_admin_bearer_iff_example =
    require_admin_bearer_iff digest config 1 2 (bearer (text "a")) (text "c") [] []

run-bound_example :
    length (run (records 1 (text "a") ∷ checks 2 (text "a") ∷ clears (text "a") ∷ []) []) ≤ 10_000
run-bound_example =
    run-bound (records 1 (text "a") ∷ checks 2 (text "a") ∷ clears (text "a") ∷ []) [] (omega arith)

abbrev four : List ℕ
four = 1 ∷ 2 ∷ 3 ∷ []

-- Five failures of one client, among calls of others.
abbrev amid : List Call
amid =
    records 0 (text "a")
    ∷ records 0 (text "b")
    ∷ checks 1 (text "a")
    ∷ records 1 (text "a")
    ∷ clears (text "b")
    ∷ records 2 (text "a")
    ∷ records 3 (text "a")
    ∷ checks 4 (text "b")
    ∷ records 4 (text "a")
    ∷ records 5 (text "c")
    ∷ []

other_client : text_eq (text "b") (text "a") ≡ true → ⊥
unfolding text_eq
other_client h = cc

check_rate_limit-blocked_example :
    (check_rate_limit 5 (text "a") (run amid [])).1 ≡ some (max ((4 + 60 * second - 5) / second) 1)
unfolding get failures_of last_of text_eq
check_rate_limit-blocked_example =
    check_rate_limit-blocked (text "a") 0 (1 ∷ 2 ∷ 3 ∷ 4 ∷ []) amid [] 5 refl refl
      (
        λ e. (omega arith, omega arith),
        (
          λ e. (omega arith, omega arith),
          (
            λ e. (omega arith, omega arith),
            (
              λ e. (omega arith, omega arith),
              (
                λ e. other_client ((text_eq_iff (text "b") (text "a")).1 e),
                (
                  λ e. (omega arith, omega arith),
                  (
                    λ e. (omega arith, omega arith),
                    (
                      λ e. (omega arith, omega arith),
                      (λ e. (omega arith, omega arith), (λ e. (omega arith, omega arith), tt)),
                    ),
                  ),
                ),
              ),
            ),
          ),
        ),
      )
      (omega arith) (omega arith) (omega arith) (omega arith) (omega arith)

check_rate_limit-few_example :
    (check_rate_limit 5 (text "a") (fail_at (0 ∷ four) (text "a") [])).1 ≡ none
unfolding get
check_rate_limit-few_example =
    check_rate_limit-few (text "a") [] 0 four refl (omega arith)
      (omega arith, (omega arith, (omega arith, tt))) 5 (omega arith)

-- Five failures, the last of them just before the window is over.
abbrev late : List ℕ
late = 1 ∷ 2 ∷ 3 ∷ 60 * second ∷ []

check_rate_limit-cut_short_example :
    ((check_rate_limit (60 * second + 1) (text "a") (fail_at (0 ∷ late) (text "a") [])).1 ≡ none)
    × (get
          (text "a")
          (check_rate_limit (60 * second + 1) (text "a") (fail_at (0 ∷ late) (text "a") [])).0
        ≡ none)
unfolding get
check_rate_limit-cut_short_example =
    check_rate_limit-cut_short (text "a") [] 0 late refl (omega arith)
      (omega arith, (omega arith, (omega arith, (omega arith, tt)))) (60 * second + 1) (omega arith)

version_found :
    agent_version_from_capability_summary (text "0.1.1") (text "host, version= 2.0 ,x") ≡ text "2.0"
unfolding agent_version_from_capability_summary
version_found = refl

abbrev receipt : DispatchReceipt
receipt = dispatch_receipt (text "agent-h-1") (text "upgrade-v0.3.2") (text "admin-operator")

upgrade_answers :
    upgrade_agent digest config 1 2 works
      (bearer (text "a"))
      (text "c")
      (text "agent-h-1")
      none
      none
      enrolled_store
      []
    ≡ ([], ok receipt)
unfolding upgrade_agent text_eq get warp_insight.Prelude.Assoc.remove
upgrade_answers = refl

upgrade_agent-admits_example :
    Passes digest config 1 (bearer (text "a")) (text "c") [] []
    × (contains_key (text "agent-h-1") enrolled_store.agents ≡ true)
    × (receipt.agent_id ≡ text "agent-h-1")
unfolding load
upgrade_agent-admits_example =
    upgrade_agent-admits digest config 1 2 works (bearer (text "a")) (text "c") (text "agent-h-1")
      none none enrolled_store [] [] receipt refl upgrade_answers

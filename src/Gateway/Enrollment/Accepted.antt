-- ===== src/Gateway/Enrollment/Accepted.antt =====
-- What an accepted enrollment has put into the store.
use warp_insight.Prelude.{
  ℕ, ◌+◌, ◌*◌, ◌<◌, ◌≡◌, refl, ap, ◌∙◌, some, List, arith, inl, inr, Option-cases,
}
use warp_insight.Prelude.Text.{Text, text}
use warp_insight.Prelude.Assoc.{get-insert_self}
use warp_insight.Prelude.Chrono.{Chrono, RoundTrips}
use warp_insight.Prelude.Results.{Result, ok}
use warp_insight.Secret.{Headers, bearer_token, sha256_hex, new_secret_token}
use warp_insight.Gateway.Config.{AdminConfig}
use warp_insight.Gateway.Store.{
  StoredAgentRegistration, AdminStoreSnapshot, Disk, works, load_fails, save_fails, sync_fails,
  load, update_result,
}
use warp_insight.Gateway.Tokens.{commit_reserved_registration}
use warp_insight.Gateway.Tokens.SingleUse.{commit-inv}
use warp_insight.Gateway.Agents.{authenticate_agent}
use warp_insight.Gateway.Agents.Credential.{HasCredential, credential-accepts}
use warp_insight.Gateway.Enrollment.{
  EnrollmentRequest, Enrolled, Surroundings, registration, enrolled, commit, reserve,
  agent_enrollment_result,
}

update_result-ok :
    {T : Type 0} (disk : Disk) (mutate : AdminStoreSnapshot → Result Text (AdminStoreSnapshot × T))
    (s s' : AdminStoreSnapshot) (output : T)
    → update_result disk mutate s ≡ (s', ok (ok output))
    → mutate s ≡ ok (s', output)
unfolding update_result
update_result-ok works mutate s s' output h = ground arith
update_result-ok (load_fails e) mutate s s' output h = absurd (ground arith)
update_result-ok (save_fails e) mutate s s' output h = absurd (ground arith)
update_result-ok (sync_fails e) mutate s s' output h = absurd (ground arith)

commit-ok :
    (digest : List ℕ → List ℕ) (chrono : Chrono) (config : AdminConfig) (around : Surroundings)
    (input : EnrollmentRequest) (version : Text) (result r : Enrolled) (s s' : AdminStoreSnapshot)
    → commit digest chrono config around input version result s ≡ (s', ok r)
    → (r ≡ result)
      × (update_result around.commit_disk
            (commit_reserved_registration
              (sha256_hex digest input.token)
              (registration digest chrono config around.commit_now input version result))
            s
          ≡ (s', ok (ok tt)))
unfolding commit
commit-ok digest chrono config around input version result r s s' h = ground arith

enrollment-inv :
    (digest : List ℕ → List ℕ) (chrono : Chrono) (config : AdminConfig) (around : Surroundings)
    (input : EnrollmentRequest) (version : Text) (r : Enrolled) (s s' : AdminStoreSnapshot)
    → agent_enrollment_result digest chrono config around input version s ≡ (s', ok r)
    → (token : Text) × (reserved : AdminStoreSnapshot) × (commit digest chrono config around input
          version
          (enrolled chrono config around.issue_now input token)
          reserved
        ≡ (s', ok r))
unfolding agent_enrollment_result reserve
enrollment-inv digest chrono config around input version r s s' h =
    elim (Option-cases (new_secret_token (text "wic") around.random)) [
      | inl e ↦ absurd (ground arith)
      | inr (token, e) ↦ (token, (reserve digest chrono config around input s).0, ground arith)
    ]

agent_enrollment_result-stores :
    (digest : List ℕ → List ℕ) (chrono : Chrono) (config : AdminConfig) (around : Surroundings)
    (input : EnrollmentRequest) (version : Text) (r : Enrolled) (s s' : AdminStoreSnapshot)
    → agent_enrollment_result digest chrono config around input version s ≡ (s', ok r)
    → HasCredential digest r.agent_id r.instance_id r.bearer_token r.not_after s'
      × (r.not_after
          ≡ chrono.to_rfc3339 (around.issue_now + config.credential_ttl_seconds * 1_000_000_000))
unfolding registration enrolled
agent_enrollment_result-stores digest chrono config around input version r s s' h =
    let (token, reserved, c) = enrollment-inv digest chrono config around input version r s s' h in
    let e = enrolled chrono config around.issue_now input token in
    let (same, u) = commit-ok digest chrono config around input version e r reserved s' c in
    let new = registration digest chrono config around.commit_now input version e in
    let (t, _, _, _, s_eq) =
      commit-inv (sha256_hex digest input.token) new reserved s' tt
        (update_result-ok around.commit_disk _ reserved s' tt u) in
    rw same (
      record {
        agent = new;
        registered = rw s_eq (get-insert_self e.agent_id new reserved.agents);
        instance_matches = refl;
        hash_matches = refl;
        active = refl;
        expiry = refl;
      },
      refl,
    )

-- After an accepted enrollment, while the store can be read and is not changed again: a request with
-- the token it answered passes as the new agent until the time to live of credentials is over.
pub agent_enrollment_result-accepts :
    (digest : List ℕ → List ℕ) (chrono : Chrono) (config : AdminConfig) (around : Surroundings)
    (input : EnrollmentRequest) (version : Text) (r : Enrolled) (s s' : AdminStoreSnapshot)
    → RoundTrips chrono
    → agent_enrollment_result digest chrono config around input version s ≡ (s', ok r)
    → (later : ℕ) (disk : Disk) → load disk s' ≡ ok s'
    → later < around.issue_now + config.credential_ttl_seconds * 1_000_000_000
    → (headers : Headers) → bearer_token headers ≡ some r.bearer_token
    → (agent : StoredAgentRegistration) × (authenticate_agent digest chrono later disk s' headers
          r.agent_id r.instance_id
        ≡ ok agent)
agent_enrollment_result-accepts digest chrono config around input version r s s' trips h later disk
      d t headers b =
    let (has, e) =
      agent_enrollment_result-stores digest chrono config around input version r s s' h in
    (
      has.agent,
      credential-accepts digest chrono r.agent_id r.instance_id r.bearer_token r.not_after s' has
          later disk d headers _ (ap (λ x. chrono.parse_from_rfc3339 x) e ∙ trips _) t b,
    )

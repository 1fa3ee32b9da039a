-- ===== src/Gateway/Enrollment/Rejected.antt =====
-- What a rejected enrollment leaves.
use warp_insight.Prelude.{ℕ, ◌≡◌, refl, Bool, true, false, List, arith}
use warp_insight.Prelude.Text.{Text}
use warp_insight.Prelude.Chrono.{Chrono}
use warp_insight.Prelude.Results.{err}
use warp_insight.Gateway.Config.{AdminConfig}
use warp_insight.Gateway.Store.{
  AdminStoreSnapshot, Disk, works, load_fails, save_fails, sync_fails, update_result, update,
}
use warp_insight.Gateway.Tokens.{reserve_enrollment_token, rollback_enrollment_token_reservation}
use warp_insight.Gateway.Enrollment.{
  EnrollmentRequest, Enrolled, Surroundings, commit, reserve, agent_enrollment_result,
}

-- Whether the new file is in place although the update reports an error.
abbrev pub half_saved : Disk → Bool
half_saved (sync_fails e) = true
half_saved works = false
half_saved (load_fails e) = false
half_saved (save_fails e) = false

reserve-agents :
    (digest : List ℕ → List ℕ) (chrono : Chrono) (config : AdminConfig) (around : Surroundings)
    (input : EnrollmentRequest) (s : AdminStoreSnapshot)
    → (reserve digest chrono config around input s).0.agents ≡ s.agents
unfolding reserve update_result reserve_enrollment_token
reserve-agents digest chrono config around input s = ground arith

rollback-agents :
    (disk : Disk) (hash : Text) (s : AdminStoreSnapshot)
    → (update disk (rollback_enrollment_token_reservation hash) s).0.agents ≡ s.agents
unfolding update rollback_enrollment_token_reservation
rollback-agents works hash s = ground arith
rollback-agents (load_fails e) hash s = refl
rollback-agents (save_fails e) hash s = refl
rollback-agents (sync_fails e) hash s = ground arith

commit-agents :
    (digest : List ℕ → List ℕ) (chrono : Chrono) (config : AdminConfig) (around : Surroundings)
    (input : EnrollmentRequest) (version : Text) (result : Enrolled) (reason : Text)
    (s s' : AdminStoreSnapshot)
    → half_saved around.commit_disk ≡ false
    → commit digest chrono config around input version result s ≡ (s', err reason)
    → s'.agents ≡ s.agents
unfolding commit update_result
commit-agents digest chrono config around input version result reason s s' f h =
    ground (arith, rollback-agents around.rollback_disk)

-- A rejected enrollment leaves the registered agents as they were, unless the disk reported the
-- failure of the last update after the new file was in place.
pub agent_enrollment_result-rejects :
    (digest : List ℕ → List ℕ) (chrono : Chrono) (config : AdminConfig) (around : Surroundings)
    (input : EnrollmentRequest) (version reason : Text) (s s' : AdminStoreSnapshot)
    → half_saved around.commit_disk ≡ false
    → agent_enrollment_result digest chrono config around input version s ≡ (s', err reason)
    → s'.agents ≡ s.agents
unfolding agent_enrollment_result
agent_enrollment_result-rejects digest chrono config around input version reason s s' f h = ground (
  arith,
  reserve-agents digest chrono config around input s,
  rollback-agents around.rollback_disk,
  commit-agents digest chrono config around input version,
)

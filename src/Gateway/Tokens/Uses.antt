-- ===== src/Gateway/Tokens/Uses.antt =====
-- How often one enrollment token registers an agent.
use warp_insight.Prelude.{
  ℕ, ◌+◌, ◌-◌, ◌≤◌, ◌≡◌, Bool, true, false, List, [], ◌∷◌, some, ltb, if◌then◌else◌, length, arith,
}
use warp_insight.Prelude.Words.{saturating_add_u32, u32_max}
use warp_insight.Prelude.Text.{Text, text_eq}
use warp_insight.Prelude.Assoc.{get}
use warp_insight.Prelude.Chrono.{Chrono}
use warp_insight.Gateway.Config.{AdminConfig}
use warp_insight.Gateway.Store.{
  StoredEnrollmentToken, StoredEnrollmentTokenStatus, StoredAgentRegistration, AdminStoreSnapshot,
  is_reserved, Disk, update, update_result,
}
use warp_insight.Gateway.Tokens.{
  recover_expired_reservation, release, reserve_token, commit_token, validate_token,
  store_issued_token, validate_bootstrap_token_for_config, reserve_enrollment_token,
  commit_reserved_registration, rollback_enrollment_token_reservation,
}

-- The store updates of the requests that read or change a token.
pub data Call : Type 0 where
  issues : ℕ → Text → Call
  validates : ℕ → Text → Call
  reserves : ℕ → ℕ → Text → Text → Call
  commits : Text → StoredAgentRegistration → Call
  rolls_back : Text → Call

unfoldable pub step : Chrono → AdminConfig → Call → Disk → AdminStoreSnapshot → AdminStoreSnapshot
unfolding update update_result
step chrono config (issues now hash) disk s =
    (update disk (store_issued_token chrono config now hash) s).0
step chrono config (validates now hash) disk s =
    (update disk (validate_bootstrap_token_for_config chrono config now hash) s).0
step chrono config (reserves now later hash agent_id) disk s =
    (update_result disk (reserve_enrollment_token chrono config now later hash agent_id) s).0
step chrono config (commits hash registration) disk s =
    (update_result disk (commit_reserved_registration hash registration) s).0
step chrono config (rolls_back hash) disk s =
    (update disk (rollback_enrollment_token_reservation hash) s).0

-- The agents that a call adds to the store by this token.
unfoldable pub added : Text → Call → AdminStoreSnapshot → AdminStoreSnapshot → ℕ
added h (commits hash registration) s s' =
    if text_eq hash h then length s'.agents - length s.agents else 0
added h (issues now hash) s s' = 0
added h (validates now hash) s s' = 0
added h (reserves now later hash agent_id) s s' = 0
added h (rolls_back hash) s s' = 0

unfoldable pub registrations :
    Chrono → AdminConfig → Text → List (Call × Disk) → AdminStoreSnapshot → ℕ
unfolding step added
registrations chrono config h [] s = 0
registrations chrono config h ((call, disk) ∷ calls) s =
    let s' = step chrono config call disk s in
    added h call s s' + registrations chrono config h calls s'

-- A secret is drawn once: no later install code has the hash.
unfoldable pub reissued : Text → List (Call × Disk) → Bool
reissued h [] = false
reissued h ((issues now hash, disk) ∷ calls) = if text_eq hash h then true else reissued h calls
reissued h ((validates now hash, disk) ∷ calls) = reissued h calls
reissued h ((reserves now later hash agent_id, disk) ∷ calls) = reissued h calls
reissued h ((commits hash registration, disk) ∷ calls) = reissued h calls
reissued h ((rolls_back hash, disk) ∷ calls) = reissued h calls

-- What a reservation holds back.
abbrev pub held : StoredEnrollmentTokenStatus → ℕ
held status = if is_reserved status then 1 else 0

pub record Fits (c m : ℕ) (token : StoredEnrollmentToken) : Type 0 where
  pub counted : c + held token.status ≤ token.used_count
  pub within : token.used_count ≤ token.max_uses
  pub limit : token.max_uses ≡ m
  pub word : m ≤ u32_max

pub record Holds (h : Text) (c m : ℕ) (s : AdminStoreSnapshot) : Type 0 where
  pub token : StoredEnrollmentToken
  pub present : get h s.enrollment_tokens ≡ some token
  pub fits : Fits c m token

pub release-Fits :
    (c m : ℕ) (token : StoredEnrollmentToken)
    → is_reserved token.status ≡ true
    → Fits c m token
    → Fits c m (release token)
unfolding release
release-Fits c m token r f = record {
  counted = ground (arith, f.counted);
  within = ground (arith, f.within);
  limit = f.limit;
  word = f.word;
}

pub recover-Fits :
    (chrono : Chrono) (now c m : ℕ) (token : StoredEnrollmentToken)
    → Fits c m token
    → Fits c m (recover_expired_reservation chrono now token)
unfolding recover_expired_reservation
recover-Fits chrono now c m token f = ground (arith, f, release-Fits c m token)

pub reserve_token-Fits :
    (chrono : Chrono) (now c m : ℕ) (token : StoredEnrollmentToken)
    → is_reserved token.status ≡ false
    → ltb token.used_count token.max_uses ≡ true
    → Fits c m token
    → Fits c m (reserve_token chrono now token)
unfolding reserve_token saturating_add_u32
reserve_token-Fits chrono now c m token r u f = record {
  counted = ground (arith, f.counted, f.within, f.limit, f.word);
  within = ground (arith, f.counted, f.within, f.limit, f.word);
  limit = f.limit;
  word = f.word;
}

pub commit_token-Fits :
    (c m : ℕ) (token : StoredEnrollmentToken)
    → is_reserved token.status ≡ true
    → Fits c m token
    → Fits (c + 1) m (commit_token token)
unfolding commit_token
commit_token-Fits c m token r f = record {
  counted = ground (arith, f.counted);
  within = f.within;
  limit = f.limit;
  word = f.word;
}

expire-Fits :
    (c m : ℕ) (token : StoredEnrollmentToken)
    → Fits c m token
    → Fits c m (record token { status = StoredEnrollmentTokenStatus.expired })
expire-Fits c m token f = record {
  counted = ground (arith, f.counted);
  within = f.within;
  limit = f.limit;
  word = f.word;
}

pub validate_token-Fits :
    (chrono : Chrono) (config : AdminConfig) (now : ℕ) (hash : Text) (c m : ℕ)
    (token : StoredEnrollmentToken)
    → Fits c m token
    → Fits c m (validate_token chrono config now hash token).0
unfolding validate_token
validate_token-Fits chrono config now hash c m token f =
    ground (arith, f, expire-Fits c m token, recover-Fits chrono now c m token)

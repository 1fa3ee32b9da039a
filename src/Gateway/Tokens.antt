-- ===== src/Gateway/Tokens.antt =====
-- crates/warp-gateway/src/api/install.rs and enrollment.rs: what the requests do to an enrollment
-- token. Each closure of a store update is one function of the snapshot; the clock's readings are
-- arguments.
pub mod Uses
pub mod SingleUse
use warp_insight.Prelude.{
  ℕ, ◌+◌, ◌-◌, ◌*◌, not, ◌&&◌, ◌||◌, Option, none, some, ltb, leb, if◌then◌else◌,
}
use warp_insight.Prelude.Words.{saturating_add_u32}
use warp_insight.Prelude.Text.{Text, text, text_eq}
use warp_insight.Prelude.Assoc.{get, insert, contains_key}
use warp_insight.Prelude.Chrono.{Chrono}
use warp_insight.Prelude.Results.{Result, ok, err, guard, ◌>>=◌, ◌>>◌}
use warp_insight.Gateway.Config.{AdminConfig}
use warp_insight.Gateway.Store.{
  StoredEnrollmentToken, StoredEnrollmentTokenStatus, StoredAgentRegistration, AdminStoreSnapshot,
  is_active, is_reserved,
}

-- The constant is 60, in seconds.
abbrev pub enrollment_token_reservation_ttl : ℕ
enrollment_token_reservation_ttl = 60_000_000_000

unfoldable pub release : StoredEnrollmentToken → StoredEnrollmentToken
release token = record token {
  used_count = token.used_count - 1;
  reserved_at = none;
  status = StoredEnrollmentTokenStatus.active;
}

abbrev pub reservation_time : Chrono → Option Text → Option ℕ
reservation_time chrono none = none
reservation_time chrono (some value) = chrono.parse_from_rfc3339 value

unfoldable pub recover_expired_reservation :
    Chrono → ℕ → StoredEnrollmentToken → StoredEnrollmentToken
recover_expired_reservation chrono now token =
    if not (is_reserved token.status)
    then token
    else elim (reservation_time chrono token.reserved_at) [
      | none ↦ release token
      | some reserved_at ↦
          if ltb now (reserved_at + enrollment_token_reservation_ttl) then token else release token
    ]

abbrev pub put_token : StoredEnrollmentToken → Text → AdminStoreSnapshot → AdminStoreSnapshot
put_token token key s = record s { enrollment_tokens = insert key token s.enrollment_tokens }

-- `issue_agent_install_code`: the record that is stored for a new secret's hash.
unfoldable pub issued_token : Chrono → AdminConfig → ℕ → Text → StoredEnrollmentToken
issued_token chrono config now hash = record {
  token_hash = hash;
  tenant_id = config.tenant_id;
  environment_id = config.environment_id;
  max_uses = 1;
  used_count = 0;
  issued_at = chrono.to_rfc3339 now;
  expires_at = chrono.to_rfc3339 (now + config.bootstrap_token_ttl_seconds * 1_000_000_000);
  reserved_at = none;
  status = StoredEnrollmentTokenStatus.active;
}

unfoldable pub store_issued_token :
    Chrono → AdminConfig → ℕ → Text → AdminStoreSnapshot → AdminStoreSnapshot × Unit {0}
unfolding issued_token
store_issued_token chrono config now hash s =
    (put_token (issued_token chrono config now hash) hash s, tt)

-- The tests of `validate_bootstrap_token_for_config` on the token that was found. Its changes are
-- kept whatever the answer.
unfoldable pub validate_token :
    Chrono
    → AdminConfig
    → ℕ
    → Text
    → StoredEnrollmentToken
    → StoredEnrollmentToken × Result Text (Unit {0})
unfolding recover_expired_reservation
validate_token chrono config now hash stored =
    if not (text_eq stored.tenant_id config.tenant_id)
      || not (text_eq stored.environment_id config.environment_id)
    then (stored, err (text "enrollment token environment mismatch"))
    else if not (text_eq stored.token_hash hash)
    then (stored, err (text "enrollment token hash mismatch"))
    else elim (chrono.parse_from_rfc3339 stored.expires_at) [
      | none ↦ (stored, err (text "enrollment token has invalid expiration"))
      | some expires_at ↦
          if leb expires_at now
          then (
            record stored { status = StoredEnrollmentTokenStatus.expired },
            err (text "enrollment token is expired"),
          )
          else let token = recover_expired_reservation chrono now stored in
            if not (is_active token.status)
            then (token, err (text "enrollment token is not active"))
            else if leb token.max_uses token.used_count
            then (token, err (text "enrollment token is exhausted"))
            else (token, ok tt)
    ]

unfoldable pub validate_bootstrap_token_for_config :
    Chrono
    → AdminConfig
    → ℕ
    → Text
    → AdminStoreSnapshot
    → AdminStoreSnapshot × Result Text (Unit {0})
unfolding validate_token
validate_bootstrap_token_for_config chrono config now hash s = elim (get hash s.enrollment_tokens) [
  | none ↦ (s, err (text "unknown enrollment token"))
  | some stored ↦
      let (token, answer) = validate_token chrono config now hash stored in
      (put_token token hash s, answer)
]

abbrev invalid_enrollment_token : Text
invalid_enrollment_token = text "invalid_enrollment_token"

abbrev found : Option StoredEnrollmentToken → Result Text StoredEnrollmentToken
found none = err invalid_enrollment_token
found (some token) = ok token

abbrev instant : Option ℕ → Result Text ℕ
instant none = err invalid_enrollment_token
instant (some t) = ok t

unfoldable pub reserve_token : Chrono → ℕ → StoredEnrollmentToken → StoredEnrollmentToken
reserve_token chrono now token = record token {
  used_count = saturating_add_u32 token.used_count 1;
  reserved_at = some (chrono.to_rfc3339 now);
  status = StoredEnrollmentTokenStatus.reserved;
}

-- The closure of `reserve_enrollment_token`, whose clock is read twice.
unfoldable pub reserve_enrollment_token :
    Chrono
    → AdminConfig
    → ℕ
    → ℕ
    → Text
    → Text
    → AdminStoreSnapshot
    → Result Text (AdminStoreSnapshot × Text)
unfolding recover_expired_reservation reserve_token
reserve_enrollment_token chrono config now later hash agent_id s = do
  stored ← found (get hash s.enrollment_tokens)
  guard
      (text_eq stored.tenant_id config.tenant_id
        && text_eq stored.environment_id config.environment_id)
      invalid_enrollment_token
  let token = recover_expired_reservation chrono now stored
  guard
      (is_active token.status
        && ltb token.used_count token.max_uses
        && text_eq token.token_hash hash)
      invalid_enrollment_token
  expires_at ← instant (chrono.parse_from_rfc3339 token.expires_at)
  guard (ltb later expires_at) invalid_enrollment_token
  guard (not (contains_key agent_id s.agents)) (text "duplicate_agent_registration")
  ok (put_token (reserve_token chrono now token) hash s, hash)

unfoldable pub commit_token : StoredEnrollmentToken → StoredEnrollmentToken
commit_token token = record token {
  reserved_at = none;
  status =
      if leb token.max_uses token.used_count
      then StoredEnrollmentTokenStatus.used
      else StoredEnrollmentTokenStatus.active;
}

-- The closure of `commit_reserved_registration`, with the registration it stores.
unfoldable pub commit_reserved_registration :
    Text
    → StoredAgentRegistration
    → AdminStoreSnapshot
    → Result Text (AdminStoreSnapshot × Unit {0})
unfolding commit_token
commit_reserved_registration hash registration s = do
  token ← found (get hash s.enrollment_tokens)
  guard (is_reserved token.status && text_eq token.token_hash hash) invalid_enrollment_token
  guard (not (contains_key registration.agent_id s.agents)) (text "duplicate_agent_registration")
  let committed = put_token (commit_token token) hash s
  ok (record committed { agents = insert registration.agent_id registration s.agents }, tt)

unfoldable pub rollback_enrollment_token_reservation :
    Text → AdminStoreSnapshot → AdminStoreSnapshot × Unit {0}
unfolding release
rollback_enrollment_token_reservation hash s = elim (get hash s.enrollment_tokens) [
  | none ↦ (s, tt)
  | some token ↦
      if is_reserved token.status then (put_token (release token) hash s, tt) else (s, tt)
]

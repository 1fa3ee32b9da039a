-- ===== src/Center/Tokens.antt =====
-- crates/wist-center/src/infra/store.rs: the enrollment tokens of gateways. Both times of a new token
-- are taken from one reading of the clock.
pub mod Uses
pub mod Decimal
use warp_insight.Prelude.{
  ℕ, ◌+◌, ◌*◌, ◌/◌, ◌%◌, zero, suc, Bool, true, false, not, ◌&&◌, ◌||◌, Option, none, some, List,
  [], ◌∷◌, ◌++◌, ltb, leb, if◌then◌else◌,
}
use warp_insight.Prelude.Text.{Text, text, text_eq, is_empty}
use warp_insight.Prelude.Assoc.{Assoc, get, insert}
use warp_insight.Prelude.Results.{Result, ok, err}
use warp_insight.Secret.{sha256_hex}
use warp_insight.Center.Store.{StoredEnrollmentToken, EnrollmentTokenIssue, CenterStoreSnapshot}

-- The digits of a number, which are no more than one and the number.
unfoldable pub digits : ℕ → ℕ → Text
digits zero n = (48 + n) ∷ []
digits (suc fuel) n =
    let rest = digits fuel (n / 10) in
    if ltb n 10 then (48 + n) ∷ [] else rest ++ ((48 + n % 10) ∷ [])

unfoldable pub tokens_of : Text → Assoc StoredEnrollmentToken → ℕ
tokens_of gateway_id [] = 0
tokens_of gateway_id ((id, token) ∷ tokens) =
    (if text_eq token.gateway_id gateway_id then 1 else 0) + tokens_of gateway_id tokens

unfoldable pub create_enrollment_token :
    (List ℕ → List ℕ)
    → (now : ℕ) → Text
    → EnrollmentTokenIssue
    → CenterStoreSnapshot
    → CenterStoreSnapshot × StoredEnrollmentToken
unfolding tokens_of digits is_empty sha256_hex
create_enrollment_token digest now gateway_id issue s =
    let serial = tokens_of gateway_id s.enrollment_tokens + 1 in
    let token : StoredEnrollmentToken = record {
      token_id = text "enroll-" ++ (gateway_id ++ (text "-" ++ digits serial serial));
      token_hash = if is_empty issue.token then text "" else sha256_hex digest issue.token;
      gateway_id = gateway_id;
      tenant_id = text "tenant-default";
      environment_id = text "env-default";
      issued_by = issue.issued_by;
      control_center_trust_bundle = issue.control_center_trust_bundle;
      max_uses = 1;
      used_count = 0;
      status = text "Active";
      issued_at = now;
      expires_at = some (now + 30 * 86_400_000_000_000);
      revoked_at = none;
    } in
    (record s { enrollment_tokens = insert token.token_id token s.enrollment_tokens }, token)

unfoldable pub revoke_enrollment_token :
    ℕ → Text → Text → CenterStoreSnapshot → CenterStoreSnapshot × Result Text StoredEnrollmentToken
revoke_enrollment_token now gateway_id token_id s = elim (get token_id s.enrollment_tokens) [
  | none ↦ (s, err (text "token not found"))
  | some token ↦
      if not (text_eq token.gateway_id gateway_id)
      then (s, err (text "token gateway mismatch"))
      else let revoked : StoredEnrollmentToken = record token {
        status = text "Revoked";
        revoked_at = some now;
      } in
        (record s { enrollment_tokens = insert token_id revoked s.enrollment_tokens }, ok revoked)
]

abbrev expired : ℕ → Option ℕ → Bool
expired now none = false
expired now (some expires_at) = ltb expires_at now

-- What consuming does to the token that was found.
unfoldable pub consume_token :
    ℕ → StoredEnrollmentToken → StoredEnrollmentToken × Result Text StoredEnrollmentToken
consume_token now found =
    if not (text_eq found.status (text "Active")) && not (text_eq found.status (text "Used"))
    then (found, err (text "token status " ++ found.status))
    else if expired now found.expires_at
    then (record found { status = text "Expired" }, err (text "token expired"))
    else if leb found.max_uses found.used_count
    then (record found { status = text "Exhausted" }, err (text "token exhausted"))
    else let used : StoredEnrollmentToken = record found {
      used_count = found.used_count + 1;
      status = if leb found.max_uses (found.used_count + 1) then text "Exhausted" else text "Used";
    } in
      (used, ok used)

-- `values_mut().find(…)`, in the order of the list, and the change of what it finds.
unfoldable pub consume_in :
    ℕ
    → Text
    → Assoc StoredEnrollmentToken
    → Assoc StoredEnrollmentToken × Result Text StoredEnrollmentToken
unfolding consume_token is_empty
consume_in now token_hash [] = ([], err (text "token not found"))
consume_in now token_hash ((id, token) ∷ tokens) =
    let (rest, later) = consume_in now token_hash tokens in
    let (changed, answer) = consume_token now token in
    if not (is_empty token.token_hash) && text_eq token.token_hash token_hash
    then ((id, changed) ∷ tokens, answer)
    else ((id, token) ∷ rest, later)

unfoldable pub consume_enrollment_token :
    (List ℕ → List ℕ)
    → ℕ
    → Text
    → CenterStoreSnapshot
    → CenterStoreSnapshot × Result Text StoredEnrollmentToken
unfolding consume_in sha256_hex
consume_enrollment_token digest now token s =
    let (tokens, answer) = consume_in now (sha256_hex digest token) s.enrollment_tokens in
    (record s { enrollment_tokens = tokens }, answer)

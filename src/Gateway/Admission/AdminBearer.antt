-- ===== src/Gateway/Admission/AdminBearer.antt =====
-- Who passes `require_admin_bearer`, and what an attempt leaves in the buckets.
use warp_insight.Prelude.{ℕ, ◌≡◌, ◌↔◌, true, Option, none, some, List, arith}
use warp_insight.Prelude.Text.{Text, text}
use warp_insight.Prelude.Results.{ok}
use warp_insight.Secret.{Headers, bearer_token, sha256_hex, constant_time_eq, constant_time_eq_iff}
use warp_insight.Gateway.Config.{AdminConfig}
use warp_insight.Gateway.RateLimit.{Buckets, rate_limit_key, check_rate_limit, clear_auth_failures}
use warp_insight.Gateway.Admission.{require_admin_bearer}

abbrev pub admin_key : Text → Text
admin_key client_key = rate_limit_key client_key (text "admin")

abbrev pub checked : ℕ → Text → Buckets → Buckets × Option ℕ
checked now client_key m = check_rate_limit now (admin_key client_key) m

pub record Passes (digest : List ℕ → List ℕ) (config : AdminConfig) (checked_at : ℕ)
    (headers : Headers) (client_key : Text) (m m' : Buckets) : Type 0 where
  pub free : (checked checked_at client_key m).1 ≡ none
  pub token : Text
  pub sent : bearer_token headers ≡ some token
  pub hash_matches : sha256_hex digest token ≡ config.admin_api_token_hash
  pub left : m' ≡ clear_auth_failures (admin_key client_key) (checked checked_at client_key m).0

passes-inv :
    (digest : List ℕ → List ℕ) (config : AdminConfig) (checked_at recorded_at : ℕ)
    (headers : Headers) (client_key : Text) (m m' : Buckets)
    → require_admin_bearer digest config checked_at recorded_at headers client_key m ≡ (m', ok tt)
    → ((checked checked_at client_key m).1 ≡ none)
      × (token : Text) × (bearer_token headers ≡ some token)
      × (constant_time_eq (sha256_hex digest token) config.admin_api_token_hash ≡ true)
      × (m' ≡ clear_auth_failures (admin_key client_key) (checked checked_at client_key m).0)
unfolding require_admin_bearer
passes-inv digest config checked_at recorded_at headers client_key m m' h = ground arith

Passes-complete :
    (digest : List ℕ → List ℕ) (config : AdminConfig) (checked_at recorded_at : ℕ)
    (headers : Headers) (client_key : Text) (m m' : Buckets)
    → Passes digest config checked_at headers client_key m m'
    → require_admin_bearer digest config checked_at recorded_at headers client_key m ≡ (m', ok tt)
unfolding require_admin_bearer
Passes-complete digest config checked_at recorded_at headers client_key m m' p =
    let same =
      (constant_time_eq_iff (sha256_hex digest p.token) config.admin_api_token_hash).1
        p.hash_matches in
    ground (arith, p.free, p.sent, p.left, same)

-- An attempt passes, leaving the buckets `m'`, exactly if the limit does not hold the client back, the
-- hash of the bearer token is the configured one, and `m'` are the buckets that the check of the
-- limit left without the client's failures.
pub require_admin_bearer_iff :
    (digest : List ℕ → List ℕ) (config : AdminConfig) (checked_at recorded_at : ℕ)
    (headers : Headers) (client_key : Text) (m m' : Buckets)
    → (require_admin_bearer digest config checked_at recorded_at headers client_key m ≡ (m', ok tt))
      ↔ Passes digest config checked_at headers client_key m m'
require_admin_bearer_iff digest config checked_at recorded_at headers client_key m m' =
    (sound, Passes-complete digest config checked_at recorded_at headers client_key m m')
  where
    sound :
        require_admin_bearer digest config checked_at recorded_at headers client_key m ≡ (m', ok tt)
        → Passes digest config checked_at headers client_key m m'
    sound h =
        let (free, token, sent, same, left) =
          passes-inv digest config checked_at recorded_at headers client_key m m' h in
        record {
          free = free;
          token = token;
          sent = sent;
          hash_matches =
              (constant_time_eq_iff (sha256_hex digest token) config.admin_api_token_hash).0 same;
          left = left;
        }

-- ===== src/Gateway/RateLimit/Others.antt =====
-- What one call on the buckets of rate_limit.rs leaves of another client's bucket.
use warp_insight.Prelude.{
  ℕ, ◌+◌, ◌≤◌, ◌<◌, ◌≡◌, refl, ◌∙◌, false, List, ◌∷◌, none, length, arith, Bool-cases, inl, inr,
}
use warp_insight.Prelude.Text.{Text, text_eq, text_eq_iff}
use warp_insight.Prelude.Assoc.{get, get-insert, get-remove, length-insert, length-remove-le}
use warp_insight.Gateway.RateLimit.{
  Buckets, max_buckets, check_bucket, check_rate_limit, make_room, record_auth_failure,
  clear_auth_failures,
}
use warp_insight.Gateway.RateLimit.Bound.{Call, checks, records, clears, step}

make_room_id : (key : Text) (m : Buckets) → length m < max_buckets → make_room key m ≡ m
unfolding make_room
make_room_id key m room = ground arith

-- A call adds one bucket at most.
pub length-step :
    (c : Call) (m : Buckets) → length m < max_buckets → length (step c m) ≤ length m + 1
unfolding step check_rate_limit check_bucket record_auth_failure clear_auth_failures
length-step (checks now key) m room = ground (arith, length-remove-le key m)
length-step (records now key) m room =
    rw (make_room_id key m room, length-insert key _ m) (ground arith)
length-step (clears key) m room = omega (arith, length-remove-le key m)

-- While there is room, the calls of others leave a client's bucket alone.
pub get-record_auth_failure_other :
    (key j : Text) (now : ℕ) (m : Buckets)
    → length m < max_buckets
    → text_eq j key ≡ false
    → get key (record_auth_failure now j m) ≡ get key m
unfolding record_auth_failure
get-record_auth_failure_other key j now m room other =
    rw (make_room_id j m room, get-insert key j _ m, other) refl

pub get-check_rate_limit_other :
    (key j : Text) (now : ℕ) (m : Buckets)
    → text_eq j key ≡ false
    → get key (check_rate_limit now j m).0 ≡ get key m
unfolding check_rate_limit check_bucket
get-check_rate_limit_other key j now m other = ground (arith, get-remove key j m)

pub get-clear_auth_failures_other :
    (key j : Text) (m : Buckets)
    → text_eq j key ≡ false
    → get key (clear_auth_failures j m) ≡ get key m
unfolding clear_auth_failures
get-clear_auth_failures_other key j m other = rw (get-remove key j m, other) refl

pub shorter :
    (c : Call) (cs : List Call) (m : Buckets)
    → length m + length (c ∷ cs) ≤ max_buckets
    → length (step c m) + length cs ≤ max_buckets
shorter c cs m room = omega (arith, length-step c m (omega arith))

pub get-check_rate_limit_new :
    (key j : Text) (now : ℕ) (m : Buckets)
    → get key m ≡ none
    → get key (check_rate_limit now j m).0 ≡ none
unfolding check_rate_limit
get-check_rate_limit_new key j now m new = elim (Bool-cases (text_eq j key)) [
  | inl e ↦
      let same : j ≡ key = (text_eq_iff j key).0 e in
      let kept : (check_rate_limit now key m).0 ≡ m = rw (new, check_rate_limit) refl in
      rw (same, kept) new
  | inr e ↦ get-check_rate_limit_other key j now m e ∙ new
]

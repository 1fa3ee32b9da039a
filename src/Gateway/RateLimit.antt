-- ===== src/Gateway/RateLimit.antt =====
-- crates/warp-gateway/src/api/rate_limit.rs: failed authentications by client. An `Instant` is a
-- number of nanoseconds, given to each call; the lock is never poisoned.
pub mod Bound
pub mod Blocking
pub mod Others
pub mod Amid
use warp_insight.Prelude.{
  ℕ, ◌+◌, ◌-◌, ◌*◌, ◌/◌, ◌++◌, max, Bool, ◌&&◌, not, List, [], ◌∷◌, Option, none, some, ltb, leb,
  if◌then◌else◌, length,
}
use warp_insight.Prelude.Words.{saturating_add_u32}
use warp_insight.Prelude.Text.{Text, text}
use warp_insight.Prelude.Assoc.{Assoc, get, insert, remove, contains_key}

abbrev pub second : ℕ
second = 1_000_000_000

abbrev pub max_failures_per_window : ℕ
max_failures_per_window = 5

abbrev pub failure_window : ℕ
failure_window = 60 * second

abbrev pub block_duration : ℕ
block_duration = 60 * second

abbrev pub max_buckets : ℕ
max_buckets = 10_000

pub record RateLimitBucket : Type 0 where
  pub failures : ℕ  -- u32
  pub first_failure_at : ℕ
  pub blocked_until : Option ℕ

abbrev pub Buckets : Type 0
Buckets = Assoc RateLimitBucket

unfoldable pub rate_limit_key : Text → Text → Text
rate_limit_key client_key scope = scope ++ (text ":" ++ client_key)

-- `some` is the refusal 429, with the seconds of its `Retry-After` header.
unfoldable pub check_bucket : ℕ → Text → RateLimitBucket → Buckets → Buckets × Option ℕ
check_bucket now key bucket m =
    if ltb failure_window (now - bucket.first_failure_at)
    then (remove key m, none)
    else elim bucket.blocked_until [
      | none ↦ (m, none)
      | some blocked_until ↦
          if ltb now blocked_until
          then (m, some (max ((blocked_until - now) / second) 1))
          else (remove key m, none)
    ]

unfoldable pub check_rate_limit : ℕ → Text → Buckets → Buckets × Option ℕ
check_rate_limit now key m = elim (get key m) [
  | none ↦ (m, none)
  | some bucket ↦ check_bucket now key bucket m
]

abbrev earlier : Text × RateLimitBucket → Option (Text × RateLimitBucket) → Text × RateLimitBucket
earlier (k, b) none = (k, b)
earlier (k, b) (some (j, c)) = if ltb c.first_failure_at b.first_failure_at then (j, c) else (k, b)

-- `iter().min_by_key(first_failure_at)`.
unfoldable pub oldest_bucket : Buckets → Option (Text × RateLimitBucket)
oldest_bucket [] = none
oldest_bucket ((k, b) ∷ m) = some (earlier (k, b) (oldest_bucket m))

unfoldable pub evict_oldest_bucket : Buckets → Buckets
evict_oldest_bucket m = elim (oldest_bucket m) [ none ↦ m | some (key, _) ↦ remove key m ]

abbrev pub bucket_or_new : ℕ → Option RateLimitBucket → RateLimitBucket
bucket_or_new now none = record { failures = 0; first_failure_at = now; blocked_until = none }
bucket_or_new now (some b) = b

-- The changes to the bucket itself.
unfoldable pub count_failure : ℕ → RateLimitBucket → RateLimitBucket
count_failure now bucket =
    let fresh : RateLimitBucket =
      if ltb failure_window (now - bucket.first_failure_at)
      then record { failures = 0; first_failure_at = now; blocked_until = none }
      else bucket in
    let failures : ℕ = saturating_add_u32 fresh.failures 1 in
    if leb max_failures_per_window failures
    then record fresh { failures = failures; blocked_until = some (now + block_duration) }
    else record fresh { failures = failures }

-- A new key makes the oldest bucket go once the map is full.
unfoldable pub make_room : Text → Buckets → Buckets
make_room key m =
    if not (contains_key key m) && leb max_buckets (length m) then evict_oldest_bucket m else m

unfoldable pub record_auth_failure : ℕ → Text → Buckets → Buckets
record_auth_failure now key m =
    let kept = make_room key m in
    insert key (count_failure now (bucket_or_new now (get key kept))) kept

unfoldable pub clear_auth_failures : Text → Buckets → Buckets
clear_auth_failures key m = remove key m

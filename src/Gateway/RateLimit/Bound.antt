-- ===== src/Gateway/RateLimit/Bound.antt =====
-- The bound on the number of buckets of rate_limit.rs.
use warp_insight.Prelude.{
  ℕ, ◌+◌, ◌≤◌, ◌<◌, ◌≡◌, true, false, ◌&&◌, not, List, [], ◌∷◌, none, some, leb, length, arith,
  Bool-cases, Option-cases, inl, inr,
}
use warp_insight.Prelude.Text.{Text, text_eq_refl}
use warp_insight.Prelude.Assoc.{
  get, contains_key, length-insert, length-remove_present, length-remove-le,
}
use warp_insight.Gateway.RateLimit.{
  Buckets, RateLimitBucket, max_buckets, check_bucket, check_rate_limit, oldest_bucket,
  evict_oldest_bucket, make_room, record_auth_failure, clear_auth_failures,
}

-- A call on the buckets: its time and its key.
pub data Call : Type 0 where
  checks records : ℕ → Text → Call
  clears : Text → Call

unfoldable pub step : Call → Buckets → Buckets
step (checks now key) m = (check_rate_limit now key m).0
step (records now key) m = record_auth_failure now key m
step (clears key) m = clear_auth_failures key m

unfoldable pub run : List Call → Buckets → Buckets
unfolding step
run [] m = m
run (c ∷ cs) m = run cs (step c m)

oldest_bucket-contains :
    (m : Buckets) (k : Text) (b : RateLimitBucket)
    → oldest_bucket m ≡ some (k, b)
    → contains_key k m ≡ true
unfolding oldest_bucket contains_key get
oldest_bucket-contains [] k b h = cc
oldest_bucket-contains ((j, c) ∷ m) k b h = elim (Option-cases (oldest_bucket m)) [
  | inl e ↦ ground (arith, text_eq_refl j)
  | inr ((i, d), e) ↦ ground (arith, text_eq_refl j, oldest_bucket-contains m i d e)
]

oldest_bucket-some : (m : Buckets) → oldest_bucket m ≡ none → 0 < length m → ⊥
unfolding oldest_bucket
oldest_bucket-some [] e h = omega arith
oldest_bucket-some ((j, c) ∷ m) e h = cc

-- Evicting takes a bucket out of every map that has one.
length-evict_oldest_bucket :
    (m : Buckets) → 0 < length m → length (evict_oldest_bucket m) + 1 ≤ length m
unfolding evict_oldest_bucket
length-evict_oldest_bucket m h = elim (Option-cases (oldest_bucket m)) [
  | inl e ↦ absurd (oldest_bucket-some m e h)
  | inr ((k, b), e) ↦
      rw (e, evict_oldest_bucket) (length-remove_present k m (oldest_bucket-contains m k b e))
]

length-make_room :
    (key : Text) (m : Buckets)
    → length m ≤ max_buckets
    → (length (make_room key m) ≤ max_buckets)
      × (contains_key key (make_room key m) ≡ false → length (make_room key m) < max_buckets)
unfolding make_room
length-make_room key m h =
    elim (Bool-cases (not (contains_key key m) && leb max_buckets (length m))) [
      | inl e ↦ rw e (omega (arith, length-evict_oldest_bucket m (ground arith)))
      | inr e ↦ rw e (h, λ q. ground arith)
    ]

step-bound : (c : Call) (m : Buckets) → length m ≤ max_buckets → length (step c m) ≤ max_buckets
unfolding step check_rate_limit check_bucket record_auth_failure clear_auth_failures
step-bound (checks now key) m h = ground (arith, length-remove-le key m)
step-bound (records now key) m h = elim (Bool-cases (contains_key key (make_room key m))) [
  | inl e ↦ rw (length-insert key _ (make_room key m), e) (length-make_room key m h).0
  | inr e ↦ rw (length-insert key _ (make_room key m), e) ((length-make_room key m h).1 e)
]
step-bound (clears key) m h = omega (arith, length-remove-le key m)

-- However many clients fail, and whatever else is called, at most `max_buckets` buckets are kept.
pub run-bound :
    (cs : List Call) (m : Buckets) → length m ≤ max_buckets → length (run cs m) ≤ max_buckets
unfolding run
run-bound [] m h = h
run-bound (c ∷ cs) m h = run-bound cs (step c m) (step-bound c m h)

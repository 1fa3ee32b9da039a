-- ===== src/Gateway/RateLimit/Amid.antt =====
-- A client is blocked by rate_limit.rs whatever other clients call in between.
use warp_insight.Prelude.{
  ℕ, suc, ◌+◌, ◌-◌, ◌/◌, ◌≤◌, ◌<◌, ◌≡◌, ◌≢◌, subst, ◌∙◌, max, leb, List, [], ◌∷◌, none, some,
  length, arith, Bool-cases, inl, inr, if◌then◌else◌,
}
use native.Mathlib.Nat.{add-zero}
use warp_insight.Prelude.Words.{u32_max, saturating_add_u32}
use warp_insight.Prelude.Text.{Text, text_eq, text_eq_iff}
use warp_insight.Prelude.Assoc.{get}
use warp_insight.Gateway.RateLimit.{
  Buckets, RateLimitBucket, second, failure_window, block_duration, max_failures_per_window,
  max_buckets, check_bucket, check_rate_limit, record_auth_failure, clear_auth_failures,
  count_failure, bucket_or_new,
}
use warp_insight.Gateway.RateLimit.Bound.{Call, checks, records, clears, step, run}
use warp_insight.Gateway.RateLimit.Others.{
  get-record_auth_failure_other, get-check_rate_limit_other, get-clear_auth_failures_other, shorter,
  get-check_rate_limit_new,
}
use warp_insight.Gateway.RateLimit.Blocking.{record_auth_failure-get}

-- The calls of one client: checks and failures in the window, and no success.
abbrev pub InWindow : ℕ → Text → Call → Type 0
InWindow first key (checks now j) = j ≡ key → (first ≤ now) × (now < first + failure_window)
InWindow first key (records now j) = j ≡ key → (first ≤ now) × (now ≤ first + failure_window)
InWindow first key (clears j) = j ≢ key

abbrev pub AllInWindow : ℕ → Text → List Call → Type 0
AllInWindow first key [] = Unit {0}
AllInWindow first key (c ∷ cs) = InWindow first key c × AllInWindow first key cs

-- When the client failed.
unfoldable pub failures_of : Text → List Call → List ℕ
failures_of key [] = []
failures_of key (checks now j ∷ cs) = failures_of key cs
failures_of key (records now j ∷ cs) =
    let rest = failures_of key cs in if text_eq j key then now ∷ rest else rest
failures_of key (clears j ∷ cs) = failures_of key cs

unfoldable pub last_of : ℕ → List ℕ → ℕ
last_of now [] = now
last_of now (t ∷ ts) = last_of t ts

-- A client that failed `n` times, first at `first` and last at `last`.
record Failed (first last n : ℕ) (key : Text) (m : Buckets) : Type 0 where
  bucket : RateLimitBucket
  found : get key m ≡ some bucket
  began : bucket.first_failure_at ≡ first
  times : bucket.failures ≡ n
  order : first ≤ last
  free : n < max_failures_per_window → bucket.blocked_until ≡ none
  blocked : max_failures_per_window ≤ n → bucket.blocked_until ≡ some (last + block_duration)

-- A check of the client itself in the window changes nothing.
Failed-check :
    (first last n now : ℕ) (key : Text) (m : Buckets)
    → first ≤ now
    → now < first + failure_window
    → Failed first last n key m
    → (check_rate_limit now key m).0 ≡ m
unfolding check_rate_limit check_bucket
Failed-check first last n now key m h k f = elim (Bool-cases (leb max_failures_per_window n)) [
  | inl y ↦
      let b : f.bucket.blocked_until ≡ some (last + block_duration) = f.blocked (ground arith) in
      rw (f.found, check_rate_limit) (ground (arith, f.began, f.order, b))
  | inr x ↦
      let b : f.bucket.blocked_until ≡ none = f.free (ground arith) in
      rw (f.found, check_rate_limit) (ground (arith, f.began, b))
]

Failed-next :
    (first last n now : ℕ) (key : Text) (m : Buckets)
    → n < u32_max
    → first ≤ now
    → now ≤ first + failure_window
    → Failed first last n key m
    → Failed first now (n + 1) key (record_auth_failure now key m)
unfolding count_failure saturating_add_u32
Failed-next first last n now key m few h k f = record {
  bucket = count_failure now f.bucket;
  found = rw (record_auth_failure-get now key m, f.found);
  began = ground (arith, f.began);
  times = ground (arith, f.began, f.times);
  order = h;
  free = λ q. ground (arith, f.began, f.times, f.free);
  blocked = λ q. ground (arith, f.began, f.times);
}

Failed-first :
    (now : ℕ) (key : Text) (m : Buckets)
    → get key m ≡ none
    → Failed now now 1 key (record_auth_failure now key m)
unfolding count_failure saturating_add_u32
Failed-first now key m new = record {
  bucket = count_failure now (bucket_or_new now none);
  found = rw (record_auth_failure-get now key m, new);
  began = ground arith;
  times = ground arith;
  order = omega arith;
  free = λ q. ground arith;
  blocked = λ q. ground arith;
}

-- The same bucket in another map.
Failed-transfer :
    (first last n : ℕ) (key : Text) (m m' : Buckets)
    → get key m' ≡ get key m
    → Failed first last n key m
    → Failed first last n key m'
Failed-transfer first last n key m m' e f = record {
  bucket = f.bucket;
  found = e ∙ f.found;
  began = f.began;
  times = f.times;
  order = f.order;
  free = f.free;
  blocked = f.blocked;
}

shift : (a b : ℕ) → a + 1 + b ≡ a + suc b
shift a b = omega arith

run-Failed :
    (first last n : ℕ) (key : Text) (cs : List Call) (m : Buckets)
    → length m + length cs ≤ max_buckets
    → n + length (failures_of key cs) ≤ u32_max
    → AllInWindow first key cs
    → Failed first last n key m
    → Failed first
        (last_of last (failures_of key cs))
        (n + length (failures_of key cs))
        key
        (run cs m)
unfolding run step failures_of last_of
run-Failed first last n key [] m room few h f = rw (add-zero n) f
run-Failed first last n key (checks now j ∷ cs) m room few h f = elim (Bool-cases (text_eq j key)) [
  | inl e ↦
      let same : j ≡ key = (text_eq_iff j key).0 e in
      let (after, before) = h.0 same in
      rw (same, Failed-check first last n now key m after before f)
        (run-Failed first last n key cs m (omega arith) few h.1 f)
  | inr e ↦
      run-Failed first last n key cs (check_rate_limit now j m).0 (shorter (checks now j) cs m room)
        few h.1 (Failed-transfer first last n key m _ (get-check_rate_limit_other key j now m e) f)
]
run-Failed first last n key (records now j ∷ cs) m room few h f =
    elim (Bool-cases (text_eq j key)) [
      | inl e ↦
          let same : j ≡ key = (text_eq_iff j key).0 e in
          let (after, before) = h.0 same in
          let next =
            run-Failed first now (n + 1) key cs (record_auth_failure now key m)
              (shorter (records now key) cs m room) (ground (arith, few, e)) h.1
              (Failed-next first last n now key m (ground (arith, few, e)) after before f) in
          rw (e, same)
            (subst
              (λ i.
                Failed first (last_of now (failures_of key cs)) i key
                  (run cs (record_auth_failure now key m)))
              (shift n (length (failures_of key cs))) next)
      | inr e ↦ rw e (
          run-Failed first last n key cs (record_auth_failure now j m)
            (shorter (records now j) cs m room) (ground (arith, few, e)) h.1
            (Failed-transfer first last n key m _
              (get-record_auth_failure_other key j now m (omega arith) e) f))
    ]
run-Failed first last n key (clears j ∷ cs) m room few h f = elim (Bool-cases (text_eq j key)) [
  | inl e ↦ absurd (h.0 ((text_eq_iff j key).0 e))
  | inr e ↦
      run-Failed first last n key cs (clear_auth_failures j m) (shorter (clears j) cs m room) few
        h.1 (Failed-transfer first last n key m _ (get-clear_auth_failures_other key j m e) f)
]

run_fresh-Failed :
    (key : Text) (first : ℕ) (ts : List ℕ) (cs : List Call) (m : Buckets)
    → get key m ≡ none
    → failures_of key cs ≡ first ∷ ts
    → AllInWindow first key cs
    → length m + length cs ≤ max_buckets
    → length ts < u32_max
    → Failed first (last_of first ts) (1 + length ts) key (run cs m)
unfolding run step failures_of
run_fresh-Failed key first ts [] m new e h room few = absurd cc
run_fresh-Failed key first ts (checks now j ∷ cs) m new e h room few =
    run_fresh-Failed key first ts cs (check_rate_limit now j m).0
      (get-check_rate_limit_new key j now m new) e h.1 (shorter (checks now j) cs m room) few
run_fresh-Failed key first ts (records now j ∷ cs) m new e h room few =
    elim (Bool-cases (text_eq j key)) [
      | inl y ↦
          let same : j ≡ key = (text_eq_iff j key).0 y in
          let at : now ≡ first = ground (arith, e, y) in
          let rest : failures_of key cs ≡ ts = ground (arith, e, y) in
          rw (same, at, ← rest)
            (run-Failed first first 1 key cs (record_auth_failure first key m)
              (shorter (records first key) cs m room) (rw rest (omega arith)) h.1
              (Failed-first first key m new))
      | inr x ↦
          run_fresh-Failed key first ts cs (record_auth_failure now j m)
            (get-record_auth_failure_other key j now m (omega arith) x ∙ new) (ground (arith, e, x))
            h.1 (shorter (records now j) cs m room) few
    ]
run_fresh-Failed key first ts (clears j ∷ cs) m new e h room few =
    elim (Bool-cases (text_eq j key)) [
      | inl y ↦ absurd (h.0 ((text_eq_iff j key).0 y))
      | inr x ↦
          run_fresh-Failed key first ts cs (clear_auth_failures j m)
            (get-clear_auth_failures_other key j m x ∙ new) e h.1 (shorter (clears j) cs m room) few
    ]

-- A client without a bucket that fails five times or more within a window, and does not succeed, is
-- refused: from its last failure for `block_duration`, but no longer than the window that its first
-- failure began, and the time left is what it is told. In between it may be checked, and other clients
-- may be checked, fail and succeed in any order, if `max_buckets` leaves room for a bucket for each of
-- these calls. The client's failures are fewer than 2^32.
pub check_rate_limit-blocked :
    (key : Text) (first : ℕ) (ts : List ℕ) (cs : List Call) (m : Buckets) (now : ℕ)
    → get key m ≡ none
    → failures_of key cs ≡ first ∷ ts
    → AllInWindow first key cs
    → length m + length cs ≤ max_buckets
    → length ts < u32_max
    → 5 ≤ 1 + length ts
    → now ≤ first + failure_window
    → now < last_of first ts + block_duration
    → (check_rate_limit now key (run cs m)).1
      ≡ some (max ((last_of first ts + block_duration - now) / second) 1)
unfolding check_rate_limit check_bucket
check_rate_limit-blocked key first ts cs m now new e h room few many in_time in_block =
    let f = run_fresh-Failed key first ts cs m new e h room few in
    let b = f.blocked many in rw (f.found, check_rate_limit) (ground (arith, f.began, b))

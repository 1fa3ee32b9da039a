-- ===== src/Gateway/RateLimit/Blocking.antt =====
-- Who is blocked by rate_limit.rs, and for how long, by failures without other calls in between.
use warp_insight.Prelude.{
  ℕ, suc, ◌+◌, ◌≤◌, ◌<◌, ◌≡◌, refl, sym, subst, ◌∙◌, List, [], ◌∷◌, none, some, length, arith,
  Option-cases, inl, inr,
}
use native.Mathlib.Nat.{add-zero}
use warp_insight.Prelude.Words.{u32_max, saturating_add_u32}
use warp_insight.Prelude.Text.{Text, text_eq_refl}
use warp_insight.Prelude.Assoc.{get, contains_key, get-insert_self, get-remove}
use warp_insight.Gateway.RateLimit.{
  Buckets, RateLimitBucket, failure_window, max_failures_per_window, check_bucket, check_rate_limit,
  oldest_bucket, evict_oldest_bucket, make_room, record_auth_failure, count_failure, bucket_or_new,
}

get-evict_oldest_bucket :
    (key : Text) (m : Buckets) → get key m ≡ none → get key (evict_oldest_bucket m) ≡ none
unfolding evict_oldest_bucket
get-evict_oldest_bucket key m h = elim (Option-cases (oldest_bucket m)) [
  | inl e ↦ rw (e, evict_oldest_bucket) h
  | inr ((k, b), e) ↦ rw (e, evict_oldest_bucket, get-remove key k m) (ground arith)
]

pub get-make_room : (key : Text) (m : Buckets) → get key (make_room key m) ≡ get key m
unfolding make_room contains_key
get-make_room key m = ground (arith, get-evict_oldest_bucket key m)

pub record_auth_failure-get :
    (now : ℕ) (key : Text) (m : Buckets)
    → get key (record_auth_failure now key m)
      ≡ some (count_failure now (bucket_or_new now (get key m)))
unfolding record_auth_failure
record_auth_failure-get now key m =
    get-insert_self key _ (make_room key m) ∙ (rw (get-make_room key m) refl)

-- Failures of one client, in order.
unfoldable pub fail_at : List ℕ → Text → Buckets → Buckets
fail_at [] key m = m
fail_at (t ∷ ts) key m = fail_at ts key (record_auth_failure t key m)

abbrev pub AllUpTo : ℕ → List ℕ → Type 0
AllUpTo n [] = Unit {0}
AllUpTo n (t ∷ ts) = (t ≤ n) × AllUpTo n ts

-- A client that failed `n` times, first at `first`.
record Failed (first n : ℕ) (key : Text) (m : Buckets) : Type 0 where
  bucket : RateLimitBucket
  found : get key m ≡ some bucket
  began : bucket.first_failure_at ≡ first
  times : bucket.failures ≡ n
  free : n < max_failures_per_window → bucket.blocked_until ≡ none

Failed-next :
    (first n t : ℕ) (key : Text) (m : Buckets)
    → n < u32_max
    → t ≤ first + failure_window
    → Failed first n key m
    → Failed first (n + 1) key (record_auth_failure t key m)
unfolding count_failure saturating_add_u32
Failed-next first n t key m h k f = record {
  bucket = count_failure t f.bucket;
  found = rw (record_auth_failure-get t key m, f.found);
  began = ground (arith, f.began);
  times = ground (arith, f.began, f.times);
  free = λ q. ground (arith, f.began, f.times, f.free);
}

fail_at-Failed :
    (first n : ℕ) (ts : List ℕ) (key : Text) (m : Buckets)
    → n + length ts ≤ u32_max
    → AllUpTo (first + failure_window) ts
    → Failed first n key m
    → Failed first (n + length ts) key (fail_at ts key m)
unfolding fail_at
fail_at-Failed first n [] key m h k f = subst (λ i. Failed first i key m) (sym (add-zero n)) f
fail_at-Failed first n (t ∷ ts) key m h k f =
    subst (λ i. Failed first i key (fail_at ts key (record_auth_failure t key m)))
      (shift n (length ts))
      (fail_at-Failed first (n + 1) ts key (record_auth_failure t key m) (omega arith) k.1
        (Failed-next first n t key m (omega arith) k.0 f))
  where
    shift : (a b : ℕ) → a + 1 + b ≡ a + suc b
    shift a b = omega arith

module _ (key : Text) (m : Buckets) (first : ℕ) (ts : List ℕ) (new : get key m ≡ none)
    (few : length ts < u32_max) (close : AllUpTo (first + failure_window) ts) where
  fail_at_first-Failed : Failed first (1 + length ts) key (fail_at (first ∷ ts) key m)
  unfolding fail_at count_failure saturating_add_u32
  fail_at_first-Failed =
      fail_at-Failed first 1 ts key (record_auth_failure first key m) (omega arith) close (record {
        bucket = count_failure first (bucket_or_new first none);
        found = rw (record_auth_failure-get first key m, new);
        began = ground arith;
        times = ground arith;
        free = λ q. ground arith;
      })

  -- Up to four failures within the window never block, at whatever time one asks.
  pub check_rate_limit-few :
      (now : ℕ)
      → length ts + 1 < max_failures_per_window
      → (check_rate_limit now key (fail_at (first ∷ ts) key m)).1 ≡ none
  unfolding check_rate_limit check_bucket
  check_rate_limit-few now h = rw (f.found, check_rate_limit) (ground (arith, f.free))
    where
      f : Failed first (1 + length ts) key (fail_at (first ∷ ts) key m)
      f = fail_at_first-Failed

  -- The block ends with the window and not after `block_duration`: however many times the client
  -- failed, and however late in the window, once the window is over it is let in and forgotten.
  pub check_rate_limit-cut_short :
      (now : ℕ)
      → first + failure_window < now
      → let r = check_rate_limit now key (fail_at (first ∷ ts) key m) in
        (r.1 ≡ none) × (get key r.0 ≡ none)
  unfolding check_rate_limit check_bucket
  check_rate_limit-cut_short now h =
      rw (f.found, check_rate_limit)
        (ground (arith, f.began, get-remove key key (fail_at (first ∷ ts) key m), text_eq_refl key))
    where
      f : Failed first (1 + length ts) key (fail_at (first ∷ ts) key m)
      f = fail_at_first-Failed

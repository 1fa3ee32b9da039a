-- ===== src/Delivery/Watermark/Observe.antt =====
-- `observe` and `commit_range` of watermark.rs against what they promise.
use warp_insight.Prelude.{
  ℕ, ◌-◌, ◌≤◌, ◌<◌, ◌≡◌, refl, Bool, true, false, ◌&&◌, ◌||◌, not, List, [], ltb, leb, ◌==◌, arith,
  Bool-cases, inl, inr, max, ◌⊎◌,
}
use warp_insight.Prelude.Words.{u64_max}
use warp_insight.Delivery.Watermark.Ranges.{covered, Spaced, Spaced-mono, insert_dropped_range}
use warp_insight.Delivery.Watermark.Ranges.Merge.{insert_dropped_range_lem}
use warp_insight.Delivery.Watermark.Ranges.Lookup.{is_in_dropped_range-eq-covered}
use warp_insight.Delivery.Watermark.SeqSet.{contains, insert, insert-Distinct, contains-insert}
use warp_insight.Delivery.Watermark.{
  Tracker, new_record, duplicate, new, with_committed, settle, observe, commit_range,
}
use warp_insight.Delivery.Watermark.Settle.{Inv, present, within, Ascending, Settles}
use warp_insight.Delivery.Watermark.Loop.{settle-Settles}

-- What moving a tracker on means, apart from how it is done: `here n` says that the number `n` has
-- come, as a record or in a dropped range, and `high` is the largest of these. `committed` moves to
-- the first number that has not come and is at most `lag` behind `high`; lost are those passed over
-- that have not come, in ascending order.
pub record Advances (t : Tracker) (here : ℕ → Bool) (high : ℕ) (t' : Tracker) (lost : List ℕ)
    : Type 0 where
  pub same_lag : t'.lag ≡ t.lag
  pub new_high : t'.high ≡ high
  pub forward : t.committed ≤ t'.committed
  pub stops : here t'.committed ≡ false
  pub window : high - t'.committed ≤ t.lag
  pub earliest :
      (n : ℕ) → within t.committed t'.committed n ≡ true → (here n || ltb t.lag (high - n)) ≡ true
  pub lost_iff : (n : ℕ) → contains n lost ≡ (within t.committed t'.committed n && not (here n))
  pub ascending : Ascending t.committed lost
  pub ahead : (n : ℕ) → t'.committed ≤ n → present n t' ≡ here n

-- `n` has been settled, or has come.
abbrev pub known : ℕ → Tracker → Bool
known n t = ltb n t.committed || present n t

module _ (t : Tracker) (observed : List ℕ) (high : ℕ) (ranges : List (ℕ × ℕ)) (here : ℕ → Bool)
    (p : (n : ℕ) → t.committed ≤ n → (contains n observed || covered n ranges) ≡ here n) where
  abbrev arrived : Tracker
  arrived = record t { observed = observed; high = high; dropped_ranges = ranges }

  Settles-Advances : (r : Tracker × List ℕ) → Settles arrived r → Advances t here high r.0 r.1
  Settles-Advances r w = record {
    same_lag = w.same_lag;
    new_high = w.same_high;
    forward = w.forward;
    stops = ground (arith, w.stops, ahead r.0.committed (omega arith));
    window = w.window;
    earliest = λ n q. ground (arith, w.earliest n, p n);
    lost_iff = λ n. ground (arith, w.lost_iff n, p n);
    ascending = w.ascending;
    ahead = ahead;
  }
    where
      ahead : (n : ℕ) → r.0.committed ≤ n → present n r.0 ≡ here n
      ahead n q = ground (arith, w.forward, w.ahead_observed n q, w.ahead_dropped n q, p n)

-- What `observe` does with a number that has not come.
abbrev pub take_in : ℕ → Tracker → Tracker
take_in seq t = record t { observed = insert seq t.observed; high = max t.high seq }

take_in-Inv : (t : Tracker) (seq : ℕ) → Inv t → seq < u64_max → Inv (take_in seq t)
take_in-Inv t seq v h = record {
  high_lt = omega (arith, v.high_lt);
  committed_le = omega (arith, v.committed_le);
  distinct = insert-Distinct seq t.observed v.distinct;
  observed_le = λ n q. ground (arith, contains-insert n seq t.observed, v.observed_le n);
  spaced =
      Spaced-mono 0 0 t.high (max t.high seq) t.dropped_ranges (omega arith) (omega arith) v.spaced;
}

module _ (t : Tracker) (seq : ℕ) (v : Inv t) where
  -- A number that is settled or has come is refused, and nothing changes.
  pub observe-known :
      known seq t ≡ true → observe seq t ≡ (t, record { outcome = duplicate; lost = [] })
  unfolding observe
  observe-known h =
      rw (is_in_dropped_range-eq-covered seq 0 t.high t.dropped_ranges v.spaced) (ground arith)

  pub observe_unknown :
      known seq t ≡ false
      → observe seq t ≡ (
        (settle (take_in seq t)).0,
        record { outcome = new_record; lost = (settle (take_in seq t)).1 },
      )
  unfolding observe
  observe_unknown h =
      rw (is_in_dropped_range-eq-covered seq 0 t.high t.dropped_ranges v.spaced) (ground arith)

  pub take_in-Settles : seq < u64_max → Settles (take_in seq t) (settle (take_in seq t))
  take_in-Settles h = settle-Settles (take_in seq t) (take_in-Inv t seq v h)

  pub observe-Advances :
      seq < u64_max
      → known seq t ≡ false
      → ((observe seq t).1.outcome ≡ new_record)
        × Advances t
            (λ n. n == seq || present n t)
            (max t.high seq)
            (observe seq t).0
            (observe seq t).1.lost
  observe-Advances h q = rw (observe_unknown q) (
    refl,
    Settles-Advances t (insert seq t.observed) (max t.high seq) t.dropped_ranges _
        (λ n le. ground (arith, contains-insert n seq t.observed)) _ (take_in-Settles h),
  )

  pub observe-Inv : seq < u64_max → Inv (observe seq t).0
  observe-Inv h = elim (Bool-cases (known seq t)) [
    | inl q ↦ rw (observe-known q) v
    | inr q ↦ rw (observe_unknown q) ((take_in-Settles h).inv)
  ]

module _ (t : Tracker) (start stop : ℕ) (v : Inv t) where
  abbrev pub merged : Tracker
  merged = record t {
    dropped_ranges = insert_dropped_range (max start t.committed) stop t.dropped_ranges;
    high = max t.high stop;
  }

  -- An inverted range, and one that is settled, changes nothing.
  pub commit_range_settled :
      (stop < start) ⊎ (stop < t.committed) → commit_range start stop t ≡ (t, [])
  unfolding commit_range
  commit_range_settled h = ground arith

  pub commit_range_lem :
      start ≤ stop → t.committed ≤ stop → commit_range start stop t ≡ settle merged
  unfolding commit_range
  commit_range_lem h k = ground arith

  module _ (h : start ≤ stop) (k : t.committed ≤ stop) (lt : stop < u64_max) where
    pub merged_lem :
        Spaced 0 (max t.high stop) merged.dropped_ranges
        × ((n : ℕ)
            → covered n merged.dropped_ranges
              ≡ (covered n t.dropped_ranges || (leb (max start t.committed) n && leb n stop)))
    merged_lem =
        insert_dropped_range_lem (max start t.committed) stop (max t.high stop) t.dropped_ranges
          (omega (arith, v.high_lt))
          (Spaced-mono 0 0 t.high (max t.high stop) t.dropped_ranges (omega arith) (omega arith)
            v.spaced)
          (omega arith) (omega arith)

    pub merged-Inv : Inv merged
    merged-Inv = record {
      high_lt = omega (arith, v.high_lt);
      committed_le = omega (arith, v.committed_le);
      distinct = v.distinct;
      observed_le = λ n q. omega (arith, v.observed_le n q);
      spaced = merged_lem.0;
    }

    pub commit_range-Advances :
        Advances t
          (λ n. (leb start n && leb n stop) || present n t)
          (max t.high stop)
          (commit_range start stop t).0
          (commit_range start stop t).1
    commit_range-Advances = rw (commit_range_lem h k) (
        Settles-Advances t t.observed (max t.high stop) merged.dropped_ranges _
          (λ n le. ground (arith, merged_lem.1 n)) _ (settle-Settles merged merged-Inv))

  pub commit_range-Inv : stop < u64_max → Inv (commit_range start stop t).0
  commit_range-Inv lt = elim (Bool-cases (ltb stop start || ltb stop t.committed)) [
    | inl q ↦ rw (commit_range_settled (settled_cases q)) v
    | inr q ↦
        rw (commit_range_lem (ground arith) (ground arith))
          ((settle-Settles merged (merged-Inv (ground arith) (ground arith) lt)).inv)
  ]
    where
      settled_cases :
          (ltb stop start || ltb stop t.committed) ≡ true → (stop < start) ⊎ (stop < t.committed)
      settled_cases q = ground arith

pub new-Inv : (lag : ℕ) → Inv (new lag)
unfolding new contains
new-Inv lag = record {
  high_lt = omega arith;
  committed_le = omega arith;
  distinct = tt;
  observed_le = λ n q. ground arith;
  spaced = tt;
}

with_committed-Inv : (lag committed : ℕ) → committed < u64_max → Inv (with_committed lag committed)
unfolding with_committed contains
with_committed-Inv lag committed h = record {
  high_lt = h;
  committed_le = omega arith;
  distinct = tt;
  observed_le = λ n q. ground arith;
  spaced = tt;
}

-- What moves on forgets no number that is known.
pub Advances-known :
    (t : Tracker) (here : ℕ → Bool) (high : ℕ) (t' : Tracker) (lost : List ℕ) (n : ℕ)
    → Advances t here high t' lost
    → (known n t || here n) ≡ true
    → (present n t ≡ true → here n ≡ true)
    → known n t' ≡ true
Advances-known t here high t' lost n w h k = elim (Bool-cases (ltb n t'.committed)) [
  | inl q ↦ rw q refl
  | inr q ↦ ground (arith, w.forward, w.ahead n)
]

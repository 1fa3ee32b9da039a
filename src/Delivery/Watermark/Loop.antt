-- ===== src/Delivery/Watermark/Loop.antt =====
-- The rounds of `settle` of watermark.rs, and that the fuel of its loop is enough.
use warp_insight.Prelude.{
  ℕ, zero, suc, ◌+◌, ◌-◌, ◌≤◌, ◌<◌, ◌≡◌, refl, false, List, [], ◌∷◌, ltb, length, arith, Bool-cases,
  inl, inr, ◌⊎◌, ap, ltb→lt,
}
use warp_insight.Prelude.Words.{add_u64-eq}
use warp_insight.Delivery.Watermark.Ranges.{covered, remove_entry}
use warp_insight.Delivery.Watermark.Ranges.Lookup.{Holds, holding_entry_cases}
use warp_insight.Delivery.Watermark.SeqSet.{contains}
use warp_insight.Delivery.Watermark.{
  Tracker, Round, skipped, missing, broke, drained, skip_or_lose, settle_loop, settle,
}
use warp_insight.Delivery.Watermark.Settle.{
  Inv, Ascending-mono, Drains, drain_prefix-Drains, Settles, drained-Settles,
}

module _ (t : Tracker) (v : Inv t) (free : contains t.committed t.observed ≡ false) where
  module _ (s e : ℕ) (h : Holds 0 t.high t.committed t.dropped_ranges s e) where
    abbrev pub skip_to : Tracker
    skip_to = record t { dropped_ranges = remove_entry s t.dropped_ranges; committed = e + 1 }

    pub skip_to-Inv : Inv skip_to
    skip_to-Inv = record {
      high_lt = v.high_lt;
      committed_le = omega (arith, h.3);
      distinct = v.distinct;
      observed_le = v.observed_le;
      spaced = h.4;
    }

    skip_to-Settles : (r : Tracker × List ℕ) → Settles skip_to r → Settles t r
    unfolding covered
    skip_to-Settles r w = record {
      inv = w.inv;
      same_lag = w.same_lag;
      same_high = w.same_high;
      forward = omega (arith, h.2, w.forward);
      stops = w.stops;
      window = w.window;
      earliest = λ n q. ground (arith, h.5 n, h.1, w.earliest n);
      lost_iff = λ n. ground (arith, h.1, h.2, w.forward, h.5 n, w.lost_iff n);
      ascending = Ascending-mono (e + 1) t.committed r.1 (omega (arith, h.2)) w.ascending;
      ahead_observed = w.ahead_observed;
      ahead_dropped = λ n q. ground (arith, w.forward, h.5 n, w.ahead_dropped n q);
      behind = λ n q. w.behind n (omega (arith, h.2));
      shrinks = w.shrinks;
      count = λ q. absurd (none_held q);
    }
      where
        none_held : t.dropped_ranges ≡ [] → ⊥
        none_held q = ground (arith, h.1, h.2, h.5 t.committed, ap (covered t.committed) q)

  module _ (gap : covered t.committed t.dropped_ranges ≡ false) where
    module _ (far : t.lag < t.high - t.committed) where
      abbrev lose_one : Tracker
      lose_one = record t { committed = t.committed + 1 }

      lose_one-Inv : Inv lose_one
      lose_one-Inv = record {
        high_lt = v.high_lt;
        committed_le = omega arith;
        distinct = v.distinct;
        observed_le = v.observed_le;
        spaced = v.spaced;
      }

      lose_one-Settles :
          (r : Tracker) (lost : List ℕ)
          → Settles lose_one (r, lost)
          → Settles t (r, t.committed ∷ lost)
      unfolding contains
      lose_one-Settles r lost w = record {
        inv = w.inv;
        same_lag = w.same_lag;
        same_high = w.same_high;
        forward = omega (arith, w.forward);
        stops = w.stops;
        window = w.window;
        earliest = λ n q. ground (arith, w.earliest n);
        lost_iff = λ n. ground (arith, w.forward, w.lost_iff n);
        ascending = (omega arith, w.ascending);
        ahead_observed = w.ahead_observed;
        ahead_dropped = w.ahead_dropped;
        behind = λ n q. w.behind n (omega arith);
        shrinks = w.shrinks;
        count = λ q. ((w.count q).0, omega (arith, (w.count q).1));
      }

    stay-Settles : t.high - t.committed ≤ t.lag → Settles t (t, [])
    unfolding contains
    stay-Settles near = record {
      inv = v;
      same_lag = refl;
      same_high = refl;
      forward = omega arith;
      stops = rw (free, gap) refl;
      window = near;
      earliest = λ n q. ground arith;
      lost_iff = λ n. ground arith;
      ascending = tt;
      ahead_observed = λ n q. refl;
      ahead_dropped = λ n q. refl;
      behind = λ n q. refl;
      shrinks = omega arith;
      count = λ q. (q, omega arith);
    }

-- The tracker after draining, with the facts that the round starts from.
module _ (t : Tracker) (v : Inv t) where
  drained-Drains :
      Drains t.high t.committed t.observed ((drained t).observed, (drained t).committed)
  unfolding drained
  drained-Drains =
      drain_prefix-Drains t.high (length t.observed) t.observed t.committed v.high_lt v.observed_le
        v.distinct v.committed_le (omega arith)

  drained-Inv : Inv (drained t)
  unfolding drained
  drained-Inv = record {
    high_lt = v.high_lt;
    committed_le = drained-Drains.bounded;
    distinct = drained-Drains.distinct;
    observed_le = λ n q. v.observed_le n (ground (arith, drained-Drains.members n));
    spaced = v.spaced;
  }

  drained_first : (r : Tracker × List ℕ) → Settles (drained t) r → Settles t r
  unfolding drained
  drained_first r = drained-Settles t _ _ r drained-Drains

  drained_fuel :
      (fuel : ℕ)
      → t.high + 1 - t.committed < suc fuel
      → (drained t).high + 1 - (drained t).committed ≤ fuel
  unfolding drained
  drained_fuel fuel h = omega (arith, drained-Drains.forward)

abbrev pub Rounds : Tracker → Round → Type 0
Rounds d r =
    ((s : ℕ) × (e : ℕ) × Holds 0 d.high d.committed d.dropped_ranges s e
      × (r
          ≡ skipped
              (record d { dropped_ranges = remove_entry s d.dropped_ranges; committed = e + 1 })))
    ⊎ ((covered d.committed d.dropped_ranges ≡ false)
        × (d.lag < d.high - d.committed)
        × (r ≡ missing d.committed (record d { committed = d.committed + 1 })))
    ⊎ ((covered d.committed d.dropped_ranges ≡ false)
        × (d.high - d.committed ≤ d.lag)
        × (r ≡ broke d))

pub skip_or_lose-Rounds : (d : Tracker) → Inv d → Rounds d (skip_or_lose d)
unfolding skip_or_lose
skip_or_lose-Rounds d v =
    elim (holding_entry_cases d.committed 0 d.high d.dropped_ranges v.spaced) [
      | inr (s, e, found, w) ↦
          inl (s, e, w, rw (found, skip_or_lose, add_u64-eq e 1 (omega (arith, w.3, v.high_lt))))
      | inl (miss, gap) ↦ elim (Bool-cases (ltb d.lag (d.high - d.committed))) [
        | inl far ↦ inr (
            inl (
              gap,
              ltb→lt _ _ far,
              rw (miss, skip_or_lose, far, add_u64-eq d.committed 1 (ground arith)),
            ))
        | inr near ↦ inr (inr (gap, ground arith, rw (miss, skip_or_lose, near)))
      ]
    ]

module _ (fuel : ℕ)
    (ih : (t : Tracker)
      → Inv t
      → t.high + 1 - t.committed < fuel
      → Settles t (settle_loop fuel t)) where
  round-Settles :
      (d : Tracker) (r : Round)
      → Inv d
      → contains d.committed d.observed ≡ false
      → d.high + 1 - d.committed ≤ fuel
      → Rounds d r
      → Settles d (elim r [
        | skipped t' ↦ settle_loop fuel t'
        | missing n t' ↦ let (t'', lost) = settle_loop fuel t' in (t'', n ∷ lost)
        | broke t' ↦ (t', [])
      ])
  round-Settles d r w free h (inl (s, e, held, q)) = rw q (
      skip_to-Settles d w free s e held _
        (ih _ (skip_to-Inv d w free s e held) (omega (arith, held.2, held.3))))
  round-Settles d r w free h (inr (inl (gap, far, q))) =
      rw q
        (lose_one-Settles d w free gap far _ _ (ih _ (lose_one-Inv d w free gap far) (omega arith)))
  round-Settles d r w free h (inr (inr (gap, near, q))) = rw q (stay-Settles d w free gap near)

-- With the fuel above what `committed` can still move, the loop ends by its own `break`.
pub settle_loop-Settles :
    (fuel : ℕ) (t : Tracker)
    → Inv t
    → t.high + 1 - t.committed < fuel
    → Settles t (settle_loop fuel t)
unfolding settle_loop
settle_loop-Settles zero t v h = absurd (omega arith)
settle_loop-Settles (suc fuel) t v h = drained_first t v _ (
    round-Settles fuel (settle_loop-Settles fuel) (drained t) (skip_or_lose (drained t))
      (drained-Inv t v) (drained-Drains t v).stops (drained_fuel t v fuel h)
      (skip_or_lose-Rounds (drained t) (drained-Inv t v)))

pub settle-Settles : (t : Tracker) → Inv t → Settles t (settle t)
unfolding settle
settle-Settles t v =
    settle_loop-Settles (t.high + 2 - t.committed) t v (omega (arith, v.committed_le))

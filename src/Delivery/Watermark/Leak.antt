-- ===== src/Delivery/Watermark/Leak.antt =====
-- Records that a dropped range overtakes in watermark.rs.
use warp_insight.Prelude.{
  ℕ, zero, suc, ◌+◌, ◌-◌, ◌≤◌, ◌<◌, ◌≡◌, refl, true, false, ◌||◌, List, [], ◌∷◌, ltb, length, arith,
  Bool-cases, inl, inr, ◌∙◌,
}
use warp_insight.Prelude.Words.{u64_max}
use warp_insight.Delivery.Watermark.Ranges.{covered}
use warp_insight.Delivery.Watermark.SeqSet.{contains, contains-insert}
use warp_insight.Delivery.Watermark.{
  Tracker, drain_prefix, drained, skip_or_lose, settle_loop, settle, observe, commit_range,
}
use warp_insight.Delivery.Watermark.Settle.{Inv}
use warp_insight.Delivery.Watermark.Loop.{
  settle-Settles, settle_loop-Settles, skip_or_lose-Rounds, Rounds, skip_to-Inv,
}
use warp_insight.Delivery.Watermark.Observe.{
  known, take_in-Settles, observe-known, observe_unknown, merged, merged-Inv, merged_lem,
  commit_range_settled, commit_range_lem, commit_range-Inv, commit_range-Advances,
}
use warp_insight.Delivery.Watermark.History.{
  Call, observes, commits, InRange, AllInRange, step, run, step-Inv, step-Kept, settled_cases,
}

-- `n` is counted as pending although it is settled.
abbrev pub Stale : ℕ → Tracker → Type 0
Stale n t = (contains n t.observed ≡ true) × (n < t.committed)

observe-Stale :
    (n seq : ℕ) (t : Tracker)
    → Inv t
    → seq < u64_max
    → Stale n t
    → contains n (observe seq t).0.observed ≡ true
observe-Stale n seq t v h s = elim (Bool-cases (known seq t)) [
  | inl q ↦ rw (observe-known t seq v q) s.0
  | inr q ↦
      rw (observe_unknown t seq v q)
        (ground (arith, (take_in-Settles t seq v h).behind n s.1, contains-insert n seq t.observed))
]

commit_range-Stale :
    (n start stop : ℕ) (t : Tracker)
    → Inv t
    → stop < u64_max
    → Stale n t
    → contains n (commit_range start stop t).0.observed ≡ true
commit_range-Stale n start stop t v h s =
    elim (Bool-cases (ltb stop start || ltb stop t.committed)) [
      | inl q ↦ rw (commit_range_settled t start stop v (settled_cases start stop t q)) s.0
      | inr q ↦ rw (commit_range_lem t start stop v (ground arith) (ground arith)) (
          ground (
            arith,
            (settle-Settles (merged t start stop v)
                  (merged-Inv t start stop v (ground arith) (ground arith) h)).behind
                n s.1,
          ))
    ]

step-Stale : (n : ℕ) (c : Call) (t : Tracker) → Inv t → InRange c → Stale n t → Stale n (step c t)
unfolding step
step-Stale n (observes seq) t v h s =
    (observe-Stale n seq t v h s, omega (arith, (step-Kept (observes seq) t v h).2))
step-Stale n (commits start stop) t v h s = (
  commit_range-Stale n start stop t v h s,
  omega (arith, (step-Kept (commits start stop) t v h).2),
)

run-Stale :
    (n : ℕ) (cs : List Call) (t : Tracker) → Inv t → AllInRange cs → Stale n t → Stale n (run cs t)
unfolding run
run-Stale n [] t v h s = s
run-Stale n (c ∷ cs) t v h s =
    run-Stale n cs (step c t) (step-Inv c t v h.0) h.1 (step-Stale n c t v h.0 s)

drain_prefix_free :
    (fuel : ℕ) (observed : List ℕ) (c : ℕ)
    → contains c observed ≡ false
    → drain_prefix fuel observed c ≡ (observed, c)
unfolding drain_prefix
drain_prefix_free zero observed c h = refl
drain_prefix_free (suc fuel) observed c h = rw h

drained_free : (t : Tracker) → contains t.committed t.observed ≡ false → drained t ≡ t
unfolding drained
drained_free t h = rw (drain_prefix_free (length t.observed) t.observed t.committed h)

-- The first round skips the range that holds `committed`, and so passes over every number up to
-- `stop`.
module _ (m : Tracker) (v : Inv m) (free : contains m.committed m.observed ≡ false) (stop seq : ℕ)
    (le : seq ≤ stop)
    (all : (n : ℕ) → m.committed ≤ n → n ≤ stop → covered n m.dropped_ranges ≡ true)
    (lt : m.committed < seq) (pending : contains seq m.observed ≡ true) where
  overtaken_round :
      (fuel : ℕ)
      → m.high + 1 - m.committed ≤ fuel
      → Rounds m (skip_or_lose m)
      → contains seq (settle_loop (suc fuel) m).0.observed ≡ true
  unfolding settle_loop
  overtaken_round fuel h (inl (s, e, held, q)) =
      rw (drained_free m free, settle_loop, q)
        (((settle_loop-Settles fuel _ (skip_to-Inv m v free s e held)
              (omega (arith, held.2, held.3))).behind
            seq (ground (arith, held.2, held.6, all (e + 1))))
          ∙ pending)
  overtaken_round fuel h (inr (inl (gap, far, q))) = ground (arith, all m.committed)
  overtaken_round fuel h (inr (inr (gap, near, q))) = ground (arith, all m.committed)

  overtaken_settle : contains seq (settle m).0.observed ≡ true
  unfolding settle
  overtaken_settle =
      rw fuel_suc
        (overtaken_round (m.high + 1 - m.committed) (omega arith) (skip_or_lose-Rounds m v))
    where
      fuel_suc : m.high + 2 - m.committed ≡ suc (m.high + 1 - m.committed)
      fuel_suc = omega (arith, v.committed_le)

-- The leak: a record that waits in the window when a dropped range from at or below `committed`
-- reaches it stays among the observed for good. It is counted by `pending_count` after any later
-- calls, although `committed` has passed it.
pub pending_leak :
    (t : Tracker) (seq start stop : ℕ) (cs : List Call)
    → Inv t
    → contains seq t.observed ≡ true
    → contains t.committed t.observed ≡ false
    → start ≤ t.committed
    → t.committed < seq
    → seq ≤ stop
    → stop < u64_max
    → AllInRange cs
    → let later = run cs (commit_range start stop t).0 in
      (contains seq later.observed ≡ true) × (seq < later.committed)
pending_leak t seq start stop cs v pending free from lt le small h =
    run-Stale seq cs (commit_range start stop t).0 (commit_range-Inv t start stop v small) h
      (stays, passed)
  where
    stays : contains seq (commit_range start stop t).0.observed ≡ true
    stays = rw (commit_range_lem t start stop v (omega arith) (omega arith)) (
        overtaken_settle (merged t start stop v)
          (merged-Inv t start stop v (omega arith) (omega arith) small) free stop seq le
          (λ n p q.
            ground (arith, (merged_lem t start stop v (omega arith) (omega arith) small).1 n))
          lt pending)

    passed : seq < (commit_range start stop t).0.committed
    passed = ground (
      arith,
      (commit_range-Advances t start stop v (omega arith) (omega arith) small).stops,
      (commit_range-Advances t start stop v (omega arith) (omega arith) small).forward,
    )

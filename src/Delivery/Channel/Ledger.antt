-- ===== src/Delivery/Channel/Ledger.antt =====
-- The counters of a channel against its tracker.
use warp_insight.Prelude.{
  ℕ, suc, ◌+◌, ◌-◌, ◌≤◌, ◌<◌, ◌≡◌, refl, subst, true, false, List, [], ◌∷◌, String, length, arith,
  Bool-cases, inl, inr,
}
use native.Mathlib.Nat.{add-zero}
use warp_insight.Prelude.Words.{u64_max, add_u64-eq, saturating_add-eq}
use warp_insight.Delivery.Watermark.{settle}
use warp_insight.Delivery.Watermark.SeqSet.{length-insert}
use warp_insight.Delivery.Watermark.Settle.{Inv, Settles}
use warp_insight.Delivery.Watermark.Observe.{
  known, take_in, take_in-Settles, observe-known, observe_unknown, commit_range_settled, new-Inv,
}
use warp_insight.Delivery.Channel.{
  QualityChannel, accepted, rejected, new, accept, on_record, on_dropped_range, committed,
  pending_count,
}

-- A stream of records, with no dropped ranges.
unfoldable pub on_records : List ℕ → QualityChannel → QualityChannel
unfolding on_record
on_records [] c = c
on_records (seq ∷ seqs) c = on_records seqs (on_record seq c).0

abbrev pub AllBelow : ℕ → List ℕ → Type 0
AllBelow n [] = Unit {0}
AllBelow n (x ∷ xs) = (x < n) × AllBelow n xs

-- What holds of a channel that has seen `k` records and no dropped range.
record Balanced (k : ℕ) (c : QualityChannel) : Type 0 where
  inv : Inv c.watermark
  no_ranges : c.watermark.dropped_ranges ≡ []
  accepted_le : c.totals.accepted_count ≤ k
  lost_le : c.totals.lost_count ≤ c.watermark.committed
  balance :
      c.totals.accepted_count + c.totals.lost_count
      ≡ c.watermark.committed + length c.watermark.observed

on_record-known :
    (seq : ℕ) (c : QualityChannel)
    → Inv c.watermark
    → known seq c.watermark ≡ true
    → on_record seq c ≡ (c, rejected)
unfolding on_record
on_record-known seq c v q =
    rw (observe-known c.watermark seq v q, on_record, observe-known c.watermark seq v q)

on_record_unknown :
    (seq : ℕ) (c : QualityChannel)
    → Inv c.watermark
    → known seq c.watermark ≡ false
    → on_record seq c ≡ (
      record c {
        watermark = (settle (take_in seq c.watermark)).0;
        totals = accept (settle (take_in seq c.watermark)).1 c.totals;
      },
      accepted,
    )
unfolding on_record
on_record_unknown seq c v q =
    rw (observe_unknown c.watermark seq v q, on_record, observe_unknown c.watermark seq v q)

module _ (k seq : ℕ) (c : QualityChannel) (k_lt : k < u64_max) (seq_lt : seq < u64_max) where
  accept-Balanced :
      known seq c.watermark ≡ false
      → Balanced k c
      → Settles (take_in seq c.watermark) (settle (take_in seq c.watermark))
      → Balanced (k + 1) (record c {
        watermark = (settle (take_in seq c.watermark)).0;
        totals = accept (settle (take_in seq c.watermark)).1 c.totals;
      })
  unfolding accept
  accept-Balanced q b w =
      rw
        (
          add_u64-eq c.totals.accepted_count 1 (omega (arith, b.accepted_le)),
          add_u64-eq c.totals.lost_count (length (settle (take_in seq c.watermark)).1) room,
        )
        (record {
          inv = w.inv;
          no_ranges = (w.count b.no_ranges).0;
          accepted_le = omega (arith, b.accepted_le);
          lost_le = moved;
          balance = omega (arith, b.balance, (w.count b.no_ranges).1, one_more);
        })
    where
      one_more : length (take_in seq c.watermark).observed ≡ length c.watermark.observed + 1
      one_more = length-insert seq c.watermark.observed (ground arith)

      moved :
          c.totals.lost_count + length (settle (take_in seq c.watermark)).1
          ≤ (settle (take_in seq c.watermark)).0.committed
      moved = omega (arith, b.lost_le, (w.count b.no_ranges).1, w.shrinks)

      room : c.totals.lost_count + length (settle (take_in seq c.watermark)).1 ≤ u64_max
      room = omega (arith, moved, w.inv.committed_le, w.inv.high_lt)

  on_record-Balanced : Balanced k c → Balanced (k + 1) (on_record seq c).0
  on_record-Balanced b = elim (Bool-cases (known seq c.watermark)) [
    | inl q ↦ rw (on_record-known seq c b.inv q) (record {
      inv = b.inv;
      no_ranges = b.no_ranges;
      accepted_le = omega (arith, b.accepted_le);
      lost_le = b.lost_le;
      balance = b.balance;
    })
    | inr q ↦
        rw (on_record_unknown seq c b.inv q)
          (accept-Balanced q b (take_in-Settles c.watermark seq b.inv seq_lt))
  ]

on_records-Balanced :
    (k : ℕ) (seqs : List ℕ) (c : QualityChannel)
    → AllBelow u64_max seqs
    → k + length seqs ≤ u64_max
    → Balanced k c
    → Balanced (k + length seqs) (on_records seqs c)
unfolding on_records
on_records-Balanced k [] c h room b = rw (add-zero k) b
on_records-Balanced k (seq ∷ seqs) c h room b =
    subst (λ n. Balanced n (on_records seqs (on_record seq c).0)) (shift k (length seqs))
      (on_records-Balanced (k + 1) seqs (on_record seq c).0 h.1 (omega arith)
        (on_record-Balanced k seq c (omega arith) h.0 b))
  where
    shift : (a b : ℕ) → a + 1 + b ≡ a + suc b
    shift a b = omega arith

new-Balanced : (agent_id : String) (lag : ℕ) → Balanced 0 (new agent_id lag)
unfolding new
new-Balanced agent_id lag = record {
  inv = new-Inv lag;
  no_ranges = refl;
  accepted_le = omega arith;
  lost_le = omega arith;
  balance = omega arith;
}

-- On a stream of records below the largest `u64`, with no dropped ranges, every number below
-- `committed` is counted once, as accepted or as lost: the two counters add up to `committed` and
-- the records that wait in the window.
pub records_balance :
    (agent_id : String) (lag : ℕ) (seqs : List ℕ)
    → AllBelow u64_max seqs
    → length seqs ≤ u64_max
    → let c = on_records seqs (new agent_id lag) in
      (c.totals.accepted_count + c.totals.lost_count ≡ committed c + pending_count c)
      × (c.totals.accepted_count ≤ length seqs)
unfolding committed pending_count
records_balance agent_id lag seqs h room = (b.balance, omega (arith, b.accepted_le))
  where
    b : Balanced (0 + length seqs) (on_records seqs (new agent_id lag))
    b = on_records-Balanced 0 seqs (new agent_id lag) h (omega arith) (new-Balanced agent_id lag)

-- An inverted range drops nothing and leaves the tracker alone, yet counts as one filtered record.
pub on_dropped_range_inverted :
    (c : QualityChannel) (start stop : ℕ) (reason : String)
    → Inv c.watermark
    → stop < start
    → c.totals.filtered_count < u64_max
    → c.totals.lost_count ≤ u64_max
    → let c' = on_dropped_range start stop reason c in
      (c'.watermark ≡ c.watermark)
      × (c'.totals.filtered_count ≡ c.totals.filtered_count + 1)
      × (c'.totals.lost_count ≡ c.totals.lost_count)
unfolding on_dropped_range
on_dropped_range_inverted c start stop reason v h room word =
    rw
      (
        commit_range_settled c.watermark start stop v (inl h),
        saturating_add-eq (stop - start) 1 (omega arith),
        add_u64-eq c.totals.filtered_count (stop - start + 1) (omega arith),
        add_u64-eq c.totals.lost_count 0 (omega arith),
      )
      (refl, omega arith, omega arith)

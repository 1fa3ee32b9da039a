-- ===== src/Delivery/Tests.antt =====
-- Runs of the delivery crate on concrete data.
use warp_insight.Prelude.{
  ℕ, ◌+◌, ◌-◌, ◌≤◌, ◌<◌, ◌≡◌, refl, ◌↔◌, true, false, Bool, ◌||◌, ◌&&◌, leb, List, [], ◌∷◌, arith,
  length, String,
}
use warp_insight.Delivery.Watermark.{observe, commit_range, new, pending_ranges, Tracker, duplicate}
use warp_insight.Delivery.Watermark.Ranges.{
  Spaced, covered, insert_dropped_range, is_in_dropped_range,
}
use warp_insight.Delivery.Watermark.Ranges.Merge.{insert_dropped_range_lem}
use warp_insight.Delivery.Watermark.Ranges.Lookup.{is_in_dropped_range-eq-covered}
use warp_insight.Delivery.Watermark.SeqSet.{contains}
use warp_insight.Delivery.Watermark.Settle.{Inv}
use warp_insight.Delivery.Watermark.Observe.{new-Inv}
use warp_insight.Delivery.Watermark.History.{
  Call, observes, commits, run, run-InWindow, observe_once,
}
use warp_insight.Delivery.Watermark.Leak.{pending_leak}
use warp_insight.Delivery.Channel.{
  QualityChannel, on_record, on_dropped_range, committed, pending_count, rejected,
}
use warp_insight.Delivery.Channel
use warp_insight.Delivery.Channel.Ledger.{on_records, records_balance, on_dropped_range_inverted}
use warp_insight.Delivery.Channel.Once.{arrival, filtered, handle_all, on_record_once}

window_slides : (observe 4 (observe 3 (observe 0 (new 2)).0).0).1.lost ≡ 1 ∷ []
unfolding observe new warp_insight.Prelude.Words.add_u64
window_slides = refl

ranges_merge :
    pending_ranges (commit_range 8 20 (commit_range 10 12 (commit_range 5 9 (new 100)).0).0).0 ≡ 1
unfolding commit_range new pending_ranges warp_insight.Prelude.Words.saturating_add
ranges_merge = refl

insert_dropped_range_lem_example :
    Spaced 0 30 (insert_dropped_range 5 12 ((3, 6) ∷ (20, 30) ∷ []))
    × ((n : ℕ)
        → covered n (insert_dropped_range 5 12 ((3, 6) ∷ (20, 30) ∷ []))
          ≡ (covered n ((3, 6) ∷ (20, 30) ∷ []) || (leb 5 n && leb n 12)))
insert_dropped_range_lem_example =
    insert_dropped_range_lem 5 12 30 ((3, 6) ∷ (20, 30) ∷ []) (omega arith)
      (omega arith, omega arith, omega arith, (omega arith, omega arith, omega arith, tt))
      (omega arith) (omega arith)

is_in_dropped_range-eq-covered_example :
    is_in_dropped_range 4 ((3, 6) ∷ []) ≡ covered 4 ((3, 6) ∷ [])
is_in_dropped_range-eq-covered_example =
    is_in_dropped_range-eq-covered 4 0 30 ((3, 6) ∷ []) (omega arith, omega arith, omega arith, tt)

abbrev history : List Call
history = observes 3 ∷ commits 1 2 ∷ observes 9 ∷ []

run-InWindow_example :
    ((run history (new 2)).high - (run history (new 2)).committed ≤ 2)
    × ((run history (new 2)).committed ≤ (run history (new 2)).high + 1)
run-InWindow_example = run-InWindow 2 history (omega arith, (omega arith, (omega arith, tt)))

observe_once_example :
    observe 3 (run history (observe 3 (new 2)).0)
    ≡ (run history (observe 3 (new 2)).0, record { outcome = duplicate; lost = [] })
observe_once_example =
    observe_once (new 2) 3 history (new-Inv 2) (omega arith)
      (omega arith, (omega arith, (omega arith, tt)))

abbrev waiting : Tracker
waiting = record { lag = 5; committed = 0; observed = 3 ∷ []; high = 3; dropped_ranges = [] }

waiting-Inv : Inv waiting
unfolding contains
waiting-Inv = record {
  high_lt = omega arith;
  committed_le = omega arith;
  distinct = ground arith;
  observed_le = λ n q. ground arith;
  spaced = tt;
}

pending_leak_example :
    (contains 3 (run history (commit_range 0 5 waiting).0).observed ≡ true)
    × (3 < (run history (commit_range 0 5 waiting).0).committed)
unfolding contains
pending_leak_example =
    pending_leak waiting 3 0 5 history waiting-Inv refl refl (omega arith) (omega arith)
      (omega arith) (omega arith) (omega arith, (omega arith, (omega arith, tt)))

abbrev channel : QualityChannel
channel = Channel.new "agent" 2

records_balance_example :
    ((on_records (0 ∷ 5 ∷ 2 ∷ []) channel).totals.accepted_count
        + (on_records (0 ∷ 5 ∷ 2 ∷ []) channel).totals.lost_count
      ≡ committed (on_records (0 ∷ 5 ∷ 2 ∷ []) channel)
        + pending_count (on_records (0 ∷ 5 ∷ 2 ∷ []) channel))
    × ((on_records (0 ∷ 5 ∷ 2 ∷ []) channel).totals.accepted_count ≤ 3)
records_balance_example =
    records_balance "agent" 2 (0 ∷ 5 ∷ 2 ∷ []) (omega arith, (omega arith, (omega arith, tt)))
      (omega arith)

on_dropped_range_inverted_example :
    ((on_dropped_range 5 4 "noise" channel).watermark ≡ channel.watermark)
    × ((on_dropped_range 5 4 "noise" channel).totals.filtered_count
        ≡ channel.totals.filtered_count + 1)
    × ((on_dropped_range 5 4 "noise" channel).totals.lost_count ≡ channel.totals.lost_count)
unfolding warp_insight.Delivery.Channel.new
on_dropped_range_inverted_example =
    on_dropped_range_inverted channel 5 4 "noise" (new-Inv 2) (omega arith) (omega arith)
      (omega arith)

on_record_once_example :
    on_record 3 (handle_all (arrival 9 ∷ filtered 1 2 "noise" ∷ []) (on_record 3 channel).0)
    ≡ (handle_all (arrival 9 ∷ filtered 1 2 "noise" ∷ []) (on_record 3 channel).0, rejected)
unfolding warp_insight.Delivery.Channel.new
on_record_once_example =
    on_record_once 3 (arrival 9 ∷ filtered 1 2 "noise" ∷ []) channel (new-Inv 2) (omega arith)
      (omega arith, (omega arith, tt))

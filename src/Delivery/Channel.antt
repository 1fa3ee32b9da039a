-- ===== src/Delivery/Channel.antt =====
-- crates/wist-delivery/src/channel.rs: deduplication, loss detection and counting as one call.
pub mod Ledger
pub mod Once
use warp_insight.Prelude.{ℕ, String, List, [], ◌∷◌, ◌++◌, length, if◌then◌else◌}
use warp_insight.Prelude.Words.{add_u64}
use warp_insight.Delivery.Watermark.{Tracker, ObserveOutcome, new_record, duplicate}
use warp_insight.Delivery.Watermark
use warp_insight.Delivery.Report.{DroppedRange, StreamLossReport}
use warp_insight.Delivery.Report

pub data Acceptance : Type 0 where
  accepted rejected : Acceptance

pub record QualityChannel : Type 0 where
  pub watermark : Tracker
  pub totals : StreamLossReport  -- `report`
  pub dropped_ranges : List DroppedRange

unfoldable pub new : String → ℕ → QualityChannel
unfolding Watermark.new Report.new
new agent_id lag = record {
  watermark = Watermark.new lag;
  totals = Report.new agent_id;
  dropped_ranges = [];
}

-- `self.report.lost_count += lost` and `self.report.accepted_count += 1`.
accept : List ℕ → StreamLossReport → StreamLossReport
accept lost r = record r {
  lost_count = add_u64 r.lost_count (length lost);
  accepted_count = add_u64 r.accepted_count 1;
}

unfoldable pub on_record : ℕ → QualityChannel → QualityChannel × Acceptance
unfolding Watermark.observe accept
on_record seq c =
    let (watermark, result) = Watermark.observe seq c.watermark in
    elim result.outcome [
      | duplicate ↦ (record c { watermark = watermark }, rejected)
      | new_record ↦
          (record c { watermark = watermark; totals = accept result.lost c.totals }, accepted)
    ]

unfoldable pub on_dropped_range : ℕ → ℕ → String → QualityChannel → QualityChannel
unfolding Watermark.commit_range Report.count
on_dropped_range range_start range_end drop_reason c =
    let range : DroppedRange = record {
      range_start = range_start;
      range_end = range_end;
      drop_reason = drop_reason;
    } in
    let (watermark, lost) = Watermark.commit_range range_start range_end c.watermark in
    record c {
      watermark = watermark;
      totals = record c.totals {
        filtered_count = add_u64 c.totals.filtered_count (Report.count range);
        lost_count = add_u64 c.totals.lost_count (length lost);
      };
      dropped_ranges = c.dropped_ranges ++ (range ∷ []);
    }

unfoldable pub report : QualityChannel → StreamLossReport
report c = record c.totals { dropped_ranges = c.dropped_ranges }

unfoldable pub committed : QualityChannel → ℕ
committed c = c.watermark.committed

unfoldable pub pending_count : QualityChannel → ℕ
unfolding Watermark.pending_count
pending_count c = Watermark.pending_count c.watermark

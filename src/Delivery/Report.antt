-- ===== src/Delivery/Report.antt =====
-- crates/wist-delivery/src/report.rs: the counters of one agent's stream.
use warp_insight.Prelude.{ℕ, ◌-◌, String, List, []}
use warp_insight.Prelude.Words.{saturating_add}

pub record DroppedRange : Type 0 where
  pub range_start : ℕ  -- u64
  pub range_end : ℕ  -- u64
  pub drop_reason : String

pub record StreamLossReport : Type 0 where
  pub agent_id : String
  pub lost_count : ℕ  -- u64
  pub filtered_count : ℕ  -- u64
  pub accepted_count : ℕ  -- u64
  pub dropped_ranges : List DroppedRange

unfoldable pub new : String → StreamLossReport
new agent_id = record {
  agent_id = agent_id;
  lost_count = 0;
  filtered_count = 0;
  accepted_count = 0;
  dropped_ranges = [];
}

-- `DroppedRange::count`, both ends included.
unfoldable pub count : DroppedRange → ℕ
count r = saturating_add (r.range_end - r.range_start) 1

-- ===== src/Delivery/Reconcile.antt =====
-- crates/wist-delivery/src/reconcile.rs: where a loss happened, and the end-to-end ledger.
use warp_insight.Prelude.{ℕ, ◌-◌, Bool, ◌==◌}
use warp_insight.Prelude.Words.{saturating_add}

pub record HopLosses : Type 0 where
  pub first_segment : ℕ  -- u64
  pub cumulative : ℕ  -- u64

unfoldable pub second_segment : HopLosses → ℕ
second_segment l = l.cumulative - l.first_segment

unfoldable pub total : HopLosses → ℕ
total l = l.cumulative

pub record DeliveryLedger : Type 0 where
  pub produced : ℕ  -- u64, as the others
  pub stored : ℕ
  pub filtered : ℕ
  pub source_dropped : ℕ
  pub silent_loss : ℕ

unfoldable pub balanced : DeliveryLedger → Bool
balanced l =
    l.produced
    == saturating_add (saturating_add (saturating_add l.stored l.filtered) l.source_dropped)
        l.silent_loss

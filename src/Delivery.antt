-- ===== src/Delivery.antt =====
-- crates/wist-delivery: receiving-side delivery integrity.
pub mod Watermark
pub mod Report
pub mod Channel
pub mod Reconcile
mod Tests

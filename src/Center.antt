-- ===== src/Center.antt =====
-- crates/wist-center: the control center that provisions gateways and gathers their reports.
pub mod Store
pub mod Tokens
pub mod Gateways
pub mod Catalog
pub mod Config
pub mod Access
pub mod Reports
pub mod Registration
pub mod Provisioning
pub mod Artifacts
pub mod Seeds
pub mod TimeSeries
pub mod Admin
mod ApiTests
mod Tests

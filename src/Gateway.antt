-- ===== src/Gateway.antt =====
-- crates/warp-gateway: the edge gateway that enrols agents and takes their reports.
pub mod RateLimit
pub mod Store
pub mod Config
pub mod Tokens
pub mod Agents
pub mod Identifiers
pub mod Enrollment
pub mod Admission
pub mod AdminOps
pub mod Install
pub mod Overview
pub mod Package
pub mod Settings
pub mod Toml
mod SettingsTests
mod Tests

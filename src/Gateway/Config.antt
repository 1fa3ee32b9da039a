-- ===== src/Gateway/Config.antt =====
-- crates/warp-gateway/src/infra/config.rs: the part of `AdminConfig` that the handlers read. The two
-- lifetimes are positive `i64` there; a second is 10⁹ of the model's nanoseconds.
use warp_insight.Prelude.{ℕ}
use warp_insight.Prelude.Text.{Text}

pub record AdminConfig : Type 0 where
  pub tenant_id : Text
  pub environment_id : Text
  pub admin_api_token_hash : Text
  pub bootstrap_token_ttl_seconds : ℕ
  pub credential_ttl_seconds : ℕ

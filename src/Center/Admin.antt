-- ===== src/Center/Admin.antt =====
-- crates/wist-center/src/api/admin_ops.rs: the handlers of the administrator. Each asks for the
-- administrator's token first.
pub mod Instances
pub mod Listings
pub mod History
pub mod Platform
pub mod Admission
pub mod Counts
pub mod Window
use warp_insight.Prelude.{◌++◌}
use warp_insight.Prelude.Text.{Text}
use warp_insight.Prelude.Results.{Result, ok, err}
use warp_insight.Gateway.RateLimit.{Buckets}
use warp_insight.Center.Store.{CenterStoreSnapshot}
use warp_insight.Center.Access.{Refusal, internal}

-- A handler's own work follows the test of the token.
abbrev pub as_admin :
    {A : Type 0}
    → CenterStoreSnapshot
    → CenterStoreSnapshot × Result Refusal A
    → Buckets × Result Refusal (Unit {0})
    → (Buckets × CenterStoreSnapshot) × Result Refusal A
as_admin s work (m, err refusal) = ((m, s), err refusal)
as_admin s (s', answer) (m, ok u) = ((m, s'), answer)

abbrev pub or_internal : {A : Type 0} → Text → Result Text A → Result Refusal A
or_internal prefix (ok a) = ok a
or_internal prefix (err e) = err (internal (prefix ++ e))

abbrev pub stored_or_internal :
    {A : Type 0}
    → Text
    → CenterStoreSnapshot × Result Text A
    → CenterStoreSnapshot × Result Refusal A
stored_or_internal prefix (s, answer) = (s, or_internal prefix answer)

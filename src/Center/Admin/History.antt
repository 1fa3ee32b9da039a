-- ===== src/Center/Admin/History.antt =====
-- crates/wist-center/src/api/admin_ops.rs: what the administrator reads of the time-series database.
-- Instants are seconds here; the queries of infra/vm.rs are given as functions, and a failed one only
-- warns.
use warp_insight.Prelude.{ℕ, ◌-◌, ◌%◌, Option, none, some, List, [], if◌then◌else◌}
use warp_insight.Prelude.Text.{Text, text, text_eq}
use warp_insight.Prelude.Results.{Result, ok, err}
use warp_insight.Secret.{Headers}
use warp_insight.Gateway.RateLimit.{Buckets}
use warp_insight.Center.Config.{CenterConfig}
use warp_insight.Center.Store.{CenterStoreSnapshot}
use warp_insight.Center.Access.{Refusal, refused, Moment, require_admin_bearer}
use warp_insight.Center.Admin.{as_admin}

-- The length of the window and the step, in seconds.
unfoldable pub history_window_config : Text → Option (ℕ × ℕ)
unfolding text_eq
history_window_config window =
    if text_eq window (text "1h")
    then some (3600, 60)
    else if text_eq window (text "6h")
    then some (21_600, 300)
    else if text_eq window (text "24h")
    then some (86_400, 900)
    else none

abbrev pub or_hour : Option Text → Text
or_hour none = text "1h"
or_hour (some window) = window

-- The start and the end of the query. The clock reads no less than the window.
unfoldable pub history_range : (now window_seconds step_seconds : ℕ) → ℕ × ℕ
history_range now window_seconds step_seconds =
    let end = now - now % step_seconds in (end - window_seconds, end)

-- The answer, which also names the gateway and the agent of the request.
pub record HistoryReturned (Sample : Type 0) : Type 0 where
  pub window : Text
  pub step_seconds : ℕ
  pub samples : List Sample

-- A query of the database is given by its start, its end and its step.
abbrev pub Database : Type 0 → Type 0
Database Sample = Option (ℕ → ℕ → ℕ → Result Text (List Sample))

abbrev pub samples_or_none : {Sample : Type 0} → Result Text (List Sample) → List Sample
samples_or_none (ok samples) = samples
samples_or_none (err e) = []

unfoldable pub query_samples :
    {Sample : Type 0} → Database Sample → (start end step_seconds : ℕ) → List Sample
query_samples none start end step_seconds = []
query_samples (some query) start end step_seconds = samples_or_none (query start end step_seconds)

unfoldable pub history :
    {Sample : Type 0} → ℕ → Database Sample → Option Text → Result Refusal (HistoryReturned Sample)
unfolding history_window_config history_range query_samples
history now database window = elim (history_window_config (or_hour window)) [
  | none ↦ err (refused 400 (text "window must be one of: 1h, 6h, 24h"))
  | some (window_seconds, step_seconds) ↦
      let (start, end) = history_range now window_seconds step_seconds in
      ok (record {
        window = or_hour window;
        step_seconds = step_seconds;
        samples = query_samples database start end step_seconds;
      })
]

-- The queries of all gateways, and those of all agents of all gateways.
abbrev pub of_gateway :
    {Sample : Type 0}
    → Option (Text → ℕ → ℕ → ℕ → Result Text (List Sample))
    → Text
    → Database Sample
of_gateway none gateway_id = none
of_gateway (some query) gateway_id = some (query gateway_id)

abbrev pub of_agent :
    {Sample : Type 0}
    → Option (Text → Text → ℕ → ℕ → ℕ → Result Text (List Sample))
    → (gateway_id agent_id : Text) → Database Sample
of_agent none gateway_id agent_id = none
of_agent (some query) gateway_id agent_id = some (query gateway_id agent_id)

unfoldable pub admin_get_gateway_history :
    {Sample : Type 0}
    → (List ℕ → List ℕ)
    → CenterConfig
    → Moment
    → (now : ℕ) → Option (Text → ℕ → ℕ → ℕ → Result Text (List Sample))
    → Headers
    → (client_key gateway_id : Text) → (window : Option Text) → Buckets × CenterStoreSnapshot
    → (Buckets × CenterStoreSnapshot) × Result Refusal (HistoryReturned Sample)
unfolding require_admin_bearer history
admin_get_gateway_history digest config at now vm headers client_key gateway_id window (m, s) =
    as_admin s (s, history now (of_gateway vm gateway_id) window)
      (require_admin_bearer digest config at headers client_key m)

unfoldable pub admin_get_agent_history :
    {Sample : Type 0}
    → (List ℕ → List ℕ)
    → CenterConfig
    → Moment
    → (now : ℕ) → Option (Text → Text → ℕ → ℕ → ℕ → Result Text (List Sample))
    → Headers
    → (client_key gateway_id agent_id : Text) → (window : Option Text)
    → Buckets × CenterStoreSnapshot
    → (Buckets × CenterStoreSnapshot) × Result Refusal (HistoryReturned Sample)
unfolding require_admin_bearer history
admin_get_agent_history digest config at now vm headers client_key gateway_id agent_id window
      (m, s) =
    as_admin s (s, history now (of_agent vm gateway_id agent_id) window)
      (require_admin_bearer digest config at headers client_key m)

abbrev uptime_or_none : {Uptime : Type 0} → Result Text (Option Uptime) → Option Uptime
uptime_or_none (ok uptime) = uptime
uptime_or_none (err e) = none

abbrev query_uptime :
    {Uptime : Type 0}
    → Option (Text → Text → Result Text (Option Uptime))
    → (gateway_id window : Text) → Option Uptime
query_uptime none gateway_id window = none
query_uptime (some query) gateway_id window = uptime_or_none (query gateway_id window)

-- The window and the share of it that the gateway was online. The window goes into the query as it
-- is given.
unfoldable pub admin_get_gateway_uptime :
    {Uptime : Type 0}
    → (List ℕ → List ℕ)
    → CenterConfig
    → Moment
    → Option (Text → Text → Result Text (Option Uptime))
    → Headers
    → (client_key gateway_id : Text) → (window : Option Text) → Buckets × CenterStoreSnapshot
    → (Buckets × CenterStoreSnapshot) × Result Refusal (Text × Option Uptime)
unfolding require_admin_bearer
admin_get_gateway_uptime digest config at vm headers client_key gateway_id window (m, s) =
    as_admin s (s, ok (or_hour window, query_uptime vm gateway_id (or_hour window)))
      (require_admin_bearer digest config at headers client_key m)

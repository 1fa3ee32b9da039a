-- ===== src/Center/Admin/Listings.antt =====
-- crates/wist-center/src/api/admin_ops.rs: what the administrator reads of gateways and agents.
use warp_insight.Prelude.{
  ℕ, ◌+◌, Bool, true, false, not, Option, none, some, List, [], ◌∷◌, map, ◌++◌, length,
  if◌then◌else◌,
}
use warp_insight.Prelude.Text.{Text, text, text_eq}
use warp_insight.Prelude.Results.{Result, ok, err}
use warp_insight.Prelude.Sorting.{sort, text_le}
use warp_insight.Secret.{Headers}
use warp_insight.Gateway.RateLimit.{Buckets}
use warp_insight.Center.Config.{CenterConfig}
use warp_insight.Center.Store.{StoredGateway, StoredAgent, LifecycleEvent, CenterStoreSnapshot}
use warp_insight.Center.Catalog.{list_gateways, list_agents_by_gateway, list_lifecycle_events}
use warp_insight.Center.Access.{
  Refusal, refused, internal, Moment, get_gateway, require_admin_bearer,
}
use warp_insight.Center.Admin.{as_admin, or_internal}
use warp_insight.Center.Admin.Instances.{mapped, or_now}

pub record AgentRuntimeStatus : Type 0 where
  pub agent_id : Text
  pub instance_id : Text
  pub version : Text
  pub status : Text
  pub health : Text
  pub memory_bytes : Option ℕ
  pub cpu_percent : Option ℕ
  pub admin_latency_ms : Option ℕ
  pub last_seen_at : ℕ

unfoldable pub agent_view : StoredAgent → AgentRuntimeStatus
agent_view agent = record {
  agent_id = agent.agent_id;
  instance_id = agent.instance_id;
  version = agent.version;
  status = agent.status;
  health = agent.health;
  memory_bytes = agent.memory_bytes;
  cpu_percent = agent.cpu_percent;
  admin_latency_ms = agent.admin_latency_ms;
  last_seen_at = agent.last_seen_at;
}

unfoldable pub admin_list_gateway_lifecycle :
    (List ℕ → List ℕ)
    → CenterConfig
    → Moment
    → Headers
    → (client_key gateway_id : Text) → Buckets × CenterStoreSnapshot
    → (Buckets × CenterStoreSnapshot) × Result Refusal (List LifecycleEvent)
unfolding require_admin_bearer list_lifecycle_events
admin_list_gateway_lifecycle digest config at headers client_key gateway_id (m, s) =
    as_admin s
      (
        s,
        or_internal (text "failed to load gateway lifecycle: ")
            (list_lifecycle_events at.loading gateway_id s),
      )
      (require_admin_bearer digest config at headers client_key m)

unfoldable pub admin_list_gateway_agents :
    (List ℕ → List ℕ)
    → CenterConfig
    → Moment
    → Headers
    → (client_key gateway_id : Text) → Buckets × CenterStoreSnapshot
    → (Buckets × CenterStoreSnapshot) × Result Refusal (List AgentRuntimeStatus)
unfolding require_admin_bearer list_agents_by_gateway agent_view
admin_list_gateway_agents digest config at headers client_key gateway_id (m, s) =
    as_admin s
      (
        s,
        or_internal (text "failed to load gateway agents: ")
            (mapped agent_view (list_agents_by_gateway at.loading gateway_id s)),
      )
      (require_admin_bearer digest config at headers client_key m)

pub record GatewayListView : Type 0 where
  pub gateway_count : ℕ
  pub online_count : ℕ
  pub offline_count : ℕ
  pub degraded_count : ℕ
  pub updated_at : ℕ

abbrev pub is_text : Text → Option Text → Bool
is_text t none = false
is_text t (some u) = text_eq u t

abbrev pub one_if : Bool → ℕ
one_if true = 1
one_if false = 0

-- The fold over the gateways, with its three sums.
unfoldable pub count_gateways : ℕ × ℕ × ℕ → List StoredGateway → ℕ × ℕ × ℕ
count_gateways sums [] = sums
count_gateways (online, offline, degraded) (stored ∷ gateways) =
    count_gateways
      (
        online + one_if (is_text (text "online") stored.status),
        offline + one_if (not (is_text (text "online") stored.status)),
        degraded + one_if (is_text (text "degraded") stored.health),
      )
      gateways

unfoldable pub gateway_list_view : ℕ → List StoredGateway → GatewayListView
unfolding count_gateways
gateway_list_view now gateways =
    let (online, offline, degraded) = count_gateways (0, 0, 0) gateways in
    record {
      gateway_count = length gateways;
      online_count = online;
      offline_count = offline;
      degraded_count = degraded;
      updated_at = now;
    }

abbrev viewed : {A B : Type 0} → (A → B) → Result Refusal A → Result Refusal B
viewed f (ok a) = ok (f a)
viewed f (err refusal) = err refusal

unfoldable pub admin_view_gateway_list :
    (List ℕ → List ℕ)
    → CenterConfig
    → Moment
    → Headers
    → (client_key : Text) → Buckets × CenterStoreSnapshot
    → (Buckets × CenterStoreSnapshot) × Result Refusal GatewayListView
unfolding require_admin_bearer list_gateways gateway_list_view
admin_view_gateway_list digest config at headers client_key (m, s) =
    as_admin s
      (
        s,
        viewed (gateway_list_view at.now)
            (or_internal (text "failed to load gateway store: ") (list_gateways at.loading s)),
      )
      (require_admin_bearer digest config at headers client_key m)

pub record GatewayRuntimeStatus : Type 0 where
  pub gateway_id : Text
  pub instance_id : Text
  pub version : Text
  pub status : Text
  pub health : Text
  pub memory_bytes : Option ℕ
  pub cpu_percent : Option ℕ
  pub last_seen_at : ℕ

abbrev or_text : Text → Option Text → Text
or_text other none = other
or_text other (some t) = t

unfoldable pub gateway_runtime_status : ℕ → StoredGateway → GatewayRuntimeStatus
gateway_runtime_status now stored = record {
  gateway_id = stored.gateway_id;
  instance_id = stored.instance_id;
  version = or_text (text "") stored.version;
  status = or_text (text "offline") stored.status;
  health = or_text (text "unknown") stored.health;
  memory_bytes = stored.memory_bytes;
  cpu_percent = stored.cpu_percent;
  last_seen_at = or_now now stored.last_seen_at;
}

abbrev pub has_reported : StoredGateway → Bool
has_reported stored = elim stored.last_seen_at [ none ↦ false | some at ↦ true ]

unfoldable pub reported : List StoredGateway → List StoredGateway
reported [] = []
reported (stored ∷ gateways) =
    let rest = reported gateways in if has_reported stored then stored ∷ rest else rest

abbrev pub status_le : GatewayRuntimeStatus → GatewayRuntimeStatus → Bool
status_le left right = text_le left.gateway_id right.gateway_id

unfoldable pub status_views : ℕ → List StoredGateway → List GatewayRuntimeStatus
unfolding reported gateway_runtime_status sort
status_views now gateways = sort status_le (map (gateway_runtime_status now) (reported gateways))

unfoldable pub admin_list_gateway_status :
    (List ℕ → List ℕ)
    → CenterConfig
    → Moment
    → Headers
    → (client_key : Text) → Buckets × CenterStoreSnapshot
    → (Buckets × CenterStoreSnapshot) × Result Refusal (List GatewayRuntimeStatus)
unfolding require_admin_bearer list_gateways status_views
admin_list_gateway_status digest config at headers client_key (m, s) =
    as_admin s
      (
        s,
        viewed (status_views at.now)
            (or_internal (text "failed to load gateway store: ") (list_gateways at.loading s)),
      )
      (require_admin_bearer digest config at headers client_key m)

unfoldable pub show_status :
    Moment → Text → CenterStoreSnapshot → Result Refusal GatewayRuntimeStatus
unfolding get_gateway gateway_runtime_status
show_status at gateway_id s = elim (get_gateway at.loading gateway_id s) [
  | err e ↦ err (internal (text "failed to load gateway store: " ++ e))
  | ok none ↦ err (refused 404 (text "unknown gateway " ++ gateway_id))
  | ok (some stored) ↦
      if not (has_reported stored)
      then err (refused 404 (text "gateway " ++ (gateway_id ++ text " has not reported yet")))
      else ok (gateway_runtime_status at.now stored)
]

unfoldable pub admin_show_gateway_status :
    (List ℕ → List ℕ)
    → CenterConfig
    → Moment
    → Headers
    → (client_key gateway_id : Text) → Buckets × CenterStoreSnapshot
    → (Buckets × CenterStoreSnapshot) × Result Refusal GatewayRuntimeStatus
unfolding require_admin_bearer show_status
admin_show_gateway_status digest config at headers client_key gateway_id (m, s) =
    as_admin s (s, show_status at gateway_id s)
      (require_admin_bearer digest config at headers client_key m)

-- ===== src/Gateway/Overview.antt =====
-- crates/warp-gateway/src/api/overview.rs: the agents seen last. `from_rfc3339` and `seconds_until` of
-- `DateTime` are arguments; the histories, which are queried from a database, are left out.
pub mod Recent
use warp_insight.Prelude.{
  ℕ, ◌+◌, leb, max, Bool, true, false, not, Option, none, some, List, [], ◌∷◌, ◌++◌, map, length,
  take, if◌then◌else◌,
}
use warp_insight.Prelude.Text.{Text, text, text_eq}
use warp_insight.Prelude.Assoc.{Assoc}
use warp_insight.Prelude.Results.{Result, ok, err}
use warp_insight.Prelude.Sorting.{sort, text_le}
use warp_insight.Gateway.Store.{StoredAgentRegistration, AdminStoreSnapshot, Disk, load}
use warp_insight.Gateway.Settings.{Seconds, nonnegative, below_zero}

pub record DateTimes : Type 0 where
  pub from_rfc3339 : Text → Option ℕ
  pub seconds_until : ℕ → ℕ → Seconds

pub record RecentOnlineRegisteredAgent : Type 0 where
  pub agent_id : Text
  pub instance_id : Text
  pub version : Text
  pub registered_at : ℕ
  pub online_since : ℕ
  pub online_duration_seconds : Seconds
  pub memory_bytes : Option ℕ
  pub cpu_percent : Option ℕ
  pub admin_latency_ms : Option ℕ

abbrev or_now : ℕ → Option ℕ → ℕ
or_now now none = now
or_now now (some t) = t

abbrev pub max_recent : ℕ
max_recent = 6

unfoldable pub without_agent :
    Text → List RecentOnlineRegisteredAgent → List RecentOnlineRegisteredAgent
unfolding text_eq
without_agent agent_id [] = []
without_agent agent_id (existing ∷ agents) =
    let rest = without_agent agent_id agents in
    if text_eq existing.agent_id agent_id then rest else existing ∷ rest

-- The state of the runtime is the list.
unfoldable pub record_recent_online_agent :
    DateTimes
    → (now : ℕ) → (agent_id instance_id version requested_at : Text)
    → List RecentOnlineRegisteredAgent
    → List RecentOnlineRegisteredAgent
unfolding without_agent
record_recent_online_agent dates now agent_id instance_id version requested_at agents =
    let registered_at = or_now now (dates.from_rfc3339 requested_at) in
    let agent : RecentOnlineRegisteredAgent = record {
      agent_id = agent_id;
      instance_id = instance_id;
      version = version;
      registered_at = registered_at;
      online_since = now;
      online_duration_seconds = dates.seconds_until registered_at now;
      memory_bytes = none;
      cpu_percent = none;
      admin_latency_ms = none;
    } in
    take max_recent (agent ∷ without_agent agent_id agents)

abbrev within_window : Seconds → Bool
within_window (nonnegative n) = leb n 300
within_window (below_zero n) = false

abbrev seen_within : DateTimes → ℕ → Option ℕ → Bool
seen_within dates now none = false
seen_within dates now (some last_seen) = within_window (dates.seconds_until last_seen now)

unfoldable pub agent_is_online : DateTimes → Text → ℕ → Bool
agent_is_online dates last_seen_at now = seen_within dates now (dates.from_rfc3339 last_seen_at)

unfoldable pub recent_agent : DateTimes → ℕ → StoredAgentRegistration → RecentOnlineRegisteredAgent
recent_agent dates now agent =
    let registered_at = or_now now (dates.from_rfc3339 agent.registered_at) in
    let online_since = or_now now (dates.from_rfc3339 agent.last_seen_at) in
    record {
      agent_id = agent.agent_id;
      instance_id = agent.instance_id;
      version = agent.version;
      registered_at = registered_at;
      online_since = online_since;
      online_duration_seconds = dates.seconds_until registered_at online_since;
      memory_bytes = agent.last_memory_bytes;
      cpu_percent = agent.last_cpu_percent;
      admin_latency_ms = agent.last_admin_latency_ms;
    }

abbrev later_seen : StoredAgentRegistration → StoredAgentRegistration → Bool
later_seen left right = text_le right.last_seen_at left.last_seen_at

-- One reading of the clock stands for the dates that do not parse.
unfoldable pub recent_online_agents_from_store :
    DateTimes → ℕ → List StoredAgentRegistration → List RecentOnlineRegisteredAgent
unfolding sort recent_agent text_le
recent_online_agents_from_store dates now agents =
    map (recent_agent dates now) (sort later_seen agents)

unfoldable pub has_agent : Text → List RecentOnlineRegisteredAgent → Bool
unfolding text_eq
has_agent agent_id [] = false
has_agent agent_id (existing ∷ agents) =
    let rest = has_agent agent_id agents in
    if text_eq existing.agent_id agent_id then true else rest

unfoldable pub add_missing :
    (memory agents : List RecentOnlineRegisteredAgent) → List RecentOnlineRegisteredAgent
unfolding has_agent
add_missing [] agents = agents
add_missing (agent ∷ memory) agents =
    add_missing memory (if has_agent agent.agent_id agents then agents else agents ++ (agent ∷ []))

abbrev later_registered : RecentOnlineRegisteredAgent → RecentOnlineRegisteredAgent → Bool
later_registered left right = leb right.registered_at left.registered_at

pub record AgentOverview : Type 0 where
  pub total_agents : ℕ
  pub online_agents : ℕ
  pub last_seen_lag_seconds : Seconds
  pub recent_online_agents : List RecentOnlineRegisteredAgent

abbrev stored : Assoc StoredAgentRegistration → List StoredAgentRegistration
stored [] = []
stored ((id, agent) ∷ agents) = agent ∷ stored agents

unfoldable pub online_count : DateTimes → ℕ → List StoredAgentRegistration → ℕ
unfolding agent_is_online
online_count dates now [] = 0
online_count dates now (agent ∷ agents) =
    (if agent_is_online dates agent.last_seen_at now then 1 else 0) + online_count dates now agents

abbrev larger : Seconds → Seconds → Seconds
larger (nonnegative m) (nonnegative n) = nonnegative (max m n)
larger (nonnegative m) (below_zero n) = nonnegative m
larger (below_zero m) (nonnegative n) = nonnegative n
larger (below_zero m) (below_zero n) = if leb m n then below_zero m else below_zero n

abbrev larger_of : Option Seconds → Seconds → Option Seconds
larger_of none lag = some lag
larger_of (some other) lag = some (larger lag other)

abbrev lag_with : DateTimes → ℕ → Option ℕ → Option Seconds → Option Seconds
lag_with dates now none lag = lag
lag_with dates now (some last_seen) lag = larger_of lag (dates.seconds_until last_seen now)

unfoldable pub max_lag : DateTimes → ℕ → List StoredAgentRegistration → Option Seconds
max_lag dates now [] = none
max_lag dates now (agent ∷ agents) =
    lag_with dates now (dates.from_rfc3339 agent.last_seen_at) (max_lag dates now agents)

abbrev or_zero : Option Seconds → Seconds
or_zero none = nonnegative 0
or_zero (some lag) = lag

-- A store that cannot be read counts as empty.
abbrev agents_in : Result Text AdminStoreSnapshot → List StoredAgentRegistration
agents_in (ok snapshot) = stored snapshot.agents
agents_in (err e) = []

unfoldable pub agent_overview :
    DateTimes
    → ℕ
    → Disk
    → AdminStoreSnapshot
    → (memory : List RecentOnlineRegisteredAgent) → AgentOverview
unfolding load online_count max_lag recent_online_agents_from_store add_missing sort
agent_overview dates now disk s memory =
    let agents = agents_in (load disk s) in
    record {
      total_agents = length agents;
      online_agents = online_count dates now agents;
      last_seen_lag_seconds = or_zero (max_lag dates now agents);
      recent_online_agents = take max_recent (
          sort later_registered
            (add_missing memory (recent_online_agents_from_store dates now agents)));
    }

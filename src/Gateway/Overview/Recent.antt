-- ===== src/Gateway/Overview/Recent.antt =====
-- The list of the agents seen last.
use warp_insight.Prelude.{
  ℕ, zero, suc, ◌+◌, ◌≤◌, ◌≡◌, refl, List, [], ◌∷◌, ◌++◌, map, arith, length, take, length-take-le,
  if◌then◌else◌,
}
use warp_insight.Prelude.Text.{Text, text_eq, text_eq_iff}
use warp_insight.Gateway.Overview.{
  DateTimes, RecentOnlineRegisteredAgent, without_agent, record_recent_online_agent,
}

-- How often an agent is listed.
unfoldable pub entries : Text → List RecentOnlineRegisteredAgent → ℕ
entries agent_id [] = 0
entries agent_id (agent ∷ agents) =
    (if text_eq agent.agent_id agent_id then 1 else 0) + entries agent_id agents

entries-take :
    (agent_id : Text) (n : ℕ) (agents : List RecentOnlineRegisteredAgent)
    → entries agent_id (take n agents) ≤ entries agent_id agents
unfolding entries
entries-take agent_id zero agents = omega arith
entries-take agent_id (suc n) [] = omega arith
entries-take agent_id (suc n) (agent ∷ agents) = omega (arith, entries-take agent_id n agents)

entries-without_agent :
    (other agent_id : Text) (agents : List RecentOnlineRegisteredAgent)
    → (if text_eq agent_id other then 1 else 0) + entries other (without_agent agent_id agents)
      ≤ (if text_eq agent_id other then 1 else entries other agents)
unfolding entries without_agent
entries-without_agent other agent_id [] = ground arith
entries-without_agent other agent_id (agent ∷ agents) = ground (
  arith,
  text_eq_iff agent.agent_id agent_id,
  text_eq_iff agent.agent_id other,
  text_eq_iff agent_id other,
  entries-without_agent other agent_id agents,
)

-- After an agent was recorded, at most six are listed, and none is listed twice that was not before.
record_recent_online_agent-bounds :
    (dates : DateTimes) (now : ℕ) (agent_id instance_id version requested_at other : Text)
    (agents : List RecentOnlineRegisteredAgent)
    → entries other agents ≤ 1
    → (length
          (record_recent_online_agent dates now agent_id instance_id version requested_at agents)
        ≤ 6)
      × (entries other
            (record_recent_online_agent dates now agent_id instance_id version requested_at agents)
          ≤ 1)
unfolding record_recent_online_agent entries
record_recent_online_agent-bounds dates now agent_id instance_id version requested_at other agents
      h =
    (
      omega (arith, length-take-le 5 (without_agent agent_id agents)),
      ground (
        arith,
        h,
        entries-take other 5 (without_agent agent_id agents),
        entries-without_agent other agent_id agents,
      ),
    )

-- A registration that is recorded, with the reading of the clock.
pub record Recording : Type 0 where
  pub now : ℕ
  pub agent_id : Text
  pub instance_id : Text
  pub version : Text
  pub requested_at : Text

unfoldable pub record_all :
    DateTimes → List Recording → List RecentOnlineRegisteredAgent → List RecentOnlineRegisteredAgent
record_all dates [] agents = agents
record_all dates (r ∷ rs) agents = record_all dates rs (
    record_recent_online_agent dates r.now r.agent_id r.instance_id r.version r.requested_at agents)

record_all-entries :
    (dates : DateTimes) (other : Text) (rs : List Recording)
    (agents : List RecentOnlineRegisteredAgent)
    → length agents ≤ 6
    → entries other agents ≤ 1
    → (length (record_all dates rs agents) ≤ 6) × (entries other (record_all dates rs agents) ≤ 1)
unfolding record_all
record_all-entries dates other [] agents h k = (h, k)
record_all-entries dates other (r ∷ rs) agents h k =
    let step =
      record_recent_online_agent-bounds dates r.now r.agent_id r.instance_id r.version
        r.requested_at other agents k in
    record_all-entries dates other rs _ step.0 step.1

record_all-head :
    (dates : DateTimes) (rs : List Recording) (last : Recording)
    (agents : List RecentOnlineRegisteredAgent)
    → map (λ a. a.agent_id) (take 1 (record_all dates (rs ++ (last ∷ [])) agents))
      ≡ last.agent_id ∷ []
unfolding record_all record_recent_online_agent
record_all-head dates [] last agents = refl
record_all-head dates (r ∷ rs) last agents = record_all-head dates rs last _

-- Whatever agents are recorded and however often, from the start, the list has at most six entries,
-- no agent twice, and at its head the one recorded last.
pub record_all-bounds :
    (dates : DateTimes) (rs : List Recording) (last : Recording) (other : Text)
    → let agents = record_all dates (rs ++ (last ∷ [])) [] in
      (length agents ≤ 6)
      × (entries other agents ≤ 1)
      × (map (λ a. a.agent_id) (take 1 agents) ≡ last.agent_id ∷ [])
unfolding entries
record_all-bounds dates rs last other =
    let b = record_all-entries dates other (rs ++ (last ∷ [])) [] (omega arith) (omega arith) in
    (b.0, b.1, record_all-head dates rs last [])

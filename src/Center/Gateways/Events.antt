-- ===== src/Center/Gateways/Events.antt =====
-- The history of lifecycle events that the center keeps for each gateway.
use warp_insight.Prelude.{
  ℕ, ◌-◌, ◌≤◌, ◌≡◌, refl, Bool, true, false, Option, List, [], ◌∷◌, ◌++◌, length, arith, Bool-cases,
  inl, inr, length-drop,
}
use warp_insight.Prelude.Text.{Text}
use warp_insight.Prelude.Assoc.{get, get-insert, contains_key}
use warp_insight.Center.Store.{
  GatewayInstanceLifecycleState, LifecycleEvent, StoredAgent, GatewayCredentialSeed,
  CenterStoreSnapshot,
}
use warp_insight.Center.Gateways.{
  max_events, or_default, keep_last, record_lifecycle_event, seed, insert_gateway,
  consume_bootstrap_token, update_gateway_credential, upsert_agent_status, set_initializing,
  store_gateway_status,
}
use warp_insight.Center.Gateways.Lifecycle.{
  Call, seeds, inserts, consumes, sets_credential, upserts_agents, initializes, reports, records,
  apply, run,
}

abbrev pub events_of : Text → CenterStoreSnapshot → List LifecycleEvent
events_of g s = or_default (get g s.lifecycle_events)

length-keep_last : (events : List LifecycleEvent) → length (keep_last events) ≤ max_events
unfolding keep_last
length-keep_last events = ground (arith, length-drop (length events - max_events) events)

record-bound :
    (now : ℕ) (k : Text) (from : Option GatewayInstanceLifecycleState)
    (to : GatewayInstanceLifecycleState) (g : Text) (s : CenterStoreSnapshot)
    → length (events_of g s) ≤ max_events
    → length (events_of g (record_lifecycle_event now k from to s).0) ≤ max_events
unfolding record_lifecycle_event
record-bound now k from to g s h =
    let event : LifecycleEvent = record {
      gateway_id = k;
      from_state = from;
      to_state = to;
      at = now;
    } in
    let events = keep_last (or_default (get k s.lifecycle_events) ++ (event ∷ [])) in
    ground (
      arith,
      get-insert g k events s.lifecycle_events,
      length-keep_last (or_default (get k s.lifecycle_events) ++ (event ∷ [])),
    )

seed-events :
    (digest : List ℕ → List ℕ) (given : List GatewayCredentialSeed) (s : CenterStoreSnapshot)
    → (seed digest given s).0.lifecycle_events ≡ s.lifecycle_events
unfolding seed
seed-events digest [] s = refl
seed-events digest (first ∷ given) s =
    elim (Bool-cases (contains_key first.gateway_id s.gateways)) [
      | inl y ↦ rw y (seed-events digest given s)
      | inr n ↦ rw n (seed-events digest given _)
    ]

agents-events :
    (k : Text) (agents : List StoredAgent) (s : CenterStoreSnapshot)
    → (upsert_agent_status k agents s).0.lifecycle_events ≡ s.lifecycle_events
unfolding upsert_agent_status
agents-events k [] s = refl
agents-events k (agent ∷ agents) s = agents-events k agents _

apply-bound :
    (digest : List ℕ → List ℕ) (call : Call) (g : Text) (s : CenterStoreSnapshot)
    → length (events_of g s) ≤ max_events
    → length (events_of g (apply digest call s)) ≤ max_events
unfolding apply insert_gateway consume_bootstrap_token update_gateway_credential set_initializing
    store_gateway_status
apply-bound digest (seeds given) g s h = rw (seed-events digest given s) h
apply-bound digest (inserts now k token) g s h = ground arith
apply-bound digest (consumes k token) g s h = ground arith
apply-bound digest (sets_credential k hash expires_at) g s h = ground arith
apply-bound digest (upserts_agents k agents) g s h = rw (agents-events k agents s) h
apply-bound digest (initializes k) g s h = ground arith
apply-bound digest (reports now given) g s h = ground arith
apply-bound digest (records now k from to) g s h = record-bound now k from to g s h

-- Over the store updates of the operations on gateways, agents and lifecycle events, of which any
-- may fail to be written, a gateway with at most `max_events` events kept has at most that many
-- afterwards.
pub run-events_le :
    (digest : List ℕ → List ℕ) (calls : List (Call × Bool)) (g : Text) (s : CenterStoreSnapshot)
    → length (events_of g s) ≤ max_events
    → length (events_of g (run digest calls s)) ≤ max_events
unfolding run
run-events_le digest [] g s h = h
run-events_le digest ((call, true) ∷ calls) g s h =
    run-events_le digest calls g (apply digest call s) (apply-bound digest call g s h)
run-events_le digest ((call, false) ∷ calls) g s h = run-events_le digest calls g s h

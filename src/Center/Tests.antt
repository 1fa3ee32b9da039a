-- ===== src/Center/Tests.antt =====
-- Runs of the control center on concrete data. Here the digest is the identity.
use warp_insight.Prelude.{ℕ, ◌≤◌, ◌≡◌, refl, true, false, List, [], ◌∷◌, none, some, arith, length}
use warp_insight.Prelude.Text.{text, text_eq}
use warp_insight.Prelude.Assoc.{get}
use warp_insight.Snapshots.{works}
use warp_insight.Center.Store.{
  CenterStoreSnapshot, StoredGateway, EnrollmentTokenIssue, GatewayInstanceLifecycleState,
}
use warp_insight.Center.Tokens.Uses.{consumed, consumed-le-created, creates, revokes, consumes}
use warp_insight.Center.Gateways.{new_gateway, consume_bootstrap_token}
use warp_insight.Center.Gateways.Lifecycle.{
  Later, run, run-never_regresses, consume_bootstrap_token-once, initializes, inserts, records,
}
use warp_insight.Center.Gateways.Events.{events_of, run-events_le}

abbrev digest : List ℕ → List ℕ
digest bytes = bytes

abbrev issue : EnrollmentTokenIssue
issue = record { token = text "x"; issued_by = text "op"; control_center_trust_bundle = none }

abbrev no_store : CenterStoreSnapshot
no_store = record {
  gateways = [];
  agents = [];
  lifecycle_events = [];
  releases = [];
  upgrade_plans = [];
  customer_bindings = [];
  enrollment_tokens = [];
}

consumed-le-created_example :
    consumed digest
      ((creates 0 (text "g") issue, works)
        ∷ (consumes 1 (text "x"), works)
        ∷ (consumes 2 (text "x"), works)
        ∷ [])
      no_store
    ≤ 1
unfolding warp_insight.Center.Tokens.Uses.remaining warp_insight.Center.Tokens.Uses.created
consumed-le-created_example =
    consumed-le-created digest
      ((creates 0 (text "g") issue, works)
        ∷ (consumes 1 (text "x"), works)
        ∷ (consumes 2 (text "x"), works)
        ∷ [])
      no_store

abbrev fresh : StoredGateway
fresh = new_gateway digest 0 (text "g") (text "b")

abbrev store : CenterStoreSnapshot
store = record no_store { gateways = (text "g", fresh) ∷ [] }

run-never_regresses_example :
    (new : StoredGateway) × (get
        (text "g")
        (run digest
          ((initializes (text "g"), true) ∷ (inserts 1 (text "g") (text "c"), true) ∷ [])
          store).gateways
      ≡ some new)
    × Later fresh new
unfolding get text_eq
run-never_regresses_example =
    run-never_regresses digest
      ((initializes (text "g"), true) ∷ (inserts 1 (text "g") (text "c"), true) ∷ []) (text "g")
      fresh store refl

consume_bootstrap_token-once_example :
    (consume_bootstrap_token digest (text "g") (text "b") (
      run digest
        ((inserts 1 (text "g") (text "b"), true) ∷ [])
        (consume_bootstrap_token digest (text "g") (text "b") store).0)).1
    ≡ false
unfolding consume_bootstrap_token get text_eq new_gateway
consume_bootstrap_token-once_example =
    consume_bootstrap_token-once digest ((inserts 1 (text "g") (text "b"), true) ∷ []) (text "g")
      (text "b") (text "b") store refl

run-events_le_example :
    length (
      events_of (text "g") (
        run digest
          ((records 1 (text "g") none GatewayInstanceLifecycleState.provisioned, true) ∷ [])
          store))
    ≤ 100
unfolding get
run-events_le_example =
    run-events_le digest
      ((records 1 (text "g") none GatewayInstanceLifecycleState.provisioned, true) ∷ []) (text "g")
      store (omega arith)

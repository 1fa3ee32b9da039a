-- ===== src/Center/Gateways/Lifecycle.antt =====
-- How a gateway's record changes.
use warp_insight.Prelude.{
  ℕ, ◌≤◌, ◌≡◌, refl, sym, subst, Bool, true, false, Option, none, some, List, [], ◌∷◌,
  if◌then◌else◌, arith, Option-cases, Bool-cases, inl, inr, ◌⊎◌, not, ◌||◌,
}
use warp_insight.Prelude.Text.{Text, text, text_eq, text_eq_iff, is_empty}
use warp_insight.Prelude.Assoc.{get, get-insert, get-insert_self, contains_key}
use warp_insight.Secret.{sha256_hex}
use warp_insight.Center.Store.{
  GatewayInstanceLifecycleState, StoredGateway, StoredAgent, GatewayStatusUpdate,
  CenterStoreSnapshot, GatewayCredentialSeed, is_state, provisioned_gateway,
}
use warp_insight.Center.Gateways.{
  put_gateway, record_lifecycle_event, seed, insert_gateway, consume_bootstrap_token, new_gateway,
  update_gateway_credential, upsert_agent_status, set_initializing, report_gateway,
  store_gateway_status,
}

-- A failed gateway counts as one that is being initialized.
abbrev pub rank : Option GatewayInstanceLifecycleState → ℕ
rank none = 0
rank (some GatewayInstanceLifecycleState.provisioned) = 1
rank (some GatewayInstanceLifecycleState.initializing) = 2
rank (some GatewayInstanceLifecycleState.failed) = 2
rank (some GatewayInstanceLifecycleState.running) = 3

-- The closures of the store updates.
pub data Call : Type 0 where
  seeds : List GatewayCredentialSeed → Call
  inserts : ℕ → Text → Text → Call
  consumes : Text → Text → Call
  sets_credential : Text → Text → Option Text → Call
  upserts_agents : Text → List StoredAgent → Call
  initializes : Text → Call
  reports : ℕ → GatewayStatusUpdate → Call
  records : ℕ → Text → Option GatewayInstanceLifecycleState → GatewayInstanceLifecycleState → Call

unfoldable pub apply : (List ℕ → List ℕ) → Call → CenterStoreSnapshot → CenterStoreSnapshot
unfolding seed insert_gateway consume_bootstrap_token update_gateway_credential upsert_agent_status
    set_initializing store_gateway_status record_lifecycle_event
apply digest (seeds given) s = (seed digest given s).0
apply digest (inserts now gateway_id token) s = (insert_gateway digest now gateway_id token s).0
apply digest (consumes gateway_id token) s = (consume_bootstrap_token digest gateway_id token s).0
apply digest (sets_credential gateway_id hash expires_at) s =
    (update_gateway_credential gateway_id hash expires_at s).0
apply digest (upserts_agents gateway_id agents) s = (upsert_agent_status gateway_id agents s).0
apply digest (initializes gateway_id) s = (set_initializing gateway_id s).0
apply digest (reports now given) s = (store_gateway_status now given s).0
apply digest (records now gateway_id from to) s =
    (record_lifecycle_event now gateway_id from to s).0

-- `true` for an update whose result was written.
unfoldable pub run :
    (List ℕ → List ℕ) → List (Call × Bool) → CenterStoreSnapshot → CenterStoreSnapshot
unfolding apply
run digest [] s = s
run digest ((call, written) ∷ calls) s =
    run digest calls (if written then apply digest call s else s)

-- What no update takes back.
pub record Later (old new : StoredGateway) : Type 0 where
  pub no_regress : rank old.lifecycle_state ≤ rank new.lifecycle_state
  pub stays_spent :
      is_empty old.bootstrap_token_hash ≡ true → is_empty new.bootstrap_token_hash ≡ true

pub record Kept (g : Text) (old : StoredGateway) (s : CenterStoreSnapshot) : Type 0 where
  pub new : StoredGateway
  pub present : get g s.gateways ≡ some new
  pub later : Later old new

put_gateway-Kept :
    (g k : Text) (old t t' : StoredGateway) (s : CenterStoreSnapshot)
    → get k s.gateways ≡ some t
    → Later t t'
    → Kept g old s
    → Kept g old (put_gateway t' k s)
put_gateway-Kept g k old t t' s e l kept = elim (Bool-cases (text_eq k g)) [
  | inl y ↦
      let same : kept.new ≡ t = ground (arith, kept.present, text_eq_iff k g) in
      let l' : Later kept.new t' = subst (λ x. Later x t') (sym same) l in
      record {
        new = t';
        present = rw (get-insert g k t' s.gateways, y) refl;
        later = record {
          no_regress = omega (arith, kept.later.no_regress, l'.no_regress);
          stays_spent = λ h. l'.stays_spent (kept.later.stays_spent h);
        };
      }
  | inr n ↦ record {
    new = kept.new;
    present = rw (get-insert g k t' s.gateways, n) kept.present;
    later = kept.later;
  }
]

-- A key that is not there does not hold the gateway.
insert_new-Kept :
    (g k : Text) (old t' : StoredGateway) (s : CenterStoreSnapshot)
    → contains_key k s.gateways ≡ false
    → Kept g old s
    → Kept g old (put_gateway t' k s)
unfolding contains_key
insert_new-Kept g k old t' s absent kept = record {
  new = kept.new;
  present = rw (get-insert g k t' s.gateways) (ground (arith, kept.present, text_eq_iff k g));
  later = kept.later;
}

report-Later :
    (now : ℕ) (given : GatewayStatusUpdate) (t : StoredGateway)
    → Later t (report_gateway now given t)
unfolding report_gateway
report-Later now given t = record { no_regress = ground arith; stays_spent = ground arith }

seed-Kept :
    (digest : List ℕ → List ℕ) (given : List GatewayCredentialSeed) (g : Text) (old : StoredGateway)
    (s : CenterStoreSnapshot)
    → Kept g old s
    → Kept g old (seed digest given s).0
unfolding seed
seed-Kept digest [] g old s kept = kept
seed-Kept digest (first ∷ given) g old s kept =
    elim (Bool-cases (contains_key first.gateway_id s.gateways)) [
      | inl y ↦ rw y (seed-Kept digest given g old s kept)
      | inr n ↦ rw n (
          seed-Kept digest given g old _ (
            insert_new-Kept g first.gateway_id old
              (provisioned_gateway first.gateway_id (text "") (sha256_hex digest first.token)
                first.expires_at)
              s n kept))
    ]

agents-Kept :
    (gateway_id : Text) (agents : List StoredAgent) (g : Text) (old : StoredGateway)
    (s : CenterStoreSnapshot)
    → Kept g old s
    → Kept g old (upsert_agent_status gateway_id agents s).0
unfolding upsert_agent_status
agents-Kept gateway_id [] g old s kept = kept
agents-Kept gateway_id (agent ∷ agents) g old s kept =
    agents-Kept gateway_id agents g old _
      (record { new = kept.new; present = kept.present; later = kept.later })

-- A consumed token is gone; otherwise nothing changes.
consume-cases :
    (digest : List ℕ → List ℕ) (k token : Text) (s : CenterStoreSnapshot)
    → ((consume_bootstrap_token digest k token s).0 ≡ s)
      ⊎ ((t : StoredGateway) × (get k s.gateways ≡ some t)
          × ((consume_bootstrap_token digest k token s).0
              ≡ put_gateway (record t { bootstrap_token_hash = text "" }) k s))
unfolding consume_bootstrap_token
consume-cases digest k token s = elim (Option-cases (get k s.gateways)) [
  | inl e ↦ inl (rw (consume_bootstrap_token, e) refl)
  | inr (t, e) ↦
      elim (Bool-cases (
        is_empty t.bootstrap_token_hash
        || not (text_eq t.bootstrap_token_hash (sha256_hex digest token))
        || not (is_state GatewayInstanceLifecycleState.provisioned t.lifecycle_state))) [
          | inl y ↦ inl (ground arith)
          | inr n ↦ inr (t, e, ground arith)
        ]
]

apply-Kept :
    (digest : List ℕ → List ℕ) (call : Call) (g : Text) (old : StoredGateway)
    (s : CenterStoreSnapshot)
    → Kept g old s
    → Kept g old (apply digest call s)
unfolding apply insert_gateway consume_bootstrap_token update_gateway_credential set_initializing
    store_gateway_status record_lifecycle_event
apply-Kept digest (seeds given) g old s kept = seed-Kept digest given g old s kept
apply-Kept digest (inserts now k token) g old s kept =
    elim (Bool-cases (contains_key k s.gateways)) [
      | inl y ↦ rw (apply, insert_gateway, y) kept
      | inr n ↦
          rw (apply, insert_gateway, n)
            (insert_new-Kept g k old (new_gateway digest now k token) s n kept)
    ]
apply-Kept digest (consumes k token) g old s kept = elim (consume-cases digest k token s) [
  | inl e ↦ rw (apply, e) kept
  | inr (t, e, changed) ↦
      rw (apply, changed)
        (put_gateway-Kept g k old t _ s e
          (record { no_regress = omega arith; stays_spent = λ h. refl }) kept)
]
apply-Kept digest (sets_credential k hash expires_at) g old s kept =
    elim (Option-cases (get k s.gateways)) [
      | inl e ↦ rw (apply, update_gateway_credential, e) kept
      | inr (t, e) ↦
          rw (apply, update_gateway_credential, e)
            (put_gateway-Kept g k old t _ s e
              (record { no_regress = omega arith; stays_spent = λ h. h }) kept)
    ]
apply-Kept digest (upserts_agents gateway_id agents) g old s kept =
    agents-Kept gateway_id agents g old s kept
apply-Kept digest (initializes k) g old s kept = elim (Option-cases (get k s.gateways)) [
  | inl e ↦ rw (apply, set_initializing, e) kept
  | inr (t, e) ↦
      elim (Bool-cases (is_state GatewayInstanceLifecycleState.provisioned t.lifecycle_state)) [
        | inl y ↦
            rw (apply, set_initializing, e, y)
              (put_gateway-Kept g k old t _ s e
                (record { no_regress = ground arith; stays_spent = λ h. h }) kept)
        | inr n ↦ rw (apply, set_initializing, e, n) kept
      ]
]
apply-Kept digest (reports now given) g old s kept =
    elim (Option-cases (get given.gateway_id s.gateways)) [
      | inl e ↦ rw (apply, store_gateway_status, e) kept
      | inr (t, e) ↦
          rw (apply, store_gateway_status, e)
            (put_gateway-Kept g given.gateway_id old t _ s e (report-Later now given t) kept)
    ]
apply-Kept digest (records now k from to) g old s kept = record {
  new = kept.new;
  present = kept.present;
  later = kept.later;
}

consumed-spent :
    (digest : List ℕ → List ℕ) (g token : Text) (s : CenterStoreSnapshot)
    → (consume_bootstrap_token digest g token s).1 ≡ true
    → (t : StoredGateway) × (get g (consume_bootstrap_token digest g token s).0.gateways ≡ some t)
      × (is_empty t.bootstrap_token_hash ≡ true)
unfolding consume_bootstrap_token
consumed-spent digest g token s h = elim (Option-cases (get g s.gateways)) [
  | inl e ↦ absurd (ground arith)
  | inr (t, e) ↦
      let spent : StoredGateway = record t { bootstrap_token_hash = text "" } in
      (spent, ground (arith, get-insert_self g spent s.gateways), refl)
]

spent-refuses :
    (digest : List ℕ → List ℕ) (g token : Text) (t : StoredGateway) (s : CenterStoreSnapshot)
    → get g s.gateways ≡ some t
    → is_empty t.bootstrap_token_hash ≡ true
    → (consume_bootstrap_token digest g token s).1 ≡ false
unfolding consume_bootstrap_token
spent-refuses digest g token t s e h = ground arith

run-Kept :
    (digest : List ℕ → List ℕ) (calls : List (Call × Bool)) (g : Text) (old : StoredGateway)
    (s : CenterStoreSnapshot)
    → Kept g old s
    → Kept g old (run digest calls s)
unfolding run
run-Kept digest [] g old s kept = kept
run-Kept digest ((call, true) ∷ calls) g old s kept =
    run-Kept digest calls g old (apply digest call s) (apply-Kept digest call g old s kept)
run-Kept digest ((call, false) ∷ calls) g old s kept = run-Kept digest calls g old s kept

-- Over the store updates of the operations on gateways, agents and lifecycle events, of which any
-- may fail to be written: a gateway that is in the store stays there, its lifecycle state never
-- goes back (a failed gateway counting as one that is being initialized), and a bootstrap token
-- that is spent or was never given stays so.
pub run-never_regresses :
    (digest : List ℕ → List ℕ) (calls : List (Call × Bool)) (g : Text) (old : StoredGateway)
    (s : CenterStoreSnapshot)
    → get g s.gateways ≡ some old
    → (new : StoredGateway) × (get g (run digest calls s).gateways ≡ some new) × Later old new
run-never_regresses digest calls g old s e =
    let kept = run-Kept digest calls g old s (record {
      new = old;
      present = e;
      later = record { no_regress = omega arith; stays_spent = λ h. h };
    }) in
    (kept.new, kept.present, kept.later)

-- Once a gateway's bootstrap token was consumed, no bootstrap token is accepted for that gateway
-- any more, whatever updates of the operations on gateways, agents and lifecycle events follow, of
-- which any may fail to be written.
pub consume_bootstrap_token-once :
    (digest : List ℕ → List ℕ) (calls : List (Call × Bool)) (g token other : Text)
    (s : CenterStoreSnapshot)
    → (consume_bootstrap_token digest g token s).1 ≡ true
    → (consume_bootstrap_token digest g other
        (run digest calls (consume_bootstrap_token digest g token s).0)).1
      ≡ false
consume_bootstrap_token-once digest calls g token other s h =
    let (t, e, spent) = consumed-spent digest g token s h in
    let (new, present, later) =
      run-never_regresses digest calls g t (consume_bootstrap_token digest g token s).0 e in
    spent-refuses digest g other new _ present (later.stays_spent spent)

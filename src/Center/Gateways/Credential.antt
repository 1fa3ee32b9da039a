-- ===== src/Center/Gateways/Credential.antt =====
-- The credential in a gateway's record.
use warp_insight.Prelude.{
  ℕ, ◌≡◌, refl, true, Option, some, arith, Option-cases, Bool-cases, inl, inr,
}
use warp_insight.Prelude.Text.{Text}
use warp_insight.Prelude.Assoc.{get, get-insert_self}
use warp_insight.Prelude.Results.{ok}
use warp_insight.Snapshots.{Disk, works, load_fails, save_fails, sync_fails, update}
use warp_insight.Center.Store.{
  StoredGateway, StoredGatewayCredentialStatus, CenterStoreSnapshot, GatewayInstanceLifecycleState,
  is_state,
}
use warp_insight.Center.Gateways.{
  then_record, set_initializing, mark_gateway_initializing, record_lifecycle_event,
  update_gateway_credential,
}

-- The gateway's record holds this credential.
pub record Holds (hash expires_at gateway_id : Text) (s : CenterStoreSnapshot) : Type 0 where
  pub gateway : StoredGateway
  pub present : get gateway_id s.gateways ≡ some gateway
  pub hash_stored : gateway.credential_token_hash ≡ hash
  pub active : gateway.credential_status ≡ StoredGatewayCredentialStatus.active
  pub expiry_stored : gateway.credential_expires_at ≡ some expires_at

set_initializing-Holds :
    (hash expires_at gateway_id : Text) (s : CenterStoreSnapshot)
    → Holds hash expires_at gateway_id s
    → Holds hash expires_at gateway_id (set_initializing gateway_id s).0
unfolding set_initializing
set_initializing-Holds hash expires_at gateway_id s h =
    let marked : StoredGateway = record h.gateway {
      lifecycle_state = some GatewayInstanceLifecycleState.initializing;
    } in
    elim (Bool-cases
      (is_state GatewayInstanceLifecycleState.provisioned h.gateway.lifecycle_state)) [
        | inl y ↦
            rw (set_initializing, h.present, y)
              (record {
                gateway = marked;
                present = get-insert_self gateway_id marked s.gateways;
                hash_stored = h.hash_stored;
                active = h.active;
                expiry_stored = h.expiry_stored;
              })
        | inr n ↦ rw (set_initializing, h.present, n) h
      ]

record-Holds :
    (hash expires_at gateway_id : Text) (now : ℕ) (disk : Disk)
    (from : Option GatewayInstanceLifecycleState) (to : GatewayInstanceLifecycleState)
    (s : CenterStoreSnapshot)
    → Holds hash expires_at gateway_id s
    → Holds hash expires_at gateway_id (then_record disk now gateway_id from to tt s).0
unfolding record_lifecycle_event update
record-Holds hash expires_at gateway_id now disk from to s h =
    elim disk
      as (λ d. Holds hash expires_at gateway_id (then_record d now gateway_id from to tt s).0) [
        | works ↦ moved
        | load_fails e ↦ h
        | save_fails e ↦ h
        | sync_fails e ↦ moved
      ]
  where
    moved : Holds hash expires_at gateway_id (record_lifecycle_event now gateway_id from to s).0
    moved = record {
      gateway = h.gateway;
      present = h.present;
      hash_stored = h.hash_stored;
      active = h.active;
      expiry_stored = h.expiry_stored;
    }

-- Marking the gateway keeps its credential.
pub mark-Holds :
    (hash expires_at gateway_id : Text) (now : ℕ) (writing recording : Disk)
    (s : CenterStoreSnapshot)
    → Holds hash expires_at gateway_id s
    → Holds hash expires_at gateway_id
        (mark_gateway_initializing now writing recording gateway_id s).0
unfolding mark_gateway_initializing update
mark-Holds hash expires_at gateway_id now works recording s h =
    let first = set_initializing-Holds hash expires_at gateway_id s h in
    elim (Bool-cases (set_initializing gateway_id s).1) [
      | inl y ↦
          rw (mark_gateway_initializing, update, y)
            (record-Holds hash expires_at gateway_id now recording
              (some GatewayInstanceLifecycleState.provisioned)
              GatewayInstanceLifecycleState.initializing (set_initializing gateway_id s).0 first)
      | inr n ↦ rw (mark_gateway_initializing, update, n) first
    ]
mark-Holds hash expires_at gateway_id now (load_fails e) recording s h = h
mark-Holds hash expires_at gateway_id now (save_fails e) recording s h = h
mark-Holds hash expires_at gateway_id now (sync_fails e) recording s h =
    set_initializing-Holds hash expires_at gateway_id s h

-- A stored credential is held.
pub stores-Holds :
    (hash expires_at gateway_id : Text) (disk : Disk) (s : CenterStoreSnapshot)
    → (update disk (update_gateway_credential gateway_id hash (some expires_at)) s).1 ≡ ok true
    → Holds hash expires_at gateway_id
        (update disk (update_gateway_credential gateway_id hash (some expires_at)) s).0
unfolding update update_gateway_credential
stores-Holds hash expires_at gateway_id (load_fails e) s h = cc
stores-Holds hash expires_at gateway_id (save_fails e) s h = cc
stores-Holds hash expires_at gateway_id (sync_fails e) s h = cc
stores-Holds hash expires_at gateway_id works s h =
    elim (Option-cases (get gateway_id s.gateways)) [
      | inl e ↦ ground arith
      | inr (g, e) ↦
          let renewed : StoredGateway = record g {
            credential_token_hash = hash;
            credential_status = StoredGatewayCredentialStatus.active;
            credential_expires_at = some expires_at;
          } in
          rw (update_gateway_credential, e)
            (record {
              gateway = renewed;
              present = get-insert_self gateway_id renewed s.gateways;
              hash_stored = refl;
              active = refl;
              expiry_stored = refl;
            })
    ]

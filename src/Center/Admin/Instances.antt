-- ===== src/Center/Admin/Instances.antt =====
-- crates/wist-center/src/api/admin_ops.rs: gateways are created, listed, bound to customers and
-- given their configuration.
use warp_insight.Prelude.{ℕ, ◌||◌, Option, none, some, List, map, ◌++◌, if◌then◌else◌}
use warp_insight.Prelude.Text.{Text, text, trim, is_empty}
use warp_insight.Prelude.Results.{Result, ok, err}
use warp_insight.Secret.{Headers, new_secret_token, trimmed}
use warp_insight.Snapshots.{Disk}
use warp_insight.Gateway.RateLimit.{Buckets}
use warp_insight.Center.Config.{
  CenterConfig, without_end_slashes, control_center_tls_required, build_control_center_trust_bundle,
}
use warp_insight.Center.Store.{
  GatewayInstanceLifecycleState, StoredGateway, GatewayCustomerBindingRecord, CenterStoreSnapshot,
}
use warp_insight.Center.Gateways.{StoreError, conflict, failed, create_gateway}
use warp_insight.Center.Catalog.{list_gateways, bind_gateway_customer}
use warp_insight.Center.Access.{Refusal, refused, internal, Moment, require_admin_bearer}
use warp_insight.Center.Reports.{or_provisioned}
use warp_insight.Center.Provisioning.{GatewayInitialConfig, enrollment_token_id, lacks_trust_root}
use warp_insight.Center.Admin.{as_admin, or_internal, stored_or_internal}

pub record AdminCreateGatewayInstanceRequest : Type 0 where
  pub gateway_name : Text
  pub requested_by : Text
  pub token : Option Text

pub record GatewayInstallInfo : Type 0 where
  pub install_command : Text
  pub cloud_image : Text
  pub init_url : Text
  pub setup_token : Text
  pub trust_bundle_pem : Option Text
  pub init_curl : Text

-- The answer's instance, whose state and dates are fixed, by its two identifiers.
pub record AdminCreateGatewayInstanceReturned : Type 0 where
  pub gateway_id : Text
  pub instance_id : Text
  pub install : GatewayInstallInfo

unfoldable pub init_endpoint : CenterConfig → Text → Text
unfolding without_end_slashes
init_endpoint config gateway_id =
    without_end_slashes config.public_url
    ++ (text "/api/v1/gateway/initial-config?instance_id=" ++ gateway_id)

abbrev trust_mount : Option Text → Text
trust_mount none = text ""
trust_mount (some pem) = text " -v ./control-center.pem:/etc/warp-gateway/ca/control-center.pem:ro"

abbrev quote : Text
quote = text "\""

unfoldable pub install_info :
    CenterConfig → (gateway_id bootstrap_token : Text) → GatewayInstallInfo
unfolding init_endpoint
install_info config gateway_id bootstrap_token =
    let url = init_endpoint config gateway_id in
    record {
      install_command =
          text "docker run -d --name warp-gateway-"
          ++ (gateway_id
              ++ (text " -e WARP_GATEWAY_INIT_URL="
                  ++ (url
                      ++ (text " -e WARP_GATEWAY_BOOTSTRAP_TOKEN="
                          ++ (bootstrap_token
                              ++ (trust_mount config.ca_cert
                                  ++ (text " " ++ config.gateway_image)))))));
      cloud_image = config.gateway_image;
      init_url = url;
      setup_token = bootstrap_token;
      trust_bundle_pem = config.ca_cert;
      init_curl =
          text "curl -H \"Authorization: Bearer "
          ++ (bootstrap_token
              ++ (text "\" -H \"X-Gateway-Identity-Token: <gateway-identity>\" \""
                  ++ (url ++ quote)));
    }

-- The token of the request, if it is not blank, and a new one otherwise.
abbrev bootstrap_token : Option Text → Option (List ℕ) → Option Text
bootstrap_token none bytes = new_secret_token (text "boot") bytes
bootstrap_token (some given) bytes = some given

abbrev created :
    CenterConfig
    → (gateway_id token : Text) → CenterStoreSnapshot × Result StoreError StoredGateway
    → CenterStoreSnapshot × Result Refusal AdminCreateGatewayInstanceReturned
created config gateway_id token (s, ok stored) = (
  s,
  ok (record {
    gateway_id = stored.gateway_id;
    instance_id = stored.instance_id;
    install = install_info config stored.gateway_id token;
  }),
)
created config gateway_id token (s, err (conflict e)) =
    (s, err (refused 409 (text "gateway " ++ (gateway_id ++ text " already exists"))))
created config gateway_id token (s, err (failed e)) =
    (s, err (internal (text "failed to create gateway: " ++ e)))

-- The handler after the test of the token.
unfoldable pub create_instance :
    (List ℕ → List ℕ)
    → CenterConfig
    → (now later : ℕ) → (writing recording : Disk) → (bytes : Option (List ℕ))
    → AdminCreateGatewayInstanceRequest
    → CenterStoreSnapshot
    → CenterStoreSnapshot × Result Refusal AdminCreateGatewayInstanceReturned
unfolding trim is_empty new_secret_token create_gateway install_info
create_instance digest config now later writing recording bytes request s =
    let gateway_id = trim request.gateway_name in
    if is_empty gateway_id || is_empty (trim request.requested_by)
    then (s, err (refused 400 (text "gateway_name and requested_by must not be empty")))
    else elim (bootstrap_token (trimmed request.token) bytes) [
      | none ↦ (s, err (internal (text "failed to read system random source")))
      | some token ↦
          created config gateway_id token
            (create_gateway digest now later writing recording gateway_id token s)
    ]

unfoldable pub admin_create_gateway_instance :
    (List ℕ → List ℕ)
    → CenterConfig
    → Moment
    → (now later : ℕ) → (writing recording : Disk) → (bytes : Option (List ℕ)) → Headers
    → (client_key : Text) → AdminCreateGatewayInstanceRequest
    → Buckets × CenterStoreSnapshot
    → (Buckets × CenterStoreSnapshot) × Result Refusal AdminCreateGatewayInstanceReturned
unfolding require_admin_bearer create_instance
admin_create_gateway_instance digest config at now later writing recording bytes headers client_key
      request (m, s) =
    as_admin s (create_instance digest config now later writing recording bytes request s)
      (require_admin_bearer digest config at headers client_key m)

pub record AdminGatewayInstanceView : Type 0 where
  pub gateway_id : Text
  pub instance_id : Text
  pub lifecycle_state : GatewayInstanceLifecycleState
  pub created_at : ℕ
  pub initialized_at : Option ℕ
  pub init_url : Text

abbrev pub or_now : ℕ → Option ℕ → ℕ
or_now now none = now
or_now now (some at) = at

unfoldable pub instance_view : CenterConfig → ℕ → StoredGateway → AdminGatewayInstanceView
unfolding init_endpoint
instance_view config now gateway = record {
  gateway_id = gateway.gateway_id;
  instance_id = gateway.instance_id;
  lifecycle_state = or_provisioned gateway.lifecycle_state;
  created_at = or_now now gateway.created_at;
  initialized_at = gateway.initialized_at;
  init_url = init_endpoint config gateway.gateway_id;
}

abbrev pub mapped : {A B : Type 0} → (A → B) → Result Text (List A) → Result Text (List B)
mapped f (ok l) = ok (map f l)
mapped f (err e) = err e

-- One reading of the clock stands for the gateways without a date.
unfoldable pub admin_list_gateway_instances :
    (List ℕ → List ℕ)
    → CenterConfig
    → Moment
    → Headers
    → (client_key : Text) → Buckets × CenterStoreSnapshot
    → (Buckets × CenterStoreSnapshot) × Result Refusal (List AdminGatewayInstanceView)
unfolding require_admin_bearer list_gateways instance_view
admin_list_gateway_instances digest config at headers client_key (m, s) =
    as_admin s
      (
        s,
        or_internal (text "failed to load gateway instances: ")
            (mapped (instance_view config at.now) (list_gateways at.loading s)),
      )
      (require_admin_bearer digest config at headers client_key m)

pub record BindGatewayCustomerRequest : Type 0 where
  pub gateway_id : Text
  pub customer_id : Text
  pub requested_by : Text

unfoldable pub bind_customer :
    ℕ
    → Disk
    → BindGatewayCustomerRequest
    → CenterStoreSnapshot
    → CenterStoreSnapshot × Result Refusal GatewayCustomerBindingRecord
unfolding trim is_empty bind_gateway_customer
bind_customer now writing request s =
    if is_empty (trim request.gateway_id)
      || is_empty (trim request.customer_id)
      || is_empty (trim request.requested_by)
    then (s, err (refused 400 (text "gateway_id, customer_id and requested_by must not be empty")))
    else stored_or_internal (text "failed to bind gateway customer: ")
        (bind_gateway_customer now writing request.gateway_id request.customer_id s)

unfoldable pub admin_bind_gateway_customer :
    (List ℕ → List ℕ)
    → CenterConfig
    → Moment
    → (writing : Disk) → Headers
    → (client_key : Text) → BindGatewayCustomerRequest
    → Buckets × CenterStoreSnapshot
    → (Buckets × CenterStoreSnapshot) × Result Refusal GatewayCustomerBindingRecord
unfolding require_admin_bearer bind_customer
admin_bind_gateway_customer digest config at writing headers client_key request (m, s) =
    as_admin s (bind_customer at.now writing request s)
      (require_admin_bearer digest config at headers client_key m)

-- Here the endpoint is the public address as it is.
unfoldable pub initial_config :
    CenterConfig → Disk → Text → CenterStoreSnapshot → Result Refusal GatewayInitialConfig
unfolding lacks_trust_root enrollment_token_id build_control_center_trust_bundle
    control_center_tls_required
initial_config config loading instance_id s =
    if lacks_trust_root config instance_id
    then err
        (refused 503 (text "TLS is required but the control center trust root is not configured"))
    else ok (record {
      gateway_id = instance_id;
      control_center_endpoint = config.public_url;
      trust_bundle = build_control_center_trust_bundle config instance_id;
      server_tls_required = control_center_tls_required config;
      protocol_version = config.protocol_version;
      enrollment_token_id = enrollment_token_id loading instance_id s;
    })

unfoldable pub admin_get_gateway_initial_config :
    (List ℕ → List ℕ)
    → CenterConfig
    → Moment
    → Headers
    → (client_key instance_id : Text) → Buckets × CenterStoreSnapshot
    → (Buckets × CenterStoreSnapshot) × Result Refusal GatewayInitialConfig
unfolding require_admin_bearer initial_config
admin_get_gateway_initial_config digest config at headers client_key instance_id (m, s) =
    as_admin s (s, initial_config config at.loading instance_id s)
      (require_admin_bearer digest config at headers client_key m)

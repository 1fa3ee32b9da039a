-- ===== src/Center/Catalog/Bindings.antt =====
-- The customer of a gateway.
use warp_insight.Prelude.{
  ℕ, ◌≤◌, ◌≡◌, refl, false, List, [], ◌∷◌, arith, Bool-cases, inl, inr, if◌then◌else◌, length,
}
use warp_insight.Prelude.Text.{Text, text_eq, text_eq_iff, text_eq_refl}
use warp_insight.Prelude.Results.{ok}
use warp_insight.Snapshots.{works, load, update}
use warp_insight.Center.Store.{GatewayCustomerBindingRecord, CenterStoreSnapshot}
use warp_insight.Center.Catalog.{bind_in, bind_gateway_customer, list_customer_bindings}

-- The customers that a gateway is bound to.
unfoldable pub customers_of : Text → List GatewayCustomerBindingRecord → List Text
customers_of gateway_id [] = []
customers_of gateway_id (binding ∷ bindings) =
    let rest = customers_of gateway_id bindings in
    if text_eq binding.gateway_id gateway_id then binding.customer_id ∷ rest else rest

bind_in-same :
    (now : ℕ) (gateway_id customer_id : Text) (bindings : List GatewayCustomerBindingRecord)
    → length (customers_of gateway_id bindings) ≤ 1
    → customers_of gateway_id (bind_in now gateway_id customer_id bindings).0 ≡ customer_id ∷ []
unfolding bind_in customers_of
bind_in-same now gateway_id customer_id [] h = ground (arith, text_eq_refl gateway_id)
bind_in-same now gateway_id customer_id (b ∷ bindings) h =
    ground (arith, bind_in-same now gateway_id customer_id bindings)

bind_in-other :
    (now : ℕ) (gateway_id customer_id other : Text) (bindings : List GatewayCustomerBindingRecord)
    → text_eq gateway_id other ≡ false
    → customers_of other (bind_in now gateway_id customer_id bindings).0
      ≡ customers_of other bindings
unfolding bind_in customers_of
bind_in-other now gateway_id customer_id other [] h = ground arith
bind_in-other now gateway_id customer_id other (b ∷ bindings) h = ground (
  arith,
  text_eq_iff b.gateway_id gateway_id,
  text_eq_iff b.gateway_id other,
  text_eq_iff gateway_id other,
  bind_in-other now gateway_id customer_id other bindings,
)

-- When a gateway is bound to a customer, the bindings listed then give it this customer and no other,
-- and every other gateway the customers it had. Before, the gateway has one binding at most; the store
-- works.
pub bind_gateway_customer-lists :
    (now : ℕ) (gateway_id customer_id other : Text) (s : CenterStoreSnapshot)
    → length (customers_of gateway_id s.customer_bindings) ≤ 1
    → (listed : List GatewayCustomerBindingRecord) × (list_customer_bindings works
          (bind_gateway_customer now works gateway_id customer_id s).0
        ≡ ok listed)
      × (customers_of other listed ≡ (
          if text_eq gateway_id other
          then customer_id ∷ []
          else customers_of other s.customer_bindings))
unfolding bind_gateway_customer list_customer_bindings update load
bind_gateway_customer-lists now gateway_id customer_id other s h = (
  (bind_in now gateway_id customer_id s.customer_bindings).0,
  refl,
  elim (Bool-cases (text_eq gateway_id other)) [
    | inl y ↦
        rw (y, ← (text_eq_iff gateway_id other).0 y)
          (bind_in-same now gateway_id customer_id s.customer_bindings h)
    | inr n ↦ rw n (bind_in-other now gateway_id customer_id other s.customer_bindings n)
  ],
)

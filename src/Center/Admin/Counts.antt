-- ===== src/Center/Admin/Counts.antt =====
-- The numbers of the list of gateways.
use warp_insight.Prelude.{ℕ, ◌+◌, ◌≤◌, ◌≡◌, not, List, [], ◌∷◌, length, arith}
use warp_insight.Prelude.Text.{text}
use warp_insight.Center.Store.{StoredGateway}
use warp_insight.Center.Admin.Listings.{count_gateways, gateway_list_view, is_text, one_if}

count_gateways-adds_up :
    (online offline degraded : ℕ) (gateways : List StoredGateway)
    → ((count_gateways (online, offline, degraded) gateways).0
          + (count_gateways (online, offline, degraded) gateways).1
        ≡ online + offline + length gateways)
      × ((count_gateways (online, offline, degraded) gateways).2 ≤ degraded + length gateways)
unfolding count_gateways
count_gateways-adds_up online offline degraded [] = (omega arith, omega arith)
count_gateways-adds_up online offline degraded (g ∷ gateways) =
    let rest =
      count_gateways-adds_up (online + one_if (is_text (text "online") g.status))
        (offline + one_if (not (is_text (text "online") g.status)))
        (degraded + one_if (is_text (text "degraded") g.health)) gateways in
    (ground (arith, rest.0), ground (arith, rest.1))

-- In the view of the gateways, those online and those offline are all the gateways, and no more than
-- all are degraded.
gateway_list_view-adds_up :
    (now : ℕ) (gateways : List StoredGateway)
    → ((gateway_list_view now gateways).online_count
          + (gateway_list_view now gateways).offline_count
        ≡ (gateway_list_view now gateways).gateway_count)
      × ((gateway_list_view now gateways).degraded_count
          ≤ (gateway_list_view now gateways).gateway_count)
unfolding gateway_list_view
gateway_list_view-adds_up now gateways =
    let sums = count_gateways-adds_up 0 0 0 gateways in
    (omega (arith, sums.0), omega (arith, sums.1))

-- ===== src/Center/TimeSeries.antt =====
-- crates/wist-center/src/infra/vm.rs: the lines that are pushed to the time-series database, and the
-- merging of the series that it answers. An f64 is given by its bits, and printed by a function.
use warp_insight.Prelude.{ℕ, ◌/◌, ◌==◌, ltb, Option, none, some, List, [], ◌∷◌, ◌++◌, if◌then◌else◌}
use warp_insight.Prelude.Text.{Text, text, text_eq}
use warp_insight.Center.Store.{GatewayStatusUpdate, StoredAgent}
use warp_insight.Center.Tokens.{digits}

-- The three replacements in a row; the later ones find nothing that an earlier one has put there.
unfoldable pub escape_label : Text → Text
escape_label [] = []
escape_label (c ∷ value) =
    (if c == 92
      then 92 ∷ 92 ∷ []
      else if c == 34
      then 92 ∷ 34 ∷ []
      else if c == 10
      then 92 ∷ 110 ∷ []
      else c ∷ [])
    ++ escape_label value

abbrev number : ℕ → Text
number n = digits n n

abbrev up_of : Text → Text
up_of status = if text_eq status (text "online") then text "1" else text "0"

abbrev end_of_line : (value ts : Text) → Text
end_of_line value ts = text "} " ++ (value ++ (text " " ++ (ts ++ (10 ∷ []))))

abbrev quoted : (label value : Text) → Text
quoted label value = label ++ (text "=\"" ++ (value ++ text "\""))

abbrev line_if : Option ℕ → (ℕ → Text) → Text
line_if none line = []
line_if (some n) line = line n

unfoldable pub render_prometheus_lines : (ℕ → Text) → GatewayStatusUpdate → Text
unfolding escape_label digits text_eq
render_prometheus_lines print u =
    let ts = number (u.last_seen_at / 1_000_000) in
    let ids =
      quoted (text "gateway_id") (escape_label u.gateway_id)
      ++ (text "," ++ quoted (text "instance_id") (escape_label u.instance_id)) in
    (text "gateway_up{" ++ (ids ++ end_of_line (up_of u.status) ts))
    ++ ((text "gateway_info{"
          ++ (ids
              ++ (text ","
                  ++ (quoted (text "version") (escape_label u.version)
                      ++ end_of_line (text "1") ts))))
        ++ ((text "gateway_health{"
              ++ (ids
                  ++ (text ","
                      ++ (quoted (text "health") (escape_label u.health)
                          ++ end_of_line (text "1") ts))))
            ++ (line_if u.memory_bytes
                  (λ n. text "gateway_memory_bytes{" ++ (ids ++ end_of_line (number n) ts))
                ++ line_if u.cpu_percent
                    (λ n. text "gateway_cpu_percent{" ++ (ids ++ end_of_line (print n) ts)))))

unfoldable pub render_agent_lines : (ℕ → Text) → Text → StoredAgent → Text
unfolding escape_label digits text_eq
render_agent_lines print gateway_id agent =
    let ts = number (agent.last_seen_at / 1_000_000) in
    let ids =
      quoted (text "agent_id") (escape_label agent.agent_id)
      ++ (text "," ++ quoted (text "gateway_id") (escape_label gateway_id)) in
    (text "agent_up{" ++ (ids ++ end_of_line (up_of agent.status) ts))
    ++ ((text "agent_info{"
          ++ (ids
              ++ (text ","
                  ++ (quoted (text "version") (escape_label agent.version)
                      ++ end_of_line (text "1") ts))))
        ++ ((text "agent_health{"
              ++ (ids
                  ++ (text ","
                      ++ (quoted (text "health") (escape_label agent.health)
                          ++ end_of_line (text "1") ts))))
            ++ (line_if agent.memory_bytes
                  (λ n. text "agent_memory_bytes{" ++ (ids ++ end_of_line (number n) ts))
                ++ (line_if agent.cpu_percent
                      (λ n. text "agent_cpu_percent{" ++ (ids ++ end_of_line (print n) ts))
                    ++ line_if agent.admin_latency_ms (λ n.
                      text "agent_admin_latency_ms{" ++ (ids ++ end_of_line (number n) ts))))))

pub record GatewayMetricSample : Type 0 where
  pub at : ℕ
  pub online : Option ℕ
  pub memory_bytes : Option ℕ
  pub cpu_percent : Option ℕ

pub record AgentMetricSample : Type 0 where
  pub at : ℕ
  pub online : Option ℕ
  pub memory_bytes : Option ℕ
  pub cpu_percent : Option ℕ
  pub admin_latency_ms : Option ℕ

unfoldable pub empty_gateway_sample : ℕ → GatewayMetricSample
empty_gateway_sample at = record { at = at; online = none; memory_bytes = none; cpu_percent = none }

unfoldable pub empty_agent_sample : ℕ → AgentMetricSample
empty_agent_sample at = record {
  at = at;
  online = none;
  memory_bytes = none;
  cpu_percent = none;
  admin_latency_ms = none;
}

-- A BTreeMap by ascending keys: the entry of `at`, put there if it is missing, is changed.
unfoldable pub change_entry : {S : Type 0} → (ℕ → S) → (S → S) → ℕ → List (ℕ × S) → List (ℕ × S)
change_entry empty change at [] = (at, change (empty at)) ∷ []
change_entry empty change at ((key, sample) ∷ samples) =
    let rest = change_entry empty change at samples in
    if ltb at key
    then (at, change (empty at)) ∷ (key, sample) ∷ samples
    else if at == key
    then (key, change sample) ∷ samples
    else (key, sample) ∷ rest

-- The loop over one series.
unfoldable pub add_series :
    {S : Type 0} → (ℕ → S) → (ℕ → S → S) → List (ℕ × ℕ) → List (ℕ × S) → List (ℕ × S)
unfolding change_entry
add_series empty set [] samples = samples
add_series empty set ((at, value) ∷ series) samples =
    add_series empty set series (change_entry empty (set value) at samples)

abbrev pub into_values : {S : Type 0} → List (ℕ × S) → List S
into_values [] = []
into_values ((key, sample) ∷ samples) = sample ∷ into_values samples

unfoldable pub merge_gateway_history : (online memory cpu : List (ℕ × ℕ)) → List GatewayMetricSample
unfolding add_series empty_gateway_sample
merge_gateway_history online memory cpu =
    let a = add_series empty_gateway_sample (λ v s. record s { online = some v }) online [] in
    let b = add_series empty_gateway_sample (λ v s. record s { memory_bytes = some v }) memory a in
    into_values (add_series empty_gateway_sample (λ v s. record s { cpu_percent = some v }) cpu b)

unfoldable pub merge_agent_history :
    (online memory cpu latency : List (ℕ × ℕ)) → List AgentMetricSample
unfolding add_series empty_agent_sample
merge_agent_history online memory cpu latency =
    let a = add_series empty_agent_sample (λ v s. record s { online = some v }) online [] in
    let b = add_series empty_agent_sample (λ v s. record s { memory_bytes = some v }) memory a in
    let c = add_series empty_agent_sample (λ v s. record s { cpu_percent = some v }) cpu b in
    into_values
      (add_series empty_agent_sample (λ v s. record s { admin_latency_ms = some v }) latency c)

-- ===== src/Center/Seeds.antt =====
-- crates/wist-center/src/config.rs, `parse_gateway_credentials`: `gateway_id:token,…`.
use warp_insight.Prelude.{ℕ, ◌==◌, ◌||◌, Option, none, some, List, [], ◌∷◌, ◌++◌, if◌then◌else◌}
use warp_insight.Prelude.Text.{Text, text, trim, is_empty}
use warp_insight.Prelude.Results.{Result, ok, err, ◌>>=◌}
use warp_insight.Center.Store.{GatewayCredentialSeed}

abbrev with_first : ℕ → List Text → List Text
with_first c [] = (c ∷ []) ∷ []
with_first c (entry ∷ entries) = (c ∷ entry) ∷ entries

-- `split(',')`.
unfoldable pub split_entries : Text → List Text
split_entries [] = [] ∷ []
split_entries (c ∷ raw) =
    let rest = split_entries raw in if c == 44 then [] ∷ rest else with_first c rest

abbrev before : ℕ → Option (Text × Text) → Option (Text × Text)
before c none = none
before c (some (left, right)) = some (c ∷ left, right)

-- `split_once(':')`.
unfoldable pub split_once : Text → Option (Text × Text)
split_once [] = none
split_once (c ∷ entry) =
    let rest = split_once entry in if c == 58 then some ([], entry) else before c rest

abbrev quoted : (entry detail : Text) → Text
quoted entry detail =
    text "invalid gateway credential entry \"" ++ (entry ++ (text "\": " ++ detail))

-- An entry that is not empty; its text is quoted as it is.
unfoldable pub parse_entry : Text → Result Text GatewayCredentialSeed
unfolding split_once trim is_empty
parse_entry entry = elim (split_once entry) [
  | none ↦ err (quoted entry (text "expected gateway_id:token"))
  | some (left, right) ↦
      if is_empty (trim left) || is_empty (trim right)
      then err (quoted entry (text "gateway_id and token must not be empty"))
      else ok (record { gateway_id = trim left; token = trim right; expires_at = none })
]

unfoldable pub parse_entries : List Text → Result Text (List GatewayCredentialSeed)
unfolding parse_entry trim is_empty
parse_entries [] = ok []
parse_entries (entry ∷ entries) =
    let rest = parse_entries entries in
    if is_empty (trim entry)
    then rest
    else (do seed ← parse_entry (trim entry); seeds ← rest; ok (seed ∷ seeds))

unfoldable pub parse_gateway_credentials : Text → Result Text (List GatewayCredentialSeed)
unfolding split_entries parse_entries
parse_gateway_credentials raw = parse_entries (split_entries raw)

-- ===== src/Gateway/Identifiers.antt =====
-- crates/warp-gateway/src/api/enrollment.rs: the names an agent gets from what its host sends. The
-- texts are UTF-8, so that a byte from 128 to 191 continues a character.
use warp_insight.Prelude.{
  ℕ, ◌+◌, Bool, not, ◌&&◌, ◌||◌, Option, none, some, List, [], ◌∷◌, ltb, leb, ◌==◌, if◌then◌else◌,
  reverse,
}
use warp_insight.Prelude.Text.{Text, text, text_eq, is_empty, strip_prefix, trim}

unfoldable pub is_meaningful_identifier : Text → Bool
unfolding is_empty
is_meaningful_identifier value =
    not (is_empty value)
    && not (
        text_eq value (text "unknown")
        || (text_eq value (text "local-node") || text_eq value (text "agent-instance")))

unfoldable pub first_meaningful_identifier : List Text → Option Text
unfolding is_meaningful_identifier trim
first_meaningful_identifier [] = none
first_meaningful_identifier (value ∷ values) =
    if is_meaningful_identifier (trim value)
    then some (trim value)
    else first_meaningful_identifier values

unfoldable pub is_ascii_alphanumeric : ℕ → Bool
is_ascii_alphanumeric c =
    (leb 48 c && leb c 57) || ((leb 65 c && leb c 90) || (leb 97 c && leb c 122))

unfoldable pub to_ascii_lowercase : ℕ → ℕ
to_ascii_lowercase c = if leb 65 c && leb c 90 then c + 32 else c

unfoldable pub normalize : Text → Text
unfolding is_ascii_alphanumeric to_ascii_lowercase
normalize [] = []
normalize (c ∷ value) =
    if leb 128 c && ltb c 192
    then normalize value
    else (if is_ascii_alphanumeric c then to_ascii_lowercase c else 45) ∷ normalize value

unfoldable pub trim_start_dash : Text → Text
trim_start_dash [] = []
trim_start_dash (c ∷ value) = if c == 45 then trim_start_dash value else c ∷ value

unfoldable pub trim_dashes : Text → Text
unfolding trim_start_dash
trim_dashes value = reverse (trim_start_dash (reverse (trim_start_dash value)))

abbrev or_generated : Text → Text
or_generated [] = text "generated"
or_generated (c ∷ value) = c ∷ value

unfoldable pub stable_identifier : Text → Text
unfolding normalize trim_dashes
stable_identifier value = or_generated (trim_dashes (normalize value))

-- `summary.split(',')`, the text before a comma being kept reversed.
unfoldable pub split_commas : Text → Text → List Text
split_commas part [] = reverse part ∷ []
split_commas part (c ∷ summary) =
    if c == 44 then reverse part ∷ split_commas [] summary else split_commas (c ∷ part) summary

abbrev trimmed : Option Text → Option Text
trimmed none = none
trimmed (some value) = some (trim value)

-- The first part with the prefix counts, also when nothing follows it.
unfoldable pub find_version : List Text → Option Text
unfolding trim strip_prefix
find_version [] = none
find_version (part ∷ parts) = elim (trimmed (strip_prefix (text "version=") (trim part))) [
  | some value ↦ some value
  | none ↦ find_version parts
]

abbrev version_or : Text → Option Text → Text
version_or package_version none = package_version
version_or package_version (some value) = if is_empty value then package_version else value

-- The version of the gateway's own package, set by its build, is a parameter.
unfoldable pub agent_version_from_capability_summary : Text → Text → Text
unfolding split_commas find_version is_empty
agent_version_from_capability_summary package_version summary =
    version_or package_version (find_version (split_commas [] summary))

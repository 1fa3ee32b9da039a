-- ===== src/Gateway/Toml.antt =====
-- crates/warp-gateway/src/api/install.rs, `toml_escape`. Here a text is the codes of its characters.
use warp_insight.Prelude.{
  ℕ, ◌+◌, ◌-◌, ◌*◌, ◌/◌, ◌%◌, ◌<◌, ◌==◌, ◌≡◌, refl, ap, zero, suc, ltb, leb, Bool, true, false,
  Bool-cases, inl, inr, ◌&&◌, ◌||◌, Option, none, some, [], ◌∷◌, ◌++◌, arith, if◌then◌else◌,
}
use warp_insight.Prelude.Text.{Text}

-- `char::is_control`.
abbrev pub is_control : ℕ → Bool
is_control c = ltb c 32 || (leb 127 c && leb c 159)

abbrev hex_upper : ℕ → ℕ
hex_upper n = if ltb n 10 then 48 + n else 55 + n

-- `\u{:04X}`; a control character has no more than four digits.
unfoldable pub unicode_escape : ℕ → Text
unicode_escape c =
    92
    ∷ 117
    ∷ hex_upper (c / 4096 % 16)
    ∷ hex_upper (c / 256 % 16)
    ∷ hex_upper (c / 16 % 16)
    ∷ hex_upper (c % 16)
    ∷ []

unfoldable pub escape_char : ℕ → Text
unfolding unicode_escape
escape_char c =
    if c == 92
    then 92 ∷ 92 ∷ []
    else if c == 34
    then 92 ∷ 34 ∷ []
    else if c == 10
    then 92 ∷ 110 ∷ []
    else if c == 13
    then 92 ∷ 114 ∷ []
    else if c == 9
    then 92 ∷ 116 ∷ []
    else if is_control c
    then unicode_escape c
    else c ∷ []

unfoldable pub toml_escape : Text → Text
unfolding escape_char
toml_escape [] = []
toml_escape (c ∷ value) = escape_char c ++ toml_escape value

-- Where a reader of a basic string of TOML stands: outside an escape, after a backslash, or before so
-- many digits of a character's code.
pub data Reading : Type 0 where
  outside escaped : Reading
  digits_left : ℕ → ℕ → Reading

abbrev hex_value : ℕ → Option ℕ
hex_value c =
    if leb 48 c && leb c 57
    then some (c - 48)
    else if leb 65 c && leb c 70
    then some (c - 55)
    else none

abbrev and_then : ℕ → Option Text → Option Text
and_then c none = none
and_then c (some t) = some (c ∷ t)

-- The value of the characters between the quotes, as TOML 1.0 defines it for these escapes.
unfoldable pub basic_string : Reading → Text → Option Text
basic_string outside [] = some []
basic_string escaped [] = none
basic_string (digits_left n v) [] = none
basic_string outside (c ∷ t) =
    let plain = basic_string outside t in
    let after = basic_string escaped t in
    if c == 92
    then after
    else if c == 34 || (is_control c && (if c == 9 then false else true))
    then none
    else and_then c plain
basic_string escaped (c ∷ t) =
    let plain = basic_string outside t in
    let coded = basic_string (digits_left 3 0) t in
    if c == 92
    then and_then 92 plain
    else if c == 34
    then and_then 34 plain
    else if c == 110
    then and_then 10 plain
    else if c == 114
    then and_then 13 plain
    else if c == 116
    then and_then 9 plain
    else if c == 117
    then coded
    else none
basic_string (digits_left zero v) (c ∷ t) =
    let plain = basic_string outside t in
    elim (hex_value c) [ none ↦ none | some d ↦ and_then (v * 16 + d) plain ]
basic_string (digits_left (suc n) v) (c ∷ t) = elim (hex_value c) [
  | none ↦ none
  | some d ↦ basic_string (digits_left n (v * 16 + d)) t
]

hex_value-hex_upper : (n : ℕ) → n < 16 → hex_value (hex_upper n) ≡ some n
hex_value-hex_upper n h = ground arith

read_unicode :
    (c : ℕ) (t value : Text)
    → c < 65_536
    → basic_string outside t ≡ some value
    → basic_string outside (unicode_escape c ++ t) ≡ some (c ∷ value)
unfolding basic_string unicode_escape
read_unicode c t value h e =
    let code : (((0 * 16 + c / 4096 % 16) * 16 + c / 256 % 16) * 16 + c / 16 % 16) * 16 + c % 16
        ≡ c =
      omega arith in
    rw
      (
        hex_value-hex_upper (c / 4096 % 16) (omega arith),
        hex_value-hex_upper (c / 256 % 16) (omega arith),
        hex_value-hex_upper (c / 16 % 16) (omega arith),
        hex_value-hex_upper (c % 16) (omega arith),
        e,
      )
      (ap (λ n. some (n ∷ value)) code)

read_char :
    (c : ℕ) (t value : Text)
    → basic_string outside t ≡ some value
    → basic_string outside (escape_char c ++ t) ≡ some (c ∷ value)
unfolding basic_string escape_char
read_char c t value e = elim (Bool-cases (c == 92)) [
  | inl y ↦ rw (escape_char, y) (ground (arith, e, y))
  | inr a ↦ elim (Bool-cases (c == 34)) [
    | inl y ↦ rw (escape_char, a, y) (ground (arith, e, y))
    | inr b ↦ elim (Bool-cases (c == 10)) [
      | inl y ↦ rw (escape_char, a, b, y) (ground (arith, e, y))
      | inr d ↦ elim (Bool-cases (c == 13)) [
        | inl y ↦ rw (escape_char, a, b, d, y) (ground (arith, e, y))
        | inr f ↦ elim (Bool-cases (c == 9)) [
          | inl y ↦ rw (escape_char, a, b, d, f, y) (ground (arith, e, y))
          | inr g ↦ elim (Bool-cases (is_control c)) [
            | inl y ↦
                rw (escape_char, a, b, d, f, g, y) (read_unicode c t value (ground (arith, y)) e)
            | inr k ↦ rw (escape_char, a, b, d, f, g, k) (ground (arith, e, a, b, k))
          ]
        ]
      ]
    ]
  ]
]

-- Between the quotes of a basic string of TOML, an escaped text is read as the text.
pub basic_string-toml_escape :
    (value : Text) → basic_string outside (toml_escape value) ≡ some value
unfolding basic_string toml_escape
basic_string-toml_escape [] = refl
basic_string-toml_escape (c ∷ value) =
    read_char c (toml_escape value) value (basic_string-toml_escape value)

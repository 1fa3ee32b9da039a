-- ===== src/Secret.antt =====
-- crates/warp-gateway/src/infra/secret.rs and the two copies of `bearer_token` and
-- `constant_time_eq`. The digest is a parameter: it is the SHA-256 of the `ring` library.
use warp_insight.Prelude.{◌==◌, ltb, if◌then◌else◌, ==_iff, length}
use warp_insight.Prelude.Text.{Text, text, is_empty, strip_prefix, trim}
use warp_insight.Prelude.Bits.{bit_or-zero, bit_xor-zero, bit_xor_self}
use Prim.Native.Nat.{ℕ, ◌+◌, ◌/◌, ◌%◌, bit_or, bit_xor}
use mathlib.Core.Path.{◌≡◌, refl}
use mathlib.Core.Logic.{◌↔◌}
use mathlib.Core.Bool.{Bool, true}
use mathlib.Core.List.{List, [], ◌∷◌, ◌++◌}
use mathlib.Core.Option.{Option, none, some}
use native.Mathlib.Omega.{arith}

unfoldable pub hex_digit : ℕ → ℕ
hex_digit n = if ltb n 10 then b'0' + n else 87 + n

-- `{byte:02x}` of each byte.
unfoldable pub hex_lower : List ℕ → Text
unfolding hex_digit
hex_lower [] = []
hex_lower (byte ∷ bytes) = hex_digit (byte / 16) ∷ hex_digit (byte % 16) ∷ hex_lower bytes

-- `sha256_hex`, with the digest of a list of bytes for `ring`'s.
unfoldable pub sha256_hex : (List ℕ → List ℕ) → Text → Text
unfolding hex_lower
sha256_hex digest value = hex_lower (digest value)

-- The loop of `constant_time_eq` over the indices, where a missing byte is 0.
unfoldable pub fold_diff : ℕ → List ℕ → List ℕ → ℕ
fold_diff diff [] [] = diff
fold_diff diff [] (r ∷ right) = fold_diff (bit_or diff (bit_xor 0 r)) [] right
fold_diff diff (l ∷ left) [] = fold_diff (bit_or diff (bit_xor l 0)) left []
fold_diff diff (l ∷ left) (r ∷ right) = fold_diff (bit_or diff (bit_xor l r)) left right

unfoldable pub constant_time_eq : List ℕ → List ℕ → Bool
unfolding fold_diff
constant_time_eq left right = fold_diff (bit_xor (length left) (length right)) left right == 0

fold_diff-zero :
    (diff : ℕ) (left right : List ℕ)
    → fold_diff diff left right ≡ 0
    → length left ≡ length right
    → (diff ≡ 0) × (left ≡ right)
unfolding fold_diff
fold_diff-zero diff [] [] e h = (e, refl)
fold_diff-zero diff [] (r ∷ right) e h = absurd (omega arith)
fold_diff-zero diff (l ∷ left) [] e h = absurd (omega arith)
fold_diff-zero diff (l ∷ left) (r ∷ right) e h = ground (
  arith,
  fold_diff-zero (bit_or diff (bit_xor l r)) left right,
  bit_or-zero diff (bit_xor l r),
  bit_xor-zero l r,
)

fold_diff_start : (diff : ℕ) (left right : List ℕ) → fold_diff diff left right ≡ 0 → diff ≡ 0
unfolding fold_diff
fold_diff_start diff [] [] e = e
fold_diff_start diff [] (r ∷ right) e =
    (bit_or-zero diff (bit_xor 0 r) (fold_diff_start (bit_or diff (bit_xor 0 r)) [] right e)).0
fold_diff_start diff (l ∷ left) [] e =
    (bit_or-zero diff (bit_xor l 0) (fold_diff_start (bit_or diff (bit_xor l 0)) left [] e)).0
fold_diff_start diff (l ∷ left) (r ∷ right) e =
    (bit_or-zero diff (bit_xor l r) (fold_diff_start (bit_or diff (bit_xor l r)) left right e)).0

fold_diff_self : (left : List ℕ) → fold_diff 0 left left ≡ 0
unfolding fold_diff
fold_diff_self [] = refl
fold_diff_self (l ∷ left) = rw (bit_xor_self l) (fold_diff_self left)

-- The comparison without early exit accepts equal bytes and no others.
pub constant_time_eq_iff :
    (left right : List ℕ) → (constant_time_eq left right ≡ true) ↔ (left ≡ right)
unfolding constant_time_eq
constant_time_eq_iff left right = (sound, complete)
  where
    sound : (fold_diff (bit_xor (length left) (length right)) left right == 0) ≡ true → left ≡ right
    sound h =
        (fold_diff-zero _ left right zero_diff
          (bit_xor-zero _ _ (fold_diff_start _ left right zero_diff))).1
      where
        zero_diff : fold_diff (bit_xor (length left) (length right)) left right ≡ 0
        zero_diff = (==_iff _ 0).0 h

    complete :
        left ≡ right → (fold_diff (bit_xor (length left) (length right)) left right == 0) ≡ true
    complete e = rw (← e, bit_xor_self (length left), fold_diff_self left) refl

-- The `Authorization` header, where it is there and in visible ASCII.
pub record Headers : Type 0 where
  pub authorization : Option Text
  pub identity_token : Option Text  -- X-Gateway-Identity-Token

abbrev pub nonempty : Text → Option Text
nonempty t = if is_empty t then none else some t

abbrev pub trimmed : Option Text → Option Text
trimmed none = none
trimmed (some t) = nonempty (trim t)

abbrev without_prefix : Option Text → Option Text
without_prefix none = none
without_prefix (some t) = trimmed (strip_prefix (text "Bearer ") t)

unfoldable pub bearer_token : Headers → Option Text
unfolding is_empty strip_prefix trim
bearer_token headers = without_prefix headers.authorization

-- `new_secret_token` of the bytes that the system's random source gave, if it did.
unfoldable pub new_secret_token : Text → Option (List ℕ) → Option Text
unfolding hex_lower
new_secret_token prefix none = none
new_secret_token prefix (some bytes) = some (prefix ++ (text "_" ++ hex_lower bytes))

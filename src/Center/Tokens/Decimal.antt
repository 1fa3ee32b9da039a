-- ===== src/Center/Tokens/Decimal.antt =====
-- The numbers in the names of tokens, plans and dispatches.
use warp_insight.Prelude.{
  ℕ, ◌+◌, ◌-◌, ◌*◌, ◌/◌, ◌%◌, ◌≤◌, ◌≡◌, ◌∙◌, refl, zero, suc, [], ◌∷◌, ◌++◌, arith, Bool-cases, inl,
  inr, ltb,
}
use warp_insight.Prelude.Text.{Text}
use warp_insight.Center.Tokens.{digits}

-- The number that the digits write, after those that were read.
unfoldable pub value_from : ℕ → Text → ℕ
value_from read [] = read
value_from read (c ∷ t) = value_from (read * 10 + (c - 48)) t

value_from-append :
    (read c : ℕ) (t : Text) → value_from read (t ++ (c ∷ [])) ≡ value_from read t * 10 + (c - 48)
unfolding value_from
value_from-append read c [] = refl
value_from-append read c (d ∷ t) = value_from-append (read * 10 + (d - 48)) c t

-- The digits that are written of a number read as the number.
pub value-digits : (fuel n : ℕ) → n ≤ fuel → value_from 0 (digits fuel n) ≡ n
unfolding digits value_from
value-digits zero n h = omega arith
value-digits (suc fuel) n h = elim (Bool-cases (ltb n 10)) [
  | inl y ↦ rw (digits, y) (omega arith)
  | inr x ↦
      rw (digits, x)
        (value_from-append 0 (48 + n % 10) (digits fuel (n / 10))
          ∙ ground (arith, value-digits fuel (n / 10)))
]

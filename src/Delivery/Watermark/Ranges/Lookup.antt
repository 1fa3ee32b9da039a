-- ===== src/Delivery/Watermark/Ranges/Lookup.antt =====
-- Looking a number up among the dropped ranges of watermark.rs.
use warp_insight.Prelude.{
  ℕ, ◌+◌, ◌≤◌, ◌<◌, ◌≡◌, ◌⊎◌, inl, inr, refl, Bool-cases, Option-cases, leb→le, false, ◌&&◌, ◌||◌,
  [], ◌∷◌, none, some, leb, arith,
}
use warp_insight.Delivery.Watermark.Ranges.{
  RangeMap, last_entry_le, holding_entry, remove_entry, is_in_dropped_range, covered, Spaced,
  Spaced-mono, covered_below, remove_entry_head, remove_entry-cons,
}

last_entry_le_below :
    (n low high : ℕ) (m : RangeMap) → Spaced low high m → n < low → last_entry_le n m ≡ none
unfolding last_entry_le
last_entry_le_below n low high [] v h = refl
last_entry_le_below n low high ((s, e) ∷ m) v h = ground arith

-- The lookup in the last entry at or before `n` finds a range that holds `n` if any entry does.
pub is_in_dropped_range-eq-covered :
    (n low high : ℕ) (m : RangeMap) → Spaced low high m → is_in_dropped_range n m ≡ covered n m
unfolding is_in_dropped_range covered
is_in_dropped_range-eq-covered n low high [] v = refl
is_in_dropped_range-eq-covered n low high ((s, e) ∷ m) v = ground (
  arith,
  is_in_dropped_range-eq-covered n (e + 2) high m v.3,
  last_entry_le_below n (e + 2) high m v.3,
  covered_below n (e + 2) high m v.3,
)

last_entry_le_bounds :
    (x low high : ℕ) (m : RangeMap) {r : ℕ × ℕ}
    → Spaced low high m
    → last_entry_le x m ≡ some r
    → (low ≤ r.0) × (r.0 ≤ x)
unfolding last_entry_le
last_entry_le_bounds x low high [] v h = cc
last_entry_le_bounds x low high ((s, e) ∷ m) v h = elim (Option-cases (last_entry_le x m)) [
  | inl q ↦ ground arith
  | inr (r', q) ↦ ground (arith, last_entry_le_bounds x (e + 2) high m {r = r'} v.3 q)
]

abbrev pub Holds : ℕ → ℕ → ℕ → RangeMap → ℕ → ℕ → Type 0
Holds low high x m s e =
    (low ≤ s)
    × (s ≤ x)
    × (x ≤ e)
    × (e ≤ high)
    × Spaced low high (remove_entry s m)
    × ((n : ℕ) → covered n m ≡ (covered n (remove_entry s m) || (leb s n && leb n e)))
    × (covered (e + 1) m ≡ false)

-- Either no range holds `x`, or the one that does is found, and taking it out takes out just its
-- numbers.
pub holding_entry_cases :
    (x low high : ℕ) (m : RangeMap)
    → Spaced low high m
    → ((holding_entry x m ≡ none) × (covered x m ≡ false))
      ⊎ ((s : ℕ) × (e : ℕ) × (holding_entry x m ≡ some (s, e)) × Holds low high x m s e)
unfolding holding_entry covered
holding_entry_cases x low high [] v = inl (refl, refl)
holding_entry_cases x low high ((s, e) ∷ m) v = elim (Bool-cases (leb s x)) [
  | inr past ↦ inl (ground arith, ground (arith, covered_below x (e + 2) high m v.3))
  | inl at ↦ elim (holding_entry_cases x (e + 2) high m v.3) [
    | inr (s', e', found, w) ↦ inr (
      s',
      e',
      ground arith,
      (
        omega arith,
        w.1,
        w.2,
        w.3,
        rw (remove_entry-cons s e s' m (omega arith)) (v.0, v.1, v.2, w.4),
        λ n. rw (remove_entry-cons s e s' m (omega arith)) (ground (arith, w.5 n)),
        ground (arith, w.6),
      ),
    )
    | inl (miss, free) ↦ elim (Option-cases (last_entry_le x m)) [
      | inr (r, q) ↦
          inl (ground arith, ground (arith, last_entry_le_bounds x (e + 2) high m {r = r} v.3 q))
      | inl q ↦ elim (Bool-cases (leb x e)) [
        | inl in_it ↦ inr (
          s,
          e,
          ground arith,
          (
            v.0,
            leb→le _ _ at,
            leb→le _ _ in_it,
            v.2,
            rw (remove_entry_head s e m)
                (Spaced-mono (e + 2) low high high m (omega arith) (omega arith) v.3),
            λ n. rw (remove_entry_head s e m) (ground arith),
            ground (arith, covered_below (e + 1) (e + 2) high m v.3),
          ),
        )
        | inr beyond ↦ inl (ground arith, ground arith)
      ]
    ]
  ]
]

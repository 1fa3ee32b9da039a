-- ===== src/Delivery/Watermark/Ranges/Merge.antt =====
-- Merging a range into the dropped ranges of watermark.rs.
use warp_insight.Prelude.{
  ℕ, ◌+◌, ◌≤◌, ◌<◌, ◌≡◌, ◌⊎◌, inl, inr, refl, Bool-cases, ◌&&◌, ◌||◌, List, [], ◌∷◌, leb, min, max,
  arith,
}
use warp_insight.Prelude.Words.{saturating_add-eq, u64_max}
use warp_insight.Delivery.Watermark.Ranges.{
  RangeMap, remove_entry, insert_entry, remove_entries, collect_overlapped, insert_dropped_range,
  covered, Spaced, Spaced-mono, remove_entry_head, insert_entry-cons,
}

abbrev AllFrom : ℕ → List ℕ → Type 0
AllFrom low [] = Unit {0}
AllFrom low (k ∷ ks) = (low ≤ k) × AllFrom low ks

AllFrom-mono : (low low' : ℕ) (ks : List ℕ) → low' ≤ low → AllFrom low ks → AllFrom low' ks
AllFrom-mono low low' [] h v = tt
AllFrom-mono low low' (k ∷ ks) h v = (omega arith, AllFrom-mono low low' ks h v.1)

remove_entries-cons :
    (s e low : ℕ) (ks : List ℕ) (m : RangeMap)
    → AllFrom low ks
    → s < low
    → remove_entries ks ((s, e) ∷ m) ≡ (s, e) ∷ remove_entries ks m
unfolding remove_entries remove_entry
remove_entries-cons s e low [] m v h = refl
remove_entries-cons s e low (k ∷ ks) m v h =
    ground (arith, remove_entries-cons s e low ks (remove_entry k m) v.1 h)

-- What the walk over the entries leaves: the keys that go lie in `m`, the merged range begins no
-- earlier than it or `s`, and putting it in place of those keys holds what `m` and `s..=e` hold.
abbrev Merges : ℕ → ℕ → ℕ → ℕ → RangeMap → List ℕ × ℕ × ℕ → Type 0
Merges low high s e m (keys, s', e') =
    AllFrom low keys
    × (min low s ≤ s')
    × Spaced (min low s) high (insert_entry s' e' (remove_entries keys m))
    × ((n : ℕ)
        → covered n (insert_entry s' e' (remove_entries keys m))
          ≡ (covered n m || (leb s n && leb n e)))

-- Either no entry has widened the range yet, or the next entries lie beyond it.
abbrev Ahead : ℕ → ℕ → ℕ → Type 0
Ahead bound e low = (bound ≡ e + 1) ⊎ ((bound ≤ e + 1) × (e + 2 ≤ low))

nil-Merges : (high s e low : ℕ) → s ≤ e → e ≤ high → Merges low high s e [] ([], s, e)
unfolding insert_entry remove_entries covered
nil-Merges high s e low h k = (tt, omega arith, (omega arith, h, k, tt), λ n. ground arith)

Ahead-widen :
    (bound e low rs re : ℕ)
    → Ahead bound e low
    → rs ≤ bound
    → low ≤ rs
    → Ahead bound (max e re) (re + 2)
Ahead-widen bound e low rs re a p q = elim (Bool-cases (leb re e)) [
  | inl r ↦ inl (ground arith)
  | inr r ↦ inr (ground arith)
]

module _ (high s e low rs re : ℕ) (m : RangeMap) (v : Spaced low high ((rs, re) ∷ m)) where
  stop-Merges : s ≤ e → e ≤ high → e + 2 ≤ rs → Merges low high s e ((rs, re) ∷ m) ([], s, e)
  unfolding remove_entries insert_entry covered
  stop-Merges h k far = (tt, omega arith, ground arith, λ n. ground arith)

  pass-Merges :
      (c : List ℕ × ℕ × ℕ)
      → re + 2 ≤ s
      → Merges (re + 2) high s e m c
      → Merges low high s e ((rs, re) ∷ m) c
  unfolding covered
  pass-Merges c near w =
      rw
        (
          remove_entries-cons rs re (re + 2) c.0 m w.0 (omega arith),
          insert_entry-cons rs re c.1 c.2 (remove_entries c.0 m) (omega arith),
        )
        (
          AllFrom-mono (re + 2) low c.0 (omega arith) w.0,
          omega arith,
          (
            omega arith,
            v.1,
            v.2,
            Spaced-mono (min (re + 2) s) (re + 2) high high _ (omega arith) (omega arith) w.2,
          ),
          λ n. ground (arith, w.3 n),
        )

  merge-Merges :
      (c : List ℕ × ℕ × ℕ)
      → rs ≤ e + 1
      → s ≤ re + 1
      → s ≤ e
      → Merges (re + 2) high (min s rs) (max e re) m c
      → Merges low high s e ((rs, re) ∷ m) (rs ∷ c.0, c.1, c.2)
  unfolding remove_entries covered
  merge-Merges c p q h w = rw (remove_entry_head rs re m) (
    (omega arith, AllFrom-mono (re + 2) low c.0 (omega arith) w.0),
    omega arith,
    Spaced-mono (min (re + 2) (min s rs)) (min low s) high high _ (omega arith) (omega arith) w.2,
    λ n. ground (arith, w.3 n),
  )

module _ (bound high : ℕ) (high_lt : high < u64_max) where
  collect_overlapped-Merges :
      (s e low : ℕ) (m : RangeMap)
      → Spaced low high m
      → s ≤ e
      → e ≤ high
      → Ahead bound e low
      → Merges low high s e m (collect_overlapped bound s e m)
  unfolding collect_overlapped
  collect_overlapped-Merges s e low [] v h k a = nil-Merges high s e low h k
  collect_overlapped-Merges s e low ((rs, re) ∷ m) v h k a = elim (Bool-cases (leb rs bound)) [
    | inr far ↦ rw far (stop-Merges high s e low rs re m v h k (ground arith))
    | inl near ↦ elim (Bool-cases (leb s (re + 1))) [
      | inr apart ↦
          rw (near, saturating_add-eq re 1 (omega arith), apart)
            (pass-Merges high s e low rs re m v _ (ground arith)
              (collect_overlapped-Merges s e (re + 2) m v.3 h k (inl (ground arith))))
      | inl touch ↦
          rw (near, saturating_add-eq re 1 (omega arith), touch)
            (merge-Merges high s e low rs re m v _ (ground arith) (ground arith) h (
              collect_overlapped-Merges (min s rs) (max e re) (re + 2) m v.3 (omega arith)
                (omega arith) (Ahead-widen bound e low rs re a (ground arith) v.0)))
    ]
  ]

-- Merging a range in keeps the ranges apart, and holds what was held and the range, nothing else.
pub insert_dropped_range_lem :
    (start stop high : ℕ) (m : RangeMap)
    → high < u64_max
    → Spaced 0 high m
    → start ≤ stop
    → stop ≤ high
    → Spaced 0 high (insert_dropped_range start stop m)
      × ((n : ℕ)
          → covered n (insert_dropped_range start stop m)
            ≡ (covered n m || (leb start n && leb n stop)))
unfolding insert_dropped_range
insert_dropped_range_lem start stop high m lt v h k =
    rw (saturating_add-eq stop 1 (omega arith))
      (Spaced-mono (min 0 start) 0 high high _ (omega arith) (omega arith) w.2, w.3)
  where
    w : Merges 0 high start stop m (collect_overlapped (stop + 1) start stop m)
    w = collect_overlapped-Merges (stop + 1) high lt start stop 0 m v h k (inl refl)

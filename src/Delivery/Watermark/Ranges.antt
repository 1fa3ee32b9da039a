-- ===== src/Delivery/Watermark/Ranges.antt =====
-- The `BTreeMap<u64, u64>` of out-of-band dropped ranges of watermark.rs.
pub mod Lookup
pub mod Merge
use warp_insight.Prelude.{
  ℕ, ◌+◌, ◌≤◌, ◌<◌, ◌≡◌, ◌⊎◌, inl, inr, refl, Bool-cases, Option-cases, leb→le, Bool, false, ◌&&◌,
  ◌||◌, List, [], ◌∷◌, Option, none, some, ltb, leb, ◌==◌, if◌then◌else◌, min, max, arith,
}
use warp_insight.Prelude.Words.{saturating_add, saturating_add-eq, u64_max}

-- `start -> end`, both ends included, by ascending start.
abbrev pub RangeMap : Type 0
RangeMap = List (ℕ × ℕ)

abbrev or_entry : ℕ × ℕ → Option (ℕ × ℕ) → ℕ × ℕ
or_entry d none = d
or_entry d (some r) = r

-- `range(..=x).next_back()`.
unfoldable pub last_entry_le : ℕ → RangeMap → Option (ℕ × ℕ)
last_entry_le x [] = none
last_entry_le x ((s, e) ∷ m) = if leb s x then some (or_entry (s, e) (last_entry_le x m)) else none

-- The `if let` of `settle`: the last entry at or before `x`, if its range reaches `x`.
unfoldable pub holding_entry : ℕ → RangeMap → Option (ℕ × ℕ)
unfolding last_entry_le
holding_entry x m = elim (last_entry_le x m) [
  | none ↦ none
  | some (s, e) ↦ if leb x e then some (s, e) else none
]

-- `remove(&key)`.
unfoldable pub remove_entry : ℕ → RangeMap → RangeMap
remove_entry k [] = []
remove_entry k ((s, e) ∷ m) = if s == k then m else (s, e) ∷ remove_entry k m

-- `insert(key, value)`: keeps the keys ascending, and replaces the value of a key that is there.
unfoldable pub insert_entry : ℕ → ℕ → RangeMap → RangeMap
insert_entry k v [] = (k, v) ∷ []
insert_entry k v ((s, e) ∷ m) =
    if ltb k s
    then (k, v) ∷ (s, e) ∷ m
    else if k == s
    then (k, v) ∷ m
    else (s, e) ∷ insert_entry k v m

unfoldable pub remove_entries : List ℕ → RangeMap → RangeMap
remove_entries [] m = m
remove_entries (k ∷ ks) m = remove_entries ks (remove_entry k m)

-- The `filter_map` of `insert_dropped_range`: the keys of the entries that touch `start..=stop`, and
-- the merged range. `bound` is computed once, before the entries are visited.
unfoldable pub collect_overlapped : ℕ → ℕ → ℕ → RangeMap → List ℕ × ℕ × ℕ
collect_overlapped bound s e [] = ([], s, e)
collect_overlapped bound s e ((rs, re) ∷ m) =
    let (keys, s', e') = collect_overlapped bound (min s rs) (max e re) m in
    let merged : List ℕ × ℕ × ℕ = (rs ∷ keys, s', e') in
    let rest = collect_overlapped bound s e m in
    if leb rs bound then (if leb s (saturating_add re 1) then merged else rest) else ([], s, e)

unfoldable pub insert_dropped_range : ℕ → ℕ → RangeMap → RangeMap
unfolding collect_overlapped insert_entry remove_entries remove_entry
insert_dropped_range start stop m =
    let (overlapped, s, e) = collect_overlapped (saturating_add stop 1) start stop m in
    insert_entry s e (remove_entries overlapped m)

-- `is_in_dropped_range`.
unfoldable pub is_in_dropped_range : ℕ → RangeMap → Bool
unfolding last_entry_le
is_in_dropped_range seq m = elim (last_entry_le seq m) [ none ↦ false | some (s, e) ↦ leb seq e ]

-- Whether some range holds `n`, whatever the order of the entries.
unfoldable pub covered : ℕ → RangeMap → Bool
covered n [] = false
covered n ((s, e) ∷ m) = (leb s n && leb n e) || covered n m

-- Ascending ranges from `low` on, none empty, none touching the next, none past `high`.
abbrev pub Spaced : ℕ → ℕ → RangeMap → Type 0
Spaced low high [] = Unit {0}
Spaced low high ((s, e) ∷ m) = (low ≤ s) × (s ≤ e) × (e ≤ high) × Spaced (e + 2) high m

pub Spaced-mono :
    (low low' high high' : ℕ) (m : RangeMap)
    → low' ≤ low
    → high ≤ high'
    → Spaced low high m
    → Spaced low' high' m
Spaced-mono low low' high high' [] h k v = tt
Spaced-mono low low' high high' ((s, e) ∷ m) h k v =
    (omega arith, v.1, omega arith, Spaced-mono (e + 2) (e + 2) high high' m (omega arith) k v.3)

pub covered_below :
    (n low high : ℕ) (m : RangeMap) → Spaced low high m → n < low → covered n m ≡ false
unfolding covered
covered_below n low high [] v h = refl
covered_below n low high ((s, e) ∷ m) v h = ground (arith, covered_below n (e + 2) high m v.3)

covered_above : (n low high : ℕ) (m : RangeMap) → Spaced low high m → high < n → covered n m ≡ false
unfolding covered
covered_above n low high [] v h = refl
covered_above n low high ((s, e) ∷ m) v h = ground (arith, covered_above n (e + 2) high m v.3)

pub remove_entry_head : (s e : ℕ) (m : RangeMap) → remove_entry s ((s, e) ∷ m) ≡ m
unfolding remove_entry
remove_entry_head s e m = ground arith

pub remove_entry-cons :
    (s e k : ℕ) (m : RangeMap) → s < k → remove_entry k ((s, e) ∷ m) ≡ (s, e) ∷ remove_entry k m
unfolding remove_entry
remove_entry-cons s e k m h = ground arith

pub insert_entry-cons :
    (s e k v : ℕ) (m : RangeMap)
    → s < k
    → insert_entry k v ((s, e) ∷ m) ≡ (s, e) ∷ insert_entry k v m
unfolding insert_entry
insert_entry-cons s e k v m h = ground arith

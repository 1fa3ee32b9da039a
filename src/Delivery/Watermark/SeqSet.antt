-- ===== src/Delivery/Watermark/SeqSet.antt =====
-- The `BTreeSet<u64>` of watermark.rs as a list without repetition; its order is never read.
use warp_insight.Prelude.{
  ℕ, ◌+◌, ◌≡◌, refl, Bool, true, false, ◌&&◌, ◌||◌, not, List, [], ◌∷◌, ◌==◌, if◌then◌else◌, length,
  arith, Bool-cases, inl, inr,
}

unfoldable pub contains : ℕ → List ℕ → Bool
contains n [] = false
contains n (x ∷ xs) = n == x || contains n xs

unfoldable pub insert : ℕ → List ℕ → List ℕ
unfolding contains
insert n xs = if contains n xs then xs else n ∷ xs

unfoldable pub remove : ℕ → List ℕ → List ℕ
remove n [] = []
remove n (x ∷ xs) = if n == x then remove n xs else x ∷ remove n xs

abbrev pub Distinct : List ℕ → Type 0
Distinct [] = Unit {0}
Distinct (x ∷ xs) = (contains x xs ≡ false) × Distinct xs

pub contains-insert : (n k : ℕ) (xs : List ℕ) → contains n (insert k xs) ≡ (n == k || contains n xs)
unfolding insert
contains-insert n k xs = elim (Bool-cases (contains k xs)) [
  | inl e ↦ rw e (ground arith)
  | inr e ↦ rw e refl
]

pub contains-remove :
    (n k : ℕ) (xs : List ℕ) → contains n (remove k xs) ≡ (contains n xs && not (n == k))
unfolding contains remove
contains-remove n k [] = refl
contains-remove n k (x ∷ xs) = ground (arith, contains-remove n k xs)

pub insert-Distinct : (k : ℕ) (xs : List ℕ) → Distinct xs → Distinct (insert k xs)
unfolding insert
insert-Distinct k xs v = ground arith

pub remove-Distinct : (k : ℕ) (xs : List ℕ) → Distinct xs → Distinct (remove k xs)
unfolding remove
remove-Distinct k [] v = tt
remove-Distinct k (x ∷ xs) v = ground (arith, remove-Distinct k xs v.1, contains-remove x k xs)

remove_absent : (k : ℕ) (xs : List ℕ) → contains k xs ≡ false → remove k xs ≡ xs
unfolding contains remove
remove_absent k [] h = refl
remove_absent k (x ∷ xs) h = ground (arith, remove_absent k xs)

-- Taking a member out takes out exactly one.
pub length-remove :
    (k : ℕ) (xs : List ℕ)
    → Distinct xs
    → contains k xs ≡ true
    → length (remove k xs) + 1 ≡ length xs
unfolding contains remove
length-remove k [] v h = cc
length-remove k (x ∷ xs) v h = ground (arith, length-remove k xs v.1, remove_absent k xs)

pub length-insert :
    (k : ℕ) (xs : List ℕ) → contains k xs ≡ false → length (insert k xs) ≡ length xs + 1
unfolding insert
length-insert k xs h = ground arith

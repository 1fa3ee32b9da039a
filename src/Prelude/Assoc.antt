-- ===== src/Prelude/Assoc.antt =====
-- A `HashMap<String, V>` as an association list; its order is never read.
use warp_insight.Prelude.Tests.{if◌then◌else◌}
use warp_insight.Prelude.Lists.{length}
use warp_insight.Prelude.Text.{Text, text_eq, text_eq_iff, text_eq_refl}
use Prim.Native.Nat.{suc, ◌+◌, ◌≤◌}
use mathlib.Core.Path.{◌≡◌, refl}
use mathlib.Core.Bool.{Bool, true, false}
use mathlib.Core.List.{List, [], ◌∷◌}
use mathlib.Core.Option.{Option, none, some}
use native.Mathlib.Omega.{arith}

abbrev pub Assoc : Type 0 → Type 0
Assoc V = List (Text × V)

module _ {V : Type 0} where
  unfoldable pub get : Text → Assoc V → Option V
  get k [] = none
  get k ((j, v) ∷ m) = if text_eq j k then some v else get k m

  unfoldable pub insert : Text → V → Assoc V → Assoc V
  insert k v [] = (k, v) ∷ []
  insert k v ((j, w) ∷ m) = if text_eq j k then (j, v) ∷ m else (j, w) ∷ insert k v m

  unfoldable pub remove : Text → Assoc V → Assoc V
  remove k [] = []
  remove k ((j, w) ∷ m) = if text_eq j k then remove k m else (j, w) ∷ remove k m

  abbrev pub is_some : Option V → Bool
  is_some none = false
  is_some (some v) = true

  unfoldable pub contains_key : Text → Assoc V → Bool
  unfolding get
  contains_key k m = is_some (get k m)

  pub get-insert :
      (j k : Text) (v : V) (m : Assoc V)
      → get j (insert k v m) ≡ (if text_eq k j then some v else get j m)
  unfolding get insert
  get-insert j k v [] = refl
  get-insert j k v ((i, w) ∷ m) =
      ground (arith, text_eq_iff k j, text_eq_iff i k, text_eq_iff i j, get-insert j k v m)

  pub get-insert_self : (k : Text) (v : V) (m : Assoc V) → get k (insert k v m) ≡ some v
  get-insert_self k v m = rw (get-insert k k v m, text_eq_refl k)

  pub get-remove :
      (j k : Text) (m : Assoc V) → get j (remove k m) ≡ (if text_eq k j then none else get j m)
  unfolding get remove
  get-remove j k [] = ground arith
  get-remove j k ((i, w) ∷ m) =
      ground (arith, text_eq_iff k j, text_eq_iff i k, text_eq_iff i j, get-remove j k m)

  pub length-remove-le : (k : Text) (m : Assoc V) → length (remove k m) ≤ length m
  unfolding remove
  length-remove-le k [] = omega arith
  length-remove-le k ((j, w) ∷ m) = ground (arith, length-remove-le k m)

  pub length-remove_present :
      (k : Text) (m : Assoc V) → contains_key k m ≡ true → length (remove k m) + 1 ≤ length m
  unfolding remove contains_key
  length-remove_present k [] h = cc
  length-remove_present k ((j, w) ∷ m) h =
      ground (arith, length-remove_present k m, length-remove-le k m)

  pub length-insert :
      (k : Text) (v : V) (m : Assoc V)
      → length (insert k v m) ≡ (if contains_key k m then length m else suc (length m))
  unfolding insert contains_key
  length-insert k v [] = refl
  length-insert k v ((j, w) ∷ m) = ground (arith, length-insert k v m)

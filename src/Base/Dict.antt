-- ===== src/Base/Dict.antt =====
-- `HashMap<String, V>` as an association list, with its laws in `if` form. The order of the
-- entries stands for the map's iteration order, which the program never relies on.
use Prim.Native.String.{String}
use mathlib.Core.Path.{◌≡◌, refl}
use mathlib.Core.Bool.{Bool}
use mathlib.Core.List.{List, [], ◌∷◌}
use mathlib.Core.Option.{Option, none, some}
use native.Mathlib.Omega.{arith}
use text.Mathlib.Text.{◌==◌ as str_eq}
use text.Mathlib.TextEquality.{eq_iff}
use peat_sapient.Base.Tests.{if◌then◌else◌, is_some}
use peat_sapient.Base.Lists.{All}

abbrev pub Dict {ℓ} : Type ℓ → Type ℓ
Dict V = List (String × V)

module _ {ℓ} {V : Type ℓ} where
  unfoldable pub get : String → Dict V → Option V
  get key [] = none
  get key ((j, v) ∷ rest) = if str_eq j key then some v else get key rest

  unfoldable pub insert : String → V → Dict V → Dict V
  insert key new [] = (key, new) ∷ []
  insert key new ((j, old) ∷ rest) =
      if str_eq j key then (key, new) ∷ rest else (j, old) ∷ insert key new rest

  unfoldable pub remove : String → Dict V → Dict V
  remove k [] = []
  remove k ((j, w) ∷ m) = if str_eq j k then remove k m else (j, w) ∷ remove k m

  -- `contains_key`.
  abbrev pub contains_key : String → Dict V → Bool
  contains_key k m = is_some (get k m)

  pub get-insert :
      (j k : String) (v : V) (m : Dict V)
      → get j (insert k v m) ≡ (if str_eq k j then some v else get j m)
  unfolding get insert
  get-insert j k v [] = refl
  get-insert j k v ((i, w) ∷ m) =
      ground (arith, eq_iff k j, eq_iff i k, eq_iff i j, get-insert j k v m)

  pub get-remove :
      (j k : String) (m : Dict V) → get j (remove k m) ≡ (if str_eq k j then none else get j m)
  unfolding get remove
  get-remove j k [] = ground arith
  get-remove j k ((i, w) ∷ m) = ground (arith, eq_iff k j, eq_iff i k, eq_iff i j, get-remove j k m)

-- Every value of the map satisfies `P`.
abbrev pub AllValues {ℓ κ} : {V : Type ℓ} → (V → Type κ) → Dict V → Type κ
AllValues P = All (λ e. P e.1)

module _ {ℓ κ} {V : Type ℓ} (P : V → Type κ) where
  pub insert-AllValues :
      (k : String) (v : V) (m : Dict V) → P v → AllValues P m → AllValues P (insert k v m)
  unfolding insert
  insert-AllValues k v [] p h = (p, tt)
  insert-AllValues k v ((j, w) ∷ m) p h = ground (arith, insert-AllValues k v m p h.1)

  pub get-AllValues : (k : String) (m : Dict V) {v : V} → AllValues P m → get k m ≡ some v → P v
  unfolding get
  get-AllValues k [] h e = cc
  get-AllValues k ((j, w) ∷ m) {v} h e = ground (arith, get-AllValues k m {v = v} h.1)

-- No key occurs twice, as in every `HashMap`.
module _ {ℓ} {V : Type ℓ} where
  abbrev pub Distinct : Dict V → Type ℓ
  Distinct [] = Unit
  Distinct ((k, v) ∷ m) = (get k m ≡ none) × Distinct m

  pub insert-Distinct : (k : String) (v : V) (m : Dict V) → Distinct m → Distinct (insert k v m)
  unfolding get insert
  insert-Distinct k v [] h = (refl, tt)
  insert-Distinct k v ((j, w) ∷ m) h =
      ground (arith, eq_iff j k, eq_iff k j, get-insert j k v m, insert-Distinct k v m h.1)

  pub remove-Distinct : (k : String) (m : Dict V) → Distinct m → Distinct (remove k m)
  unfolding get remove
  remove-Distinct k [] h = tt
  remove-Distinct k ((j, w) ∷ m) h = ground (arith, get-remove j k m, remove-Distinct k m h.1)

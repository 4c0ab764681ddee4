-- ===== src/Base/Lists.antt =====
-- Lists measured and cut by native numbers and Boolean tests, under the library's names.
use Prim.Native.Nat.{ℕ, zero, suc, ◌+◌, ◌-◌, ◌≤◌, ◌<◌}
use mathlib.Core.Path.{◌≡◌, refl, ap}
use mathlib.Core.Logic.{◌≢◌}
use mathlib.Core.Bool.{Bool, true, false, ◌&&◌}
use mathlib.Core.List.{List, [], ◌∷◌, ◌++◌, map}
use mathlib.Core.Option.{Option, none, some}
use native.Mathlib.Omega.{arith}
use peat_sapient.Base.Tests.{if◌then◌else◌}

module _ {ℓ} {A : Type ℓ} where
  abbrev pub length : List A → ℕ
  length [] = 0
  length (x ∷ xs) = suc (length xs)

  abbrev pub is_empty : List A → Bool
  is_empty [] = true
  is_empty (x ∷ xs) = false

  abbrev pub take : ℕ → List A → List A
  take zero xs = []
  take (suc n) [] = []
  take (suc n) (x ∷ xs) = x ∷ take n xs

  abbrev pub drop : ℕ → List A → List A
  drop zero xs = xs
  drop (suc n) [] = []
  drop (suc n) (x ∷ xs) = drop n xs

  abbrev pub get_elem? : List A → ℕ → Option A
  get_elem? [] i = none
  get_elem? (x ∷ xs) zero = some x
  get_elem? (x ∷ xs) (suc i) = get_elem? xs i

  -- `Vec::retain`, `Iterator::filter`: the elements that pass the test, in order.
  abbrev pub retain : (A → Bool) → List A → List A
  retain p [] = []
  retain p (x ∷ xs) = if p x then x ∷ retain p xs else retain p xs

  abbrev pub All {κ} : (A → Type κ) → List A → Type κ
  All P [] = Unit
  All P (x ∷ xs) = P x × All P xs

  pub length-append : (xs ys : List A) → length (xs ++ ys) ≡ length xs + length ys
  length-append [] ys = omega arith
  length-append (x ∷ xs) ys = omega (arith, length-append xs ys)

  pub take-append : (xs ys : List A) → take (length xs) (xs ++ ys) ≡ xs
  take-append [] ys = refl
  take-append (x ∷ xs) ys = ap (◌∷◌ x) (take-append xs ys)

  pub drop-append : (xs ys : List A) → drop (length xs) (xs ++ ys) ≡ ys
  drop-append [] ys = refl
  drop-append (x ∷ xs) ys = drop-append xs ys

  -- A prefix that is long enough is the whole list.
  pub take_all : (ts : List A) (k : ℕ) → length ts ≤ k → take k ts ≡ ts
  take_all [] zero _ = refl
  take_all [] (suc k) _ = refl
  take_all (t ∷ ts) zero fits = absurd (omega arith)
  take_all (t ∷ ts) (suc k) fits = cc (take_all ts k (omega arith))

  pub length-drop : (n : ℕ) (xs : List A) → length (drop n xs) ≡ length xs - n
  length-drop zero xs = omega arith
  length-drop (suc n) [] = omega arith
  length-drop (suc n) (x ∷ xs) = omega (arith, length-drop n xs)

  pub length-pos : (xs : List A) → xs ≢ [] → 0 < length xs
  length-pos [] h = absurd (h refl)
  length-pos (x ∷ xs) h = omega arith

  pub length-retain-le : (p : A → Bool) (xs : List A) → length (retain p xs) ≤ length xs
  length-retain-le p [] = omega arith
  length-retain-le p (x ∷ xs) = ground (arith, length-retain-le p xs)

  pub retain-append :
      (p : A → Bool) (xs ys : List A) → retain p (xs ++ ys) ≡ retain p xs ++ retain p ys
  retain-append p [] ys = refl
  retain-append p (x ∷ xs) ys = ground (arith, retain-append p xs ys)

  pub retain-retain :
      (p q : A → Bool) (xs : List A) → retain p (retain q xs) ≡ retain (λ x. q x && p x) xs
  retain-retain p q [] = refl
  retain-retain p q (x ∷ xs) = ground (arith, retain-retain p q xs)

  pub retain_idem : (p : A → Bool) (xs : List A) → retain p (retain p xs) ≡ retain p xs
  retain_idem p [] = refl
  retain_idem p (x ∷ xs) = ground (arith, retain_idem p xs)

module _ {ℓ κ} {A : Type ℓ} {B : Type κ} where
  pub length-map : (f : A → B) (xs : List A) → length (map f xs) ≡ length xs
  length-map f [] = refl
  length-map f (x ∷ xs) = ap suc (length-map f xs)

  abbrev pub filter_map : (A → Option B) → List A → List B
  filter_map g [] = []
  filter_map g (x ∷ xs) = elim (g x) [ none ↦ filter_map g xs | some y ↦ y ∷ filter_map g xs ]

-- ===== src/Prelude/Lists.antt =====
-- Lists measured and indexed by native numbers, under the library's names.
use Prim.Native.Nat.{ℕ, zero, suc, ◌+◌, ◌<◌, ◌≤◌}
use mathlib.Core.Path.{◌≡◌, refl, ap, ◌∙◌}
use mathlib.Core.Option.{Option, none, some}
use mathlib.Core.List.{List, [], ◌∷◌, ◌++◌, map}
use native.Mathlib.Omega.{arith}

module _ {ℓ} {A : Type ℓ} where
  abbrev pub length : List A → ℕ
  length [] = 0
  length (x ∷ xs) = suc (length xs)

  abbrev pub get_or : List A → ℕ → A → A
  get_or [] i d = d
  get_or (x ∷ xs) zero d = x
  get_or (x ∷ xs) (suc i) d = get_or xs i d

  abbrev pub get_elem? : List A → ℕ → Option A
  get_elem? [] i = none
  get_elem? (x ∷ xs) zero = some x
  get_elem? (x ∷ xs) (suc i) = get_elem? xs i

  pub length-append : (xs ys : List A) → length (xs ++ ys) ≡ length xs + length ys
  length-append [] ys = omega arith
  length-append (x ∷ xs) ys = omega (arith, length-append xs ys)

  pub get_elem?-some : (xs : List A) (i : ℕ) → i < length xs → (x : A) × (get_elem? xs i ≡ some x)
  get_elem?-some [] i h = absurd (omega (arith, h))
  get_elem?-some (x ∷ xs) zero h = (x, refl)
  get_elem?-some (x ∷ xs) (suc i) h = get_elem?-some xs i (omega arith)

  pub get_elem?-none : (xs : List A) (i : ℕ) → length xs ≤ i → get_elem? xs i ≡ none
  get_elem?-none [] i h = refl
  get_elem?-none (x ∷ xs) zero h = absurd (omega arith)
  get_elem?-none (x ∷ xs) (suc i) h = get_elem?-none xs i (omega arith)

module _ {ℓ κ} {A : Type ℓ} {B : Type κ} (f : A → B) where
  -- A list that is mapped to `y ∷ ys` starts with an item that is mapped to `y`.
  pub map-cons :
      (xs : List A) {y : B} {ys : List B}
      → y ∷ ys ≡ map f xs
      → (x : A) × (rest : List A) × (xs ≡ x ∷ rest) × (y ≡ f x) × (ys ≡ map f rest)
  map-cons [] e = absurd (let q = e in cc)
  map-cons (x ∷ rest) e = (x, rest, refl, cc, cc)

  -- A list that is mapped to an append is one.
  pub map-split :
      (xs : List A) (us vs : List B)
      → us ++ vs ≡ map f xs
      → (front : List A) × (back : List A) × (xs ≡ front ++ back) × (vs ≡ map f back)
  map-split xs [] vs e = ([], xs, refl, e)
  map-split xs (u ∷ us) vs e =
      let (x, rest, split, first, tail) = map-cons xs e in
      let (front, back, parts, same) = map-split rest us vs tail in
      (x ∷ front, back, split ∙ ap (λ (l : List A). x ∷ l) parts, same)

-- ===== src/Prelude/Lists.antt =====
-- Lists measured by native numbers, membership by recursion, and the tests that iterators make.
use Prim.Native.Nat.{ℕ, suc, ◌+◌, ◌≤◌}
use mathlib.Core.Path.{◌≡◌, refl, sym, ap, ◌∙◌}
use mathlib.Core.Logic.{◌⊎◌, inl, inr}
use mathlib.Core.Bool.{Bool, true, false, ◌||◌}
use mathlib.Core.Option.{Option, none, some}
use mathlib.Core.List.{List, [], ◌∷◌, ◌++◌, map}
use native.Mathlib.Omega.{arith}
use leshy.Prelude.Tests.{if◌then◌else◌, Bool-cases, Option-cases}

-- `⊥` at every level.
pub data Never {ℓ} : Type ℓ where

module _ {ℓ} {A : Type ℓ} where
  abbrev pub length : List A → ℕ
  length [] = 0
  length (x ∷ xs) = suc (length xs)

  abbrev pub is_empty : List A → Bool
  is_empty [] = true
  is_empty (x ∷ xs) = false

  -- The library's `filter`, by a Boolean test.
  abbrev pub filter : (A → Bool) → List A → List A
  filter p [] = []
  filter p (x ∷ xs) = if p x then x ∷ filter p xs else filter p xs

  abbrev pub any : (A → Bool) → List A → Bool
  any p [] = false
  any p (x ∷ xs) = p x || any p xs

  -- `a` is an element of the list, as a type with the position kept.
  abbrev pub In : A → List A → Type ℓ
  In a [] = Never
  In a (x ∷ xs) = (a ≡ x) ⊎ In a xs

  pub length-append : (xs ys : List A) → length (xs ++ ys) ≡ length xs + length ys
  length-append [] ys = omega arith
  length-append (x ∷ xs) ys = omega (arith, length-append xs ys)

  pub length-filter-le : (p : A → Bool) (xs : List A) → length (filter p xs) ≤ length xs
  length-filter-le p [] = omega arith
  length-filter-le p (x ∷ xs) = ground (arith, length-filter-le p xs)

  -- What a filter keeps passes its test, and stood in the list.
  pub In-filter : (p : A → Bool) (a : A) (xs : List A) → In a (filter p xs) → In a xs × (p a ≡ true)
  In-filter p a [] h = elim h [ ]
  In-filter p a (x ∷ xs) h = ground (arith, In-filter p a xs)

module _ {ℓ κ} {A : Type ℓ} {B : Type κ} where
  abbrev pub filter_map : (A → Option B) → List A → List B
  filter_map f [] = []
  filter_map f (x ∷ xs) =
      let rest = filter_map f xs in elim (f x) [ none ↦ rest | some y ↦ y ∷ rest ]

module _ {A : Type 0} where
  pub any-In : (p : A → Bool) (xs : List A) → any p xs ≡ true → (x : A) × In x xs × (p x ≡ true)
  any-In p [] h = cc
  any-In p (x ∷ xs) h = elim (Bool-cases (p x)) [
    | inl e ↦ (x, inl refl, e)
    | inr e ↦ let (y, m, t) = any-In p xs (rw e at h) in (y, inr m, t)
  ]

  pub any_of_In : (p : A → Bool) (x : A) (xs : List A) → In x xs → p x ≡ true → any p xs ≡ true
  any_of_In p x [] m t = elim m [ ]
  any_of_In p x (y ∷ xs) m t = ground (arith, any_of_In p x xs)

module _ {A B : Type 0} where
  pub In-map : (f : A → B) (b : B) (xs : List A) → In b (map f xs) → (a : A) × In a xs × (b ≡ f a)
  In-map f b [] m = elim m [ ]
  In-map f b (x ∷ xs) (inl e) = (x, inl refl, e)
  In-map f b (x ∷ xs) (inr m) = let (a, n, e) = In-map f b xs m in (a, inr n, e)

  pub map_of_In : (f : A → B) (a : A) (xs : List A) → In a xs → In (f a) (map f xs)
  map_of_In f a [] m = elim m [ ]
  map_of_In f a (x ∷ xs) (inl e) = inl (ap f e)
  map_of_In f a (x ∷ xs) (inr m) = inr (map_of_In f a xs m)

  pub In-filter_map :
      (f : A → Option B) (b : B) (xs : List A)
      → In b (filter_map f xs)
      → (a : A) × In a xs × (f a ≡ some b)
  In-filter_map f b [] m = elim m [ ]
  In-filter_map f b (x ∷ xs) m = elim (Option-cases (f x)) [
    | inl e ↦ let (a, n, t) = In-filter_map f b xs (rw (e, filter_map) at m) in (a, inr n, t)
    | inr (y, e) ↦
        let m' : (b ≡ y) ⊎ In b (filter_map f xs) = rw (e, filter_map) at m in
        elim m' [
          | inl same ↦ (x, inl refl, e ∙ ap some (sym same))
          | inr n ↦ let (a, k, t) = In-filter_map f b xs n in (a, inr k, t)
        ]
  ]

  pub filter_map_of_In :
      (f : A → Option B) (a : A) (b : B) (xs : List A)
      → In a xs
      → f a ≡ some b
      → In b (filter_map f xs)
  filter_map_of_In f a b [] m t = elim m [ ]
  filter_map_of_In f a b (x ∷ xs) (inl here) t = rw (sym (ap f here) ∙ t, filter_map) (inl refl)
  filter_map_of_In f a b (x ∷ xs) (inr m) t = elim (Option-cases (f x)) [
    | inl e ↦ rw (e, filter_map) (filter_map_of_In f a b xs m t)
    | inr (y, e) ↦ rw (e, filter_map) (inr (filter_map_of_In f a b xs m t))
  ]

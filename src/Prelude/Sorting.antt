-- ===== src/Prelude/Sorting.antt =====
-- `sort_by_key` of a slice, by a key that is a string: the stable sort. Strings are compared by code
-- points, which is the order of their UTF-8 bytes.
use mathlib.Core.Logic.{◌⊎◌, inl, inr}
use mathlib.Core.Path.{◌≡◌, refl}
use mathlib.Core.Bool.{Bool, true, false, Bool-set}
use mathlib.Core.List.{List, [], ◌∷◌, Mem, Perm, Pairwise, Pairwise-singleton, forall_mem-cons}
use mathlib.Core.List.Perm
use native.Mathlib.Omega.{arith}
use leshy.Prelude.Tests.{ltb, if◌then◌else◌, Bool-cases}
use leshy.Prelude.Text.{Str}

unfoldable pub str_leb : Str → Str → Bool
str_leb [] t = true
str_leb (c ∷ s) [] = false
str_leb (c ∷ s) (d ∷ t) =
    let rest = str_leb s t in if ltb c d then true else if ltb d c then false else rest

pub str_leb-total : (s t : Str) → (str_leb s t ≡ true) ⊎ (str_leb t s ≡ true)
unfolding str_leb
str_leb-total [] t = inl refl
str_leb-total (c ∷ s) [] = inr refl
str_leb-total (c ∷ s) (d ∷ t) = ground (arith, str_leb-total s t)

pub str_leb_trans : (s t u : Str) → str_leb s t ≡ true → str_leb t u ≡ true → str_leb s u ≡ true
unfolding str_leb
str_leb_trans [] t u p q = refl
str_leb_trans (c ∷ s) [] u p q = ground arith
str_leb_trans (c ∷ s) (d ∷ t) [] p q = ground arith
str_leb_trans (c ∷ s) (d ∷ t) (e ∷ u) p q = ground (arith, str_leb_trans s t u)

module _ {ℓ} {A : Type ℓ} (key : A → Str) where
  unfoldable pub insert_by_key : A → List A → List A
  insert_by_key x [] = x ∷ []
  insert_by_key x (y ∷ ys) =
      let later = insert_by_key x ys in if str_leb (key x) (key y) then x ∷ y ∷ ys else y ∷ later

  unfoldable pub sort_by_key : List A → List A
  sort_by_key [] = []
  sort_by_key (x ∷ xs) = insert_by_key x (sort_by_key xs)

  -- An earlier element has no greater key than a later one.
  abbrev pub IsOrdered : List A → Type ℓ
  IsOrdered = Pairwise (λ a b. str_leb (key a) (key b) ≡ true)

  insert_by_key-perm : (x : A) (ys : List A) → Perm (insert_by_key x ys) (x ∷ ys)
  unfolding insert_by_key
  insert_by_key-perm x [] = Perm.rfl
  insert_by_key-perm x (y ∷ ys) = elim (Bool-cases (str_leb (key x) (key y))) [
    | inl e ↦ rw e Perm.rfl
    | inr e ↦ rw e (Perm.trans (Perm.cons y (insert_by_key-perm x ys)) (Perm.swap x y ys))
  ]

  pub sort_by_key-perm : (xs : List A) → Perm (sort_by_key xs) xs
  unfolding sort_by_key
  sort_by_key-perm [] = Perm.rfl
  sort_by_key-perm (x ∷ xs) =
      Perm.trans (insert_by_key-perm x (sort_by_key xs)) (Perm.cons x (sort_by_key-perm xs))

  -- An element with no greater key than the head's has none than the list's.
  below_all :
      (x y : A) (ys : List A)
      → str_leb (key x) (key y) ≡ true
      → ((z : A) → Mem z ys → str_leb (key y) (key z) ≡ true)
      → (z : A) → Mem z (y ∷ ys)
      → str_leb (key x) (key z) ≡ true
  below_all x y ys le below =
      (forall_mem-cons {p = λ z. str_leb (key x) (key z) ≡ true} (λ z. Bool-set _ _)).1
        (le, λ z m. str_leb_trans (key x) (key y) (key z) le (below z m))

  insert_by_key-IsOrdered : (x : A) {ys : List A} → IsOrdered ys → IsOrdered (insert_by_key x ys)
  unfolding insert_by_key
  insert_by_key-IsOrdered x Pairwise.nil = Pairwise-singleton _ x
  insert_by_key-IsOrdered x (Pairwise.cons {a = y} {l = ys} below o) =
      elim (Bool-cases (str_leb (key x) (key y))) [
        | inl e ↦ rw e (Pairwise.cons (below_all x y ys e below) (Pairwise.cons below o))
        | inr e ↦
            let back : str_leb (key y) (key x) ≡ true =
              ground (arith, str_leb-total (key x) (key y)) in
            rw e (
              Pairwise.cons
                (λ z m.
                  (forall_mem-cons {p = λ w. str_leb (key y) (key w) ≡ true} (λ w. Bool-set _ _)).1
                    (back, below) z ((Perm.mem_iff (insert_by_key-perm x ys)).0 m))
                (insert_by_key-IsOrdered x o))
      ]

  pub sort_by_key-IsOrdered : (xs : List A) → IsOrdered (sort_by_key xs)
  unfolding sort_by_key
  sort_by_key-IsOrdered [] = Pairwise.nil
  sort_by_key-IsOrdered (x ∷ xs) = insert_by_key-IsOrdered x (sort_by_key-IsOrdered xs)

-- ===== src/Prelude/Keys.antt =====
-- Boolean equality of keys: the `Eq` that a hash map asks of its keys, and what the library's
-- `Hash + Eq` types of the program give.
use Prim.Native.Nat.{ℕ}
use mathlib.Core.Path.{◌≡◌, refl}
use mathlib.Core.Logic.{◌↔◌, ◌≢◌}
use mathlib.Core.Bool.{Bool, true, false, ◌&&◌}
use mathlib.Core.List.{List, [], ◌∷◌}
use native.Mathlib.Omega.{arith}
use leshy.Prelude.Tests.{eqb, eqb_iff}

-- A test of two keys that holds exactly for equal ones.
pub record Eq {ℓ} (Key : Type ℓ) : Type ℓ where
  pub test : Key → Key → Bool
  pub decides : (k j : Key) → (test k j ≡ true) ↔ (k ≡ j)

-- `==`
infix 50 ◌==◌
abbrev pub ◌==◌ {ℓ} : {Key : Type ℓ} ⦃e : Eq Key⦄ (k j : Key) → Bool
◌==◌ ⦃e⦄ k j = e.test k j

-- `Eq` of the integers
instance abbrev pub nat_eq : Eq ℕ
nat_eq = record { decides = eqb_iff; test = eqb }

module _ {ℓ} {A : Type ℓ} ⦃e : Eq A⦄ where
  pub beq_refl : (a : A) → (a == a) ≡ true
  beq_refl a = (e.decides a a).1 refl

  pub beq_ne : (a b : A) → a ≢ b → (a == b) ≡ false
  beq_ne a b h = ground (arith, e.decides a b)

  abbrev pub list_beq : List A → List A → Bool
  list_beq [] [] = true
  list_beq (x ∷ xs) (y ∷ ys) = x == y && list_beq xs ys
  list_beq _ _ = false

  pub list_beq_iff : (xs ys : List A) → (list_beq xs ys ≡ true) ↔ (xs ≡ ys)
  list_beq_iff [] [] = ground arith
  list_beq_iff [] (y ∷ ys) = ground arith
  list_beq_iff (x ∷ xs) [] = ground arith
  list_beq_iff (x ∷ xs) (y ∷ ys) = ground (arith, e.decides x y, list_beq_iff xs ys)

  instance abbrev pub list_eq : Eq (List A)
  list_eq = record { test = list_beq; decides = list_beq_iff }

module _ {ℓ κ} {A : Type ℓ} {B : Type κ} ⦃a : Eq A⦄ ⦃b : Eq B⦄ where
  abbrev pub pair_beq : A × B → A × B → Bool
  pair_beq x y = x.0 == y.0 && x.1 == y.1

  pub pair_beq_iff : (x y : A × B) → (pair_beq x y ≡ true) ↔ (x ≡ y)
  pair_beq_iff (x, x') (y, y') = ground (arith, a.decides x y, b.decides x' y')

  instance abbrev pub pair_eq : Eq (A × B)
  pair_eq = record { test = pair_beq; decides = pair_beq_iff }

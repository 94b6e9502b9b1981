-- ===== src/Prelude/HashMap.antt =====
-- `std::collections::HashMap` as an association list; the list's order stands for the order of
-- iteration. A `HashSet<K>` is a map into the unit type, or a list read through `any`.
use Prim.Native.Nat.{◌+◌}
use mathlib.Core.Path.{◌≡◌, refl, sym, ap, ◌∙◌}
use mathlib.Core.Logic.{◌⊎◌, ◌≢◌, inl, inr}
use mathlib.Core.Bool.{Bool, true, false}
use mathlib.Core.Option.{Option, none, some}
use mathlib.Core.List.{List, [], ◌∷◌}
use native.Mathlib.Omega.{arith}
use leshy.Prelude.Tests.{if◌then◌else◌, Bool-cases, if_either}
use leshy.Prelude.Keys.{Eq, ◌==◌}
use leshy.Prelude.Lists.{length, filter, In}

-- `Unit` at every level.
pub data Always {ℓ} : Type ℓ where
  always : Always

abbrev pub HashMap {ℓ κ} : Type ℓ → Type κ → Type (ℓ ⊔ κ)
HashMap K V = List (K × V)

abbrev pub is_some {ℓ} : {A : Type ℓ} → Option A → Bool
is_some none = false
is_some (some a) = true

-- `retain`
abbrev pub retain {ℓ κ} : {K : Type ℓ} {V : Type κ} → (V → Bool) → HashMap K V → HashMap K V
retain p = filter (λ e. p e.1)

module _ {ℓ κ} {K : Type ℓ} {V : Type κ} ⦃key : Eq K⦄ where
  unfoldable pub get : K → HashMap K V → Option V
  get k [] = none
  get k (entry ∷ m) = let later = get k m in if entry.0 == k then some entry.1 else later

  unfoldable pub contains_key : K → HashMap K V → Bool
  unfolding get
  contains_key k m = is_some (get k m)

  -- replaces the value of a key that is there
  unfoldable pub insert : K → V → HashMap K V → HashMap K V
  insert k v [] = (k, v) ∷ []
  insert k v (old ∷ m) = let kept = insert k v m in if old.0 == k then (k, v) ∷ m else old ∷ kept

  unfoldable pub remove : K → HashMap K V → HashMap K V
  remove k [] = []
  remove k ((j, w) ∷ m) = let rest = remove k m in if j == k then rest else (j, w) ∷ rest

  pub get-insert :
      (k j : K) (v : V) (m : HashMap K V)
      → get j (insert k v m) ≡ (if k == j then some v else get j m)
  unfolding get insert
  get-insert k j v [] = refl
  get-insert k j v ((i, w) ∷ m) =
      ground (arith, key.decides k j, key.decides i k, key.decides i j, get-insert k j v m)

  pub get-insert_cases :
      (k j : K) (v w : V) (m : HashMap K V)
      → get j (insert k v m) ≡ some w
      → ((k ≡ j) × (v ≡ w)) ⊎ ((k ≢ j) × (get j m ≡ some w))
  get-insert_cases k j v w m h = ground (arith, key.decides k j, get-insert k j v m)

  pub get-remove :
      (k j : K) (m : HashMap K V) → get j (remove k m) ≡ (if k == j then none else get j m)
  unfolding get remove
  get-remove k j [] = ground arith
  get-remove k j ((i, w) ∷ m) =
      ground (arith, key.decides k j, key.decides i k, key.decides i j, get-remove k j m)

  -- What a lookup finds is an entry, and an entry's key is found.
  pub In-of_get : (k : K) (v : V) (m : HashMap K V) → get k m ≡ some v → In (k, v) m
  unfolding get
  In-of_get k v [] h = absurd (ground arith)
  In-of_get k v ((j, w) ∷ m) h = elim (Bool-cases (j == k)) [
    | inl e ↦ inl (ground (arith, key.decides j k))
    | inr e ↦ inr (In-of_get k v m (rw e at h))
  ]

  pub get_of_In : (k : K) (v : V) (m : HashMap K V) → In (k, v) m → (w : V) × (get k m ≡ some w)
  unfolding get
  get_of_In k v [] h = elim h [ ]
  get_of_In k v ((j, w) ∷ m) h = elim (Bool-cases (j == k)) [
    | inl e ↦ (w, rw e)
    | inr e ↦ rw e (get_of_In k v m (ground (arith, key.decides j k)))
  ]

  -- A retained lookup gives a value that passes the test.
  pub get-retain :
      (p : V → Bool) (k : K) (v : V) (m : HashMap K V) → get k (retain p m) ≡ some v → p v ≡ true
  unfolding get
  get-retain p k v [] h = absurd (ground arith)
  get-retain p k v ((j, w) ∷ m) h = ground (arith, get-retain p k v m)

  -- A value that passes the test stays where it was.
  pub get-retain_keeps :
      (p : V → Bool) (k : K) (v : V) (m : HashMap K V)
      → get k m ≡ some v
      → p v ≡ true
      → get k (retain p m) ≡ some v
  unfolding get
  get-retain_keeps p k v [] h t = absurd (ground arith)
  get-retain_keeps p k v ((j, w) ∷ m) h t = ground (arith, get-retain_keeps p k v m)

  -- An insertion adds an entry only for a new key.
  pub length-insert :
      (k : K) (v : V) (m : HashMap K V)
      → length (insert k v m) ≡ (if contains_key k m then length m else length m + 1)
  unfolding insert contains_key get
  length-insert k v [] = omega arith
  length-insert k v ((j, w) ∷ m) = ground (arith, length-insert k v m)

  -- No key has two entries.
  abbrev pub IsDistinct : HashMap K V → Type κ
  IsDistinct [] = Always
  IsDistinct ((k, v) ∷ m) = (get k m ≡ none) × IsDistinct m

  get-retain-none :
      (p : V → Bool) (k : K) (m : HashMap K V) → get k m ≡ none → get k (retain p m) ≡ none
  unfolding get
  get-retain-none p k [] h = refl
  get-retain-none p k ((j, w) ∷ m) h = ground (arith, get-retain-none p k m)

  -- With distinct keys, `retain` is a filter on what is found.
  pub get-retain_distinct :
      (p : V → Bool) (k : K) (m : HashMap K V)
      → IsDistinct m
      → get k (retain p m) ≡ elim (get k m) [ none ↦ none | some v ↦ if p v then some v else none ]
  unfolding get
  get-retain_distinct p k [] d = refl
  get-retain_distinct p k ((j, w) ∷ m) d =
      ground (arith, key.decides j k, get-retain-none p k m, get-retain_distinct p k m d.1, d.0)

  pub retain-IsDistinct : (p : V → Bool) (m : HashMap K V) → IsDistinct m → IsDistinct (retain p m)
  retain-IsDistinct p [] d = d
  retain-IsDistinct p ((j, w) ∷ m) d =
      if_either IsDistinct (p w) _ _ (get-retain-none p j m d.0, retain-IsDistinct p m d.1)
        (retain-IsDistinct p m d.1)

  pub insert-IsDistinct :
      (k : K) (v : V) (m : HashMap K V) → IsDistinct m → IsDistinct (insert k v m)
  unfolding insert get
  insert-IsDistinct k v [] d = (refl, always)
  insert-IsDistinct k v ((j, w) ∷ m) d = elim (Bool-cases (j == k)) [
    | inl e ↦ rw e (ap (λ (i : K). get i m) (sym ((key.decides j k).0 e)) ∙ d.0, d.1)
    | inr e ↦ rw e (
      get-insert k j v m ∙ ground (arith, key.decides j k, key.decides k j, d.0),
      insert-IsDistinct k v m d.1,
    )
  ]

  pub remove-IsDistinct : (k : K) (m : HashMap K V) → IsDistinct m → IsDistinct (remove k m)
  unfolding remove
  remove-IsDistinct k [] d = d
  remove-IsDistinct k ((j, w) ∷ m) d =
      if_either IsDistinct (j == k) _ _ (remove-IsDistinct k m d.1)
        (get-remove k j m ∙ ground (arith, d.0), remove-IsDistinct k m d.1)

-- ===== src/Zones/Domains.antt =====
-- The walk over suffixes, against its meaning: a listed domain matches itself and its subdomains.
use leshy.Prelude.{
  ℕ, suc, zero, ◌<◌, ◌≡◌, refl, sym, ap, ◌∙◌, ◌⊎◌, inl, inr, ◌↔◌, true, some, List, [], ◌∷◌, ◌++◌,
  arith, eqb, length, any, In, any-In, any_of_In, nat_eq, list_eq, list_beq_iff, ◌==◌, Bool-cases,
  Option-cases,
}
use mathlib.Core.List.{append_assoc}
use leshy.Prelude.Text.{Str, dot, after}
use leshy.Zones.{domain_match}

-- The name is the domain, or a subdomain of it.
abbrev pub IsUnder : Str → Str → Type 0
IsUnder domain name = (name ≡ domain) ⊎ ((labels : Str) × (name ≡ labels ++ dot ∷ domain))

after-split : (s r : Str) → after dot s ≡ some r → (pre : Str) × (s ≡ pre ++ dot ∷ r)
unfolding after
after-split [] r h = cc
after-split (x ∷ s) r h = elim (Bool-cases (eqb x dot)) [
  | inl e ↦ ([], ground arith)
  | inr e ↦ let (pre, t) = after-split s r (rw e at h) in (x ∷ pre, ap (◌∷◌ x) t)
]

length-after : (s r : Str) → after dot s ≡ some r → length r < length s
unfolding after
length-after [] r h = cc
length-after (x ∷ s) r h = ground (arith, length-after s r)

-- Below the first dot the name is still under the domain.
after-IsUnder : (pre d : Str) → (r : Str) × (after dot (pre ++ dot ∷ d) ≡ some r) × IsUnder d r
unfolding after
after-IsUnder [] d = (d, refl, inl refl)
after-IsUnder (x ∷ pre) d = elim (Bool-cases (eqb x dot)) [
  | inl e ↦ (pre ++ dot ∷ d, rw e, inr (pre, refl))
  | inr e ↦ rw e (after-IsUnder pre d)
]

lift-IsUnder : (s r d : Str) → after dot s ≡ some r → IsUnder d r → IsUnder d s
lift-IsUnder s r d h (inl e) =
    let (pre, t) = after-split s r h in inr (pre, t ∙ ap (λ (y : Str). pre ++ dot ∷ y) e)
lift-IsUnder s r d h (inr (labels, e)) =
    let (pre, t) = after-split s r h in
    inr (
      pre ++ dot ∷ labels,
      t ∙ ap (λ (y : Str). pre ++ dot ∷ y) e ∙ sym (append_assoc pre (dot ∷ labels) (dot ∷ d)),
    )

domain_match_sound :
    (fuel : ℕ) (set : List Str) (s : Str)
    → domain_match fuel set s ≡ true
    → (d : Str) × In d set × IsUnder d s
unfolding domain_match
domain_match_sound zero set s h = cc
domain_match_sound (suc fuel) set s h = elim (Bool-cases (any (λ d. d == s) set)) [
  | inl e ↦
      let (d, m, t) = any-In (λ (d : Str). d == s) set e in
      (d, m, inl (sym ((list_beq_iff d s).0 t)))
  | inr e ↦ elim (Option-cases (after dot s)) [
    | inl f ↦ absurd (ground arith)
    | inr (r, f) ↦
        let (d, m, u) = domain_match_sound fuel set r (ground arith) in
        (d, m, lift-IsUnder s r d f u)
  ]
]

domain_match_complete :
    (fuel : ℕ) (set : List Str) (s d : Str)
    → length s < fuel
    → In d set
    → IsUnder d s
    → domain_match fuel set s ≡ true
unfolding domain_match
domain_match_complete zero set s d lt m u = absurd (omega arith)
domain_match_complete (suc fuel) set s d lt m (inl e) =
    rw (any_of_In (λ (x : Str). x == s) d set m ((list_beq_iff d s).1 (sym e)))
domain_match_complete (suc fuel) set s d lt m (inr (labels, e)) =
    let (r, f, u) = after-IsUnder labels d in
    let cut : after dot s ≡ some r = ap (after dot) e ∙ f in
    let rest = domain_match_complete fuel set r d (omega (arith, length-after s r cut)) m u in
    ground (arith, cut, rest)

-- The walk over the suffixes of a name finds a domain of the set exactly when the name is one of
-- the set's domains or a subdomain of one; the fuel that `matches_entries` gives is enough.
pub domain_match_iff :
    (set : List Str) (name : Str)
    → (domain_match (suc (length name)) set name ≡ true) ↔ ((d : Str) × In d set × IsUnder d name)
domain_match_iff set name =
    (domain_match_sound _ set name, λ h. domain_match_complete _ set name h.0 (omega arith) h.1 h.2)

-- ===== src/Routing/Aggregator/Owners.antt =====
-- The installed table as what it is for: a map from addresses to owners. A table represents such a
-- map when one network at most contains each address, and it is the owner's.
use native.Mathlib.Decide.{ℕ_discrete}
use leshy.Prelude.{
  ℕ, ◌≡◌, ◌≢◌, ◌≤◌, ◌<◌, refl, sym, ◌∙◌, ap, Option, none, some, nat_eq, pair_eq, Option-cases, inl,
  inr,
}
use mathlib.Core.Path.{subst}
use leshy.Prelude.HashMap
use leshy.Prelude.Word.{u32_mod}
use leshy.Routing.Prefix.{network_address}
use leshy.Routing.Aggregator.{
  RouteOwner, Progress, install, find_covering_from, find_covering_route,
}
use leshy.Routing.Aggregator.Covering.{Table, entry, find_covering-none, find_covering-some}
use leshy.Routing.Aggregator.Split.{entry-install, entry-install_self}
use leshy.Routing.Aggregator.Effects.{
  after, split-outside, split-spares, split-removes, Refines, Refines-entry, split-Refines,
}

-- One network contains the address, and it is the owner's.
pub record Only (a : ℕ) (t : Table) (o : RouteOwner) : Type 0 where
  pub level : ℕ
  pub bounded : level ≤ 32
  pub found : entry a level t ≡ some o
  pub unique : (q : ℕ) (o' : RouteOwner) → q ≤ 32 → entry a q t ≡ some o' → q ≡ level

abbrev pub Around : ℕ → Table → Option RouteOwner → Type 0
Around a t none = (q : ℕ) → q ≤ 32 → entry a q t ≡ none
Around a t (some o) = Only a t o

-- The abstract state: who owns each address.
abbrev pub Owners : Type 0
Owners = ℕ → Option RouteOwner

abbrev pub Represents : Table → Owners → Type 0
Represents t f = (a : ℕ) → a < u32_mod → Around a t (f a)

abbrev pub owner_of : Option ((ℕ × ℕ) × RouteOwner) → Option RouteOwner
owner_of none = none
owner_of (some r) = some r.1

module _ (a : ℕ) (t : Table) where
  -- Any network around the address is its owner's.
  pub Around-entry :
      (w : Option RouteOwner) (q : ℕ) (o : RouteOwner)
      → Around a t w
      → q ≤ 32
      → entry a q t ≡ some o
      → w ≡ some o
  Around-entry none q o h le e = cc (h q le, e)
  Around-entry (some o') q o h le e =
      sym h.found ∙ sym (ap (λ (n : ℕ). entry a n t) (h.unique q o le e)) ∙ e

  -- The longest prefix around an address is its owner's.
  pub Around-find : (w : Option RouteOwner) → Around a t w → owner_of (find_covering_route a t) ≡ w
  unfolding find_covering_route
  Around-find w h = elim (Option-cases (find_covering_from 32 a t)) [
    | inl e ↦ rw e (bare w h e)
    | inr (((net, p), o), e) ↦
        let (p32, _, found) = find_covering-some a t net p o 32 e in
        rw e (sym (Around-entry w p o h p32 found))
  ]
    where
      bare : (v : Option RouteOwner) → Around a t v → find_covering_from 32 a t ≡ none → none ≡ v
      bare none g e = refl
      bare (some o) g e = cc (find_covering-none 32 a t g.level e g.bounded, g.found)

-- What leaves the networks around an address alone leaves its owner.
pub Around-same :
    (a : ℕ) (t t' : Table) (w : Option RouteOwner)
    → ((q : ℕ) → entry a q t' ≡ entry a q t)
    → Around a t w
    → Around a t' w
Around-same a t t' none same h = λ q le. same q ∙ h q le
Around-same a t t' (some o) same h = record {
  level = h.level;
  bounded = h.bounded;
  found = same h.level ∙ h.found;
  unique = λ q o' le e. h.unique q o' le (sym (same q) ∙ e);
}

-- A network installed around an address that had none makes its owner the address's.
pub Around-install :
    (a net p : ℕ) (o : RouteOwner) (s : Progress)
    → p ≤ 32
    → network_address a p ≡ net
    → Around a s.table none
    → Around a (install net p o s).table (some o)
Around-install a net p o s p32 within bare = record {
  level = p;
  bounded = p32;
  found = entry-install_self a p net p o s within refl;
  unique = λ q o' le e. elim (ℕ_discrete q p) [
    | yes same ↦ same
    | no ne ↦ absurd (cc (entry-install a q net p o s (λ _. ne), bare q le, e))
  ];
}

module _ (ip : ℕ) (hip : ip < u32_mod) (o : RouteOwner) (p : ℕ) (p32 : p ≤ 32) (s : Progress)
    (here : entry ip p s.table ≡ some o) where
  -- After a split, the address in the middle has no network ...
  pub Around-split_self : Only ip s.table o → Around ip (after ip hip o p s) none
  Around-split_self h q le = elim (ℕ_discrete q p) [
    | yes e ↦ ap (λ (n : ℕ). entry ip n (after ip hip o p s)) e ∙ split-removes ip hip o p s
    | no ne ↦ elim (Option-cases (entry ip q s.table)) [
      | inl bare ↦ split-spares ip hip o p s q ne ∙ bare
      | inr (o', e) ↦ absurd (ne (h.unique q o' le e ∙ sym (h.unique p o p32 here)))
    ]
  ]

  -- ... and every other address keeps its owner.
  pub Around-split :
      (a : ℕ)
      → a < u32_mod
      → a ≢ ip
      → (w : Option RouteOwner) → Around a s.table w
      → Around a (after ip hip o p s) w
  Around-split a ha ne w h = elim (ℕ_discrete (network_address a p) (network_address ip p)) [
    | no out ↦ Around-same a _ _ w (λ q. split-outside ip hip o p s a ha q out) h
    | yes within ↦
        let there : entry a p s.table ≡ some o =
          ap (λ (n : ℕ). HashMap.get (n, p) s.table) within ∙ here in
        let e : w ≡ some o = Around-entry a s.table w p o h p32 there in
        let only : Only a s.table o = subst (Around a s.table) e h in
        rw e (refined only there (split-Refines ip hip o p s a ha p32 ne within))
  ]
    where
      refined :
          Only a s.table o
          → entry a p s.table ≡ some o
          → Refines ip hip o p s a ha
          → Only a (after ip hip o p s) o
      refined only there r = record {
        level = r.level;
        bounded = r.bounded;
        found = r.gained;
        unique = λ q o' le e. elim (Refines-entry ip hip o p s a ha r q o' e) [
          | inl (new, _) ↦ new
          | inr (ne_p, old) ↦
              absurd (ne_p (only.unique q o' le old ∙ sym (only.unique p o p32 there)))
        ];
      }

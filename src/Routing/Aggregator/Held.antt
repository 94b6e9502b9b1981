-- ===== src/Routing/Aggregator/Held.antt =====
-- Carving keeps what a zone holds: where the networks around an address are the zone's from some
-- prefix length on, they stay so.
use native.Mathlib.Decide.{dec_lt, ℕ_discrete}
use leshy.Prelude.{
  ◌⊎◌, ℕ, ◌≡◌, ◌≢◌, ◌≤◌, ◌<◌, refl, sym, ◌∙◌, ap, some, arith, nat_eq, pair_eq, list_eq,
  list_beq_iff, inl, inr, Bool-cases, Option-cases, ◌==◌, List, [], ◌∷◌, In,
}
use leshy.Prelude.Text.{Str}
use leshy.Prelude.Word.{u32_mod}
use leshy.Routing.Prefix.{network_address}
use leshy.Routing.Aggregator.{
  RouteOwner, Progress, install, split, find_covering_from, find_covering_route, carve, carve_all,
}
use leshy.Routing.Aggregator.Covering.{
  Table, entry, find_covering-none, find_covering-some, find_covering_longest,
}
use leshy.Routing.Aggregator.Split.{entry-install_cases}
use leshy.Routing.Aggregator.Effects.{
  some-injective, Refines-entry, after, split-outside, Refines, split-Refines,
}

-- Some network contains the address, and from its prefix length on every one is the zone's.
pub record Held (zone : Str) (a : ℕ) (t : Table) : Type 0 where
  pub level : ℕ
  pub bounded : level ≤ 32
  pub owner : RouteOwner
  pub found : entry a level t ≡ some owner
  pub clean :
      (q : ℕ) (o : RouteOwner) → level ≤ q → q ≤ 32 → entry a q t ≡ some o → o.zone_name ≡ zone

-- The zone's network is then the one with the longest prefix.
pub find-Held :
    (zone : Str) (a : ℕ) (t : Table)
    → Held zone a t
    → (r : (ℕ × ℕ) × RouteOwner) × (find_covering_route a t ≡ some r) × (r.1.zone_name ≡ zone)
unfolding find_covering_route
find-Held zone a t h = elim (Option-cases (find_covering_from 32 a t)) [
  | inl e ↦ absurd (cc (find_covering-none 32 a t h.level e h.bounded, h.found))
  | inr (((net, p), o), e) ↦
      let (p32, at_net, found) = find_covering-some a t net p o 32 e in
      elim (dec_lt p h.level) [
        | yes lt ↦
            absurd (cc (find_covering_longest a t net p o 32 h.level e lt h.bounded, h.found))
        | no ge ↦ (((net, p), o), e, h.clean p o (omega arith) p32 found)
      ]
]

install-Held :
    (zone : Str) (a net p : ℕ) (o : RouteOwner) (s : Progress)
    → o.zone_name ≡ zone
    → Held zone a s.table
    → Held zone a (install net p o s).table
install-Held zone a net p o s same h =
    let (owner, found) = still (entry-install_cases a h.level net p o s) in
    record {
      level = h.level;
      bounded = h.bounded;
      owner = owner;
      found = found;
      clean = λ q o' lo hi e. elim (entry-install_cases a q net p o s) [
        | inl new ↦ ap (λ (x : RouteOwner). x.zone_name) (some-injective (sym e ∙ new)) ∙ same
        | inr old ↦ h.clean q o' lo hi (sym old ∙ e)
      ];
    }
  where
    t : Table
    t = (install net p o s).table

    still :
        (entry a h.level t ≡ some o) ⊎ (entry a h.level t ≡ entry a h.level s.table)
        → (owner : RouteOwner) × (entry a h.level t ≡ some owner)
    still (inl new) = (o, new)
    still (inr old) = (h.owner, old ∙ h.found)

module _ (zone : Str) (a : ℕ) (ha : a < u32_mod) where
  split-Held :
      (c : ℕ) (hc : c < u32_mod) (o : RouteOwner) (p : ℕ) (s : Progress)
      → p ≤ 32
      → a ≢ c
      → o.zone_name ≡ zone
      → Held zone a s.table
      → Held zone a (split c (network_address c p) p o s).table
  split-Held c hc o p s p32 ne same h =
      elim (ℕ_discrete (network_address a p) (network_address c p)) [
        | no out ↦ record {
          level = h.level;
          bounded = h.bounded;
          owner = h.owner;
          found = split-outside c hc o p s a ha h.level out ∙ h.found;
          clean =
              λ q o' lo hi e. h.clean q o' lo hi (sym (split-outside c hc o p s a ha q out) ∙ e);
        }
        | yes within ↦ refined (split-Refines c hc o p s a ha p32 ne within)
      ]
    where
      refined : Refines c hc o p s a ha → Held zone a (after c hc o p s)
      refined r =
          let clean : (q : ℕ) (o' : RouteOwner)
              → h.level ≤ q
              → q ≤ 32
              → entry a q (after c hc o p s) ≡ some o'
              → o'.zone_name ≡ zone =
            λ q o' lo hi e. elim (Refines-entry c hc o p s a ha r q o' e) [
              | inl (_, new) ↦ ap (λ (x : RouteOwner). x.zone_name) new ∙ same
              | inr (_, old) ↦ h.clean q o' lo hi old
            ] in
          elim (dec_lt r.level h.level) [
            | yes lt ↦ record {
              level = h.level;
              bounded = h.bounded;
              owner = h.owner;
              found = r.kept h.level (omega arith) (omega (arith, r.longer)) ∙ h.found;
              clean = clean;
            }
            | no ge ↦ record {
              level = r.level;
              bounded = r.bounded;
              owner = o;
              found = r.gained;
              clean = λ q o' lo. clean q o' (omega arith);
            }
          ]

  carve-Held :
      (c : ℕ)
      → c < u32_mod
      → a ≢ c
      → (s : Progress) → Held zone a s.table
      → Held zone a (carve zone c s).table
  unfolding carve find_covering_route
  carve-Held c hc ne s h = elim (Option-cases (find_covering_from 32 c s.table)) [
    | inl e ↦ rw (e, carve) h
    | inr (((net, p), o), e) ↦
        let (p32, at_net, _) = find_covering-some c s.table net p o 32 e in
        rw (e, carve)
          (elim (Bool-cases (o.zone_name == zone)) [
            | inr other ↦ rw other h
            | inl same ↦
                rw (same, at_net)
                  (split-Held c hc o p s p32 ne ((list_beq_iff o.zone_name zone).0 same) h)
          ])
  ]

  -- Every conflict is another address below 2 ^ 32.
  pub carve_all-Held :
      (conflicts : List (ℕ × Str)) (s : Progress)
      → ((e : ℕ × Str) → In e conflicts → (e.0 < u32_mod) × (a ≢ e.0))
      → Held zone a s.table
      → Held zone a (carve_all zone conflicts s).table
  unfolding carve_all
  carve_all-Held [] s others h = h
  carve_all-Held ((c, z) ∷ conflicts) s others h =
      let (hc, ne) = others (c, z) (inl refl) in
      carve_all-Held conflicts _ (λ e m. others e (inr m)) (carve-Held c hc ne s h)

-- ===== src/Routing/Aggregator/Claims.antt =====
-- A run of `process_ip` from an empty aggregator, against its specification: a map from addresses
-- to owners, in which a resolved address claims its aggregate if nobody owns the address, itself if
-- another zone does, and nothing if its zone does already.
use native.Mathlib.Decide.{ℕ_discrete}
use mathlib.Core.Path.{subst}
use leshy.Prelude.{
  true, ℕ, ◌≡◌, ◌≢◌, ◌≤◌, ◌<◌, refl, sym, ◌∙◌, ap, none, some, arith, nat_eq, pair_eq, list_eq,
  list_beq_iff, Option-cases, inl, inr, eqb, if◌then◌else◌, ◌==◌, Bool-cases, List, [], ◌∷◌, In,
  filter, is_empty, In-filter,
}
use leshy.Prelude.HashMap
use leshy.Prelude.HashMap.{HashMap}
use leshy.Prelude.Text.{Str}
use leshy.Prelude.Word.{u32_mod}
use leshy.Routing.Prefix.{network_address, ip_in_network}
use leshy.Routing.Prefix.Blocks.{network_address-host}
use leshy.Routing.Aggregator.{
  RouteOwner, RouteAggregator, Progress, begin, install, split, find_covering_from,
  find_covering_route, is_conflict, process_uncovered, process_aggregated,
}
use leshy.Routing.Aggregator.Covering.{Table, entry, find_covering-some}
use leshy.Routing.Aggregator.Split.{entry-install}
use leshy.Routing.Aggregator.Owners.{
  Around-entry, Owners, Represents, Around, Around-find, Around-same, Around-install,
  Around-split_self, Around-split, owner_of,
}
use leshy.Routing.Aggregator.Routes.{Iterates, AreAddresses}

pub claim_block : ℕ → ℕ → RouteOwner → Owners → Owners
claim_block prefix_len ip o f a =
    if eqb (network_address a prefix_len) (network_address ip prefix_len) then some o else f a

pub claim_host : ℕ → RouteOwner → Owners → Owners
claim_host ip o f a = if eqb a ip then some o else f a

pub claim : ℕ → ℕ → RouteOwner → Owners → Owners
claim prefix_len ip o f = elim (f ip) [
  | none ↦ claim_block prefix_len ip o f
  | some old ↦ if old.zone_name == o.zone_name then f else claim_host ip o f
]

-- What a run of `process_ip` keeps: the table represents the map, an aggregate has owners
-- everywhere or nowhere, and each known address is owned by its zone.
pub record Keeps (prefix_len : ℕ) (known : HashMap ℕ Str) (t : Table) (f : Owners) : Type 0 where
  pub represents : Represents t f
  pub whole :
      (a b : ℕ)
      → network_address a prefix_len ≡ network_address b prefix_len
      → f a ≡ none
      → f b ≡ none
  pub owned :
      (a : ℕ) (z : Str)
      → HashMap.get a known ≡ some z
      → (o : RouteOwner) × (f a ≡ some o) × (o.zone_name ≡ z)
  pub addresses : AreAddresses known

pub is_empty-In : (xs : List (ℕ × Str)) → ((e : ℕ × Str) → In e xs → ⊥) → is_empty xs ≡ true
is_empty-In [] h = refl
is_empty-In (x ∷ xs) h = absurd (h x (inl refl))

pub is_conflict-true :
    (zone : Str) (net p c : ℕ) (z : Str)
    → is_conflict zone net p (c, z) ≡ true
    → (z ≢ zone) × (network_address c p ≡ net)
unfolding is_conflict ip_in_network
is_conflict-true zone net p c z h = ground (arith, list_beq_iff ⦃e = nat_eq⦄ z zone)

-- The claims of a block, and of a host.
claim_block-inside :
    (p ip a : ℕ) (o : RouteOwner) (f : Owners)
    → network_address a p ≡ network_address ip p
    → claim_block p ip o f a ≡ some o
unfolding claim_block
claim_block-inside p ip a o f e = ground arith

claim_block-outside :
    (p ip a : ℕ) (o : RouteOwner) (f : Owners)
    → network_address a p ≢ network_address ip p
    → claim_block p ip o f a ≡ f a
unfolding claim_block
claim_block-outside p ip a o f e = ground arith

claim_host_self : (ip : ℕ) (o : RouteOwner) (f : Owners) → claim_host ip o f ip ≡ some o
unfolding claim_host
claim_host_self ip o f = ground arith

claim_host-other : (ip a : ℕ) (o : RouteOwner) (f : Owners) → a ≢ ip → claim_host ip o f a ≡ f a
unfolding claim_host
claim_host-other ip a o f e = ground arith

module _ (p : ℕ) (p32 : p < 32) (ip : ℕ) (hip : ip < u32_mod) (o : RouteOwner)
    (known : HashMap ℕ Str) (t : Table) (f : Owners) (k : Keeps p known t f) where
  abbrev noting : HashMap ℕ Str
  noting = HashMap.insert ip o.zone_name known

  abbrev noted : RouteAggregator
  noted = record { installed = t; known_ips = noting; prefix_len = p }

  noting-AreAddresses : AreAddresses noting
  noting-AreAddresses a z e =
      ground (arith, HashMap.get-insert ip a o.zone_name known, k.addresses a z)

  -- The zone owns the address, and what was known keeps an owner that a map `g` also gives.
  noting-owned :
      (g : Owners)
      → (r : RouteOwner) → g ip ≡ some r
      → r.zone_name ≡ o.zone_name
      → ((a : ℕ) (r' : RouteOwner) → ip ≢ a → f a ≡ some r' → g a ≡ some r')
      → (a : ℕ) (z : Str) → HashMap.get a noting ≡ some z
      → (o' : RouteOwner) × (g a ≡ some o') × (o'.zone_name ≡ z)
  noting-owned g r here same rest a z e =
      elim (HashMap.get-insert_cases ip a o.zone_name z known e) [
        | inl (at_ip, zone) ↦ (r, ap g (sym at_ip) ∙ here, same ∙ zone)
        | inr (ne, old) ↦ let (o', owned, his) = k.owned a z old in (o', rest a o' ne owned, his)
      ]

  module _ (free : f ip ≡ none) where
    free_block : (a : ℕ) → network_address a p ≡ network_address ip p → f a ≡ none
    free_block a e = k.whole ip a (sym e) free

    pub no_conflict :
        (iter : HashMap ℕ Str → List (ℕ × Str))
        → Iterates iter
        → (e : ℕ × Str)
        → In e (filter (is_conflict o.zone_name (network_address ip p) p) (iter noting))
        → ⊥
    no_conflict iter iterates (c, z) m =
        let net = network_address ip p in
        let (listed, test) = In-filter (is_conflict o.zone_name net p) (c, z) (iter noting) m in
        let (other, inside) = is_conflict-true o.zone_name net p c z test in
        elim (HashMap.get-insert_cases ip c o.zone_name z known (iterates noting c z listed)) [
          | inl (_, zone) ↦ other (sym zone)
          | inr (_, old) ↦
              let (o', owned, _) = k.owned c z old in
              let nobody = free_block c inside in cc (owned, nobody)
        ]

    claim_block-Represents :
        Represents (install (network_address ip p) p o (begin noted)).table (claim_block p ip o f)
    claim_block-Represents a ha = elim (ℕ_discrete (network_address a p) (network_address ip p)) [
      | yes inside ↦ rw (claim_block-inside p ip a o f inside) (
          Around-install a (network_address ip p) p o (begin noted) (omega arith) inside
            (subst (Around a t) (free_block a inside) (k.represents a ha)))
      | no out ↦ rw (claim_block-outside p ip a o f out) (
          Around-same a t _ (f a)
            (λ q.
              entry-install a q (network_address ip p) p o (begin noted)
                (λ e q_eq. out (ap (network_address a) (sym q_eq) ∙ e)))
            (k.represents a ha))
    ]

    claim_block-whole :
        (a b : ℕ)
        → network_address a p ≡ network_address b p
        → claim_block p ip o f a ≡ none
        → claim_block p ip o f b ≡ none
    claim_block-whole a b e h = elim (ℕ_discrete (network_address a p) (network_address ip p)) [
      | yes inside ↦ cc (claim_block-inside p ip a o f inside, h)
      | no out ↦
          claim_block-outside p ip b o f (λ inside. out (e ∙ inside))
          ∙ k.whole a b e (sym (claim_block-outside p ip a o f out) ∙ h)
    ]

    claim_block-rest :
        (a : ℕ) (r : RouteOwner) → ip ≢ a → f a ≡ some r → claim_block p ip o f a ≡ some r
    claim_block-rest a r ne e = elim (ℕ_discrete (network_address a p) (network_address ip p)) [
      | yes inside ↦ cc (free_block a inside, e)
      | no out ↦ claim_block-outside p ip a o f out ∙ e
    ]

    process_uncovered-Keeps :
        (iter : HashMap ℕ Str → List (ℕ × Str))
        → Iterates iter
        → Keeps p noting (process_uncovered iter noted ip o).table (claim_block p ip o f)
    unfolding process_uncovered
    process_uncovered-Keeps iter iterates = rw (is_empty-In _ (no_conflict iter iterates)) (record {
      represents = claim_block-Represents;
      whole = claim_block-whole;
      owned =
          noting-owned (claim_block p ip o f) o (claim_block-inside p ip ip o f refl) refl
            claim_block-rest;
      addresses = noting-AreAddresses;
    })

  module _ (q : ℕ) (q32 : q ≤ 32) (old : RouteOwner) (here : entry ip q t ≡ some old) where
    abbrev taken : Progress
    taken = install ip 32 o (split ip (network_address ip q) q old (begin noted))

    owned_here : f ip ≡ some old
    owned_here = Around-entry ip t (f ip) q old (k.represents ip hip) q32 here

    claim_host-Represents : Represents taken.table (claim_host ip o f)
    claim_host-Represents a ha = elim (ℕ_discrete a ip) [
      | yes same ↦ rw same (
          rw (claim_host_self ip o f) (
            Around-install ip ip 32 o _ (omega arith) (network_address-host ip hip) (
              Around-split_self ip hip old q q32 (begin noted) here
                (subst (Around ip t) owned_here (k.represents ip hip)))))
      | no ne ↦ rw (claim_host-other ip a o f ne) (
          Around-same a _ _ (f a)
            (λ r. entry-install a r ip 32 o _ (λ e r_eq.
              ne (sym (network_address-host a ha) ∙ ap (network_address a) (sym r_eq) ∙ e)))
            (Around-split ip hip old q q32 (begin noted) here a ha ne (f a) (k.represents a ha)))
    ]

    claim_host-whole :
        (a b : ℕ)
        → network_address a p ≡ network_address b p
        → claim_host ip o f a ≡ none
        → claim_host ip o f b ≡ none
    claim_host-whole a b e h = elim (ℕ_discrete a ip) [
      | yes same ↦ cc (h, ap (claim_host ip o f) same, claim_host_self ip o f)
      | no ne ↦
          let bare = k.whole a b e (sym (claim_host-other ip a o f ne) ∙ h) in
          elim (ℕ_discrete b ip) [
            | yes same ↦ cc (bare, ap f same, owned_here)
            | no b_ne ↦ claim_host-other ip b o f b_ne ∙ bare
          ]
    ]

    taken-Keeps : Keeps p noting taken.table (claim_host ip o f)
    taken-Keeps = record {
      represents = claim_host-Represents;
      whole = claim_host-whole;
      owned =
          noting-owned (claim_host ip o f) o (claim_host_self ip o f) refl
            (λ a r ne e. claim_host-other ip a o f (λ same. ne (sym same)) ∙ e);
      addresses = noting-AreAddresses;
    }

  -- One step of the aggregator is one step of its specification.
  pub process_aggregated-Keeps :
      (iter : HashMap ℕ Str → List (ℕ × Str))
      → Iterates iter
      → Keeps p noting (process_aggregated iter noted ip o).table (claim p ip o f)
  unfolding process_aggregated find_covering_route claim
  process_aggregated-Keeps iter iterates = elim (Option-cases (find_covering_from 32 ip t)) [
    | inl e ↦
        let free : f ip ≡ none =
          sym (Around-find ip t (f ip) (k.represents ip hip)) ∙ ap owner_of e in
        rw (e, process_aggregated) (rw (free, claim) (process_uncovered-Keeps free iter iterates))
    | inr (((net, q), old), e) ↦
        let (q32, at_net, here) = find_covering-some ip t net q old 32 e in
        let owned = owned_here q q32 old here in
        rw (e, process_aggregated)
          (rw (owned, claim)
            (elim (Bool-cases (old.zone_name == o.zone_name)) [
              | inl same ↦ rw same (record {
                represents = k.represents;
                whole = k.whole;
                owned =
                    noting-owned f old owned ((list_beq_iff old.zone_name o.zone_name).0 same)
                      (λ a r ne e'. e');
                addresses = noting-AreAddresses;
              })
              | inr other ↦ rw (other, at_net) (taken-Keeps q q32 old here)
            ]))
  ]

-- ===== src/Zones/Excluded.antt =====
-- The CIDR ranges of an exclusive zone.
use leshy.Prelude.{
  ℕ, ◌≡◌, sym, ◌∙◌, inl, inr, ◌↔◌, true, Option, none, some, List, arith, eqb_iff, ltb,
  if◌then◌else◌, In, any-In, any_of_In, filter_map, In-filter_map, filter_map_of_In, Option-cases,
}
use leshy.Prelude.Text.{Str, split_once}
use leshy.Config.{v4}
use leshy.Net.{parse_v4, parse_u8}
use leshy.Routing.Prefix.{network_address, ip_in_network}
use leshy.Zones.{CidrRange, contains_v4, MatchedZone, is_excluded, cidr_range, parse_cidr_range}

-- What a CIDR text denotes: a base address and a prefix length of at most 32 bits.
unfoldable pub cidr_parts : Str → Option (Str × ℕ)
cidr_parts cidr = elim (split_once b'/' cidr) [
  | none ↦ some (cidr, 32)
  | some (ip, prefix) ↦ elim (parse_u8 prefix) [
    | none ↦ none
    | some p ↦ if ltb 32 p then none else some (ip, p)
  ]
]

-- The address shares the prefix of the network that the text denotes.
abbrev pub InRange : Str → ℕ → Type 0
InRange cidr ip =
    (text : Str) × (p : ℕ) × (base : ℕ) × (cidr_parts cidr ≡ some (text, p))
    × (parse_v4 text ≡ some base)
    × (network_address ip p ≡ network_address base p)

cidr_range-contains :
    (text : Str) (p ip base : ℕ) (range : CidrRange)
    → cidr_range text p ≡ some range
    → parse_v4 text ≡ some base
    → contains_v4 range ip ≡ ip_in_network ip (network_address base p) p
unfolding cidr_range contains_v4 ip_in_network network_address
cidr_range-contains text p ip base range h e = ground arith

parse_cidr_range-parts :
    (cidr text : Str) (p : ℕ)
    → cidr_parts cidr ≡ some (text, p)
    → parse_cidr_range cidr ≡ cidr_range text p
unfolding parse_cidr_range cidr_parts
parse_cidr_range-parts cidr text p h = ground arith

parse_cidr_range-none : (cidr : Str) → cidr_parts cidr ≡ none → parse_cidr_range cidr ≡ none
unfolding parse_cidr_range cidr_parts
parse_cidr_range-none cidr h = ground arith

parts_of_range :
    (cidr : Str) (range : CidrRange)
    → parse_cidr_range cidr ≡ some range
    → (text : Str) × (p : ℕ) × (cidr_parts cidr ≡ some (text, p)) × (cidr_range text p ≡ some range)
parts_of_range cidr range h = elim (Option-cases (cidr_parts cidr)) [
  | inl e ↦ cc (parse_cidr_range-none cidr e, h)
  | inr ((text, p), e) ↦ (text, p, e, sym (parse_cidr_range-parts cidr text p e) ∙ h)
]

base_of_range :
    (text : Str) (p : ℕ) (range : CidrRange)
    → cidr_range text p ≡ some range
    → (base : ℕ) × (parse_v4 text ≡ some base)
unfolding cidr_range
base_of_range text p range h = ground arith

range_of_base :
    (text : Str) (p base : ℕ)
    → parse_v4 text ≡ some base
    → (range : CidrRange) × (cidr_range text p ≡ some range)
unfolding cidr_range
range_of_base text p base h = elim (Option-cases (cidr_range text p)) [
  | inl e ↦ absurd (ground arith)
  | inr found ↦ found
]

-- An IPv4 address is excluded exactly when it shares the prefix of one of the zone's ranges; texts
-- that denote no range exclude nothing.
pub is_excluded_iff :
    (zone : MatchedZone) (routes : List Str) (ip : ℕ)
    → zone.excluded_cidrs ≡ filter_map parse_cidr_range routes
    → (is_excluded zone (v4 ip) ≡ true) ↔ ((cidr : Str) × In cidr routes × InRange cidr ip)
unfolding is_excluded ip_in_network
is_excluded_iff zone routes ip e = (to, from)
  where
    to : is_excluded zone (v4 ip) ≡ true → (cidr : Str) × In cidr routes × InRange cidr ip
    to h =
        let (range, m, t) = any-In (λ (r : CidrRange). contains_v4 r ip) zone.excluded_cidrs h in
        let (cidr, m', parsed) = In-filter_map parse_cidr_range range routes (rw e at m) in
        let (text, p, parts, built) = parts_of_range cidr range parsed in
        let (base, at_base) = base_of_range text p range built in
        let same = cidr_range-contains text p ip base range built at_base in
        (cidr, m', (text, p, base, parts, at_base, (eqb_iff _ _).0 (sym same ∙ t)))

    from : (cidr : Str) × In cidr routes × InRange cidr ip → is_excluded zone (v4 ip) ≡ true
    from (cidr, m, (text, p, base, parts, at_base, shared)) =
        let (range, built) = range_of_base text p base at_base in
        let parsed = parse_cidr_range-parts cidr text p parts ∙ built in
        rw e (
          any_of_In (λ (r : CidrRange). contains_v4 r ip) range _
            (filter_map_of_In parse_cidr_range cidr range routes m parsed)
            (cidr_range-contains text p ip base range built at_base ∙ (eqb_iff _ _).1 shared))

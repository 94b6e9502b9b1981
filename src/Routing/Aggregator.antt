-- ===== src/Routing/Aggregator.antt =====
-- src/routing/aggregator.rs, lines 1-293: `RouteAggregator`, the table of installed networks, and
-- the kernel actions that each resolved address asks for.
-- A method returns the new state beside its result. The two halving loops of `process_ip` are the
-- one loop `split_loop`, over the owner of the network that is split.
pub mod Replay
pub mod Covering
pub mod Split
pub mod Effects
pub mod Held
pub mod Routes
pub mod Owners
pub mod Claims
pub mod Run
pub mod WellFormed
pub mod Disabled
pub mod Fresh
use leshy.Prelude.{
  ℕ, zero, suc, ◌+◌, Bool, not, ◌&&◌, Option, none, some, List, [], ◌∷◌, ◌++◌, ltb, leb,
  if◌then◌else◌, ◌==◌, filter, is_empty, nat_eq, list_eq, pair_eq,
}
use leshy.Prelude.HashMap
use leshy.Prelude.HashMap.{HashMap}
use leshy.Prelude.Text.{Str}
use leshy.Config.{RouteType}
use leshy.Routing.Prefix.{network_address, split_network, ip_in_network}

pub data RouteAction : Type 0 where
  add : ℕ → ℕ → RouteType → Str → RouteAction
  remove : ℕ → ℕ → RouteAction

pub record RouteOwner : Type 0 where
  pub zone_name : Str
  pub route_type : RouteType
  pub route_target : Str

pub record RouteAggregator : Type 0 where
  pub installed : HashMap (ℕ × ℕ) RouteOwner
  pub known_ips : HashMap ℕ Str
  pub prefix_len : ℕ

unfoldable pub new : Option ℕ → RouteAggregator
new prefix_len = record {
  installed = [];
  known_ips = [];
  prefix_len = elim prefix_len [ none ↦ 32 | some p ↦ p ];
}

-- `installed` and `actions`, the two variables that the loops of `process_ip` change
pub record Progress : Type 0 where
  pub table : HashMap (ℕ × ℕ) RouteOwner
  pub actions : List RouteAction

-- `installed.insert` and `actions.push(RouteAction::Add …)`
unfoldable pub install : ℕ → ℕ → RouteOwner → Progress → Progress
install net prefix owner s = record {
  table = HashMap.insert (net, prefix) owner s.table;
  actions = s.actions ++ add net prefix owner.route_type owner.route_target ∷ [];
}

-- `installed.remove` and `actions.push(RouteAction::Remove …)`
unfoldable pub uninstall : ℕ → ℕ → Progress → Progress
uninstall net prefix s = record {
  table = HashMap.remove (net, prefix) s.table;
  actions = s.actions ++ remove net prefix ∷ [];
}

-- The half that contains the address, and its sibling.
unfoldable pub split_around : ℕ → ℕ → ℕ → ℕ × ℕ
split_around ip cur_net cur_prefix =
    let (left, right) = split_network cur_net cur_prefix in
    if ip_in_network ip left (cur_prefix + 1) then (left, right) else (right, left)

-- `while cur_prefix < 32`, with the fuel first
unfoldable pub split_loop : ℕ → ℕ → RouteOwner → ℕ → ℕ → Progress → Progress
split_loop zero ip owner cur_net cur_prefix s = s
split_loop (suc fuel) ip owner cur_net cur_prefix s =
    let (contains_ip, sibling) = split_around ip cur_net cur_prefix in
    let child_prefix = cur_prefix + 1 in
    let rest =
      split_loop fuel ip owner contains_ip child_prefix (install sibling child_prefix owner s) in
    if ltb cur_prefix 32 then rest else s

-- Takes an installed network out and puts the halves around the address in its place. A prefix
-- has at most 32 rounds.
unfoldable pub split : ℕ → ℕ → ℕ → RouteOwner → Progress → Progress
split ip net prefix owner s = split_loop 32 ip owner net prefix (uninstall net prefix s)

-- the loop `for prefix in (0..=32).rev()`, from `prefix` down
unfoldable pub find_covering_from :
    ℕ → ℕ → HashMap (ℕ × ℕ) RouteOwner → Option ((ℕ × ℕ) × RouteOwner)
find_covering_from zero ip installed =
    let net = network_address ip 0 in
    elim (HashMap.get (net, 0) installed) [ some owner ↦ some ((net, 0), owner) | none ↦ none ]
find_covering_from (suc prefix) ip installed =
    let net = network_address ip (suc prefix) in
    let rest = find_covering_from prefix ip installed in
    elim (HashMap.get (net, suc prefix) installed) [
      | some owner ↦ some ((net, suc prefix), owner)
      | none ↦ rest
    ]

unfoldable pub find_covering_route : ℕ → HashMap (ℕ × ℕ) RouteOwner → Option ((ℕ × ℕ) × RouteOwner)
find_covering_route ip installed = find_covering_from 32 ip installed

-- The body of the loop over the conflicts.
unfoldable pub carve : Str → ℕ → Progress → Progress
carve zone_name conflict_ip s = elim (find_covering_route conflict_ip s.table) [
  | none ↦ s
  | some ((cov_net, cov_prefix), cov_owner) ↦
      if cov_owner.zone_name == zone_name
      then split conflict_ip cov_net cov_prefix cov_owner s
      else s
]

unfoldable pub carve_all : Str → List (ℕ × Str) → Progress → Progress
carve_all zone_name [] s = s
carve_all zone_name ((conflict_ip, conflict_zone) ∷ conflicts) s =
    carve_all zone_name conflicts (carve zone_name conflict_ip s)

-- The filter on `known_ips`: addresses of other zones inside the new aggregate.
unfoldable pub is_conflict : Str → ℕ → ℕ → ℕ × Str → Bool
is_conflict zone_name agg_net prefix_len (known_ip, known_zone) =
    not (known_zone == zone_name) && ip_in_network known_ip agg_net prefix_len

abbrev pub begin : RouteAggregator → Progress
begin agg = record { table = agg.installed; actions = [] }

-- lines 63-82: aggregation is disabled
unfoldable pub process_host : RouteAggregator → ℕ → RouteOwner → Progress
process_host agg ip owner =
    if HashMap.contains_key (ip, 32) agg.installed
    then begin agg
    else install ip 32 owner (begin agg)

-- The order in which `known_ips.iter()` yields the entries is the hash map's: it is `iter`.
module _ (iter : HashMap ℕ Str → List (ℕ × Str)) where
  -- lines 158-264: no installed network covers the address
  unfoldable pub process_uncovered : RouteAggregator → ℕ → RouteOwner → Progress
  process_uncovered agg ip owner =
      let agg_net = network_address ip agg.prefix_len in
      let conflicts =
        filter (is_conflict owner.zone_name agg_net agg.prefix_len) (iter agg.known_ips) in
      let added = install agg_net agg.prefix_len owner (begin agg) in
      if is_empty conflicts then added else carve_all owner.zone_name conflicts added

  -- lines 85-156 and on: aggregation is enabled
  unfoldable pub process_aggregated : RouteAggregator → ℕ → RouteOwner → Progress
  process_aggregated agg ip owner = elim (find_covering_route ip agg.installed) [
    | none ↦ process_uncovered agg ip owner
    | some ((old_net, old_prefix), old_owner) ↦
        if old_owner.zone_name == owner.zone_name
        then begin agg
        else install ip 32 owner (split ip old_net old_prefix old_owner (begin agg))
  ]

  unfoldable pub process_ip :
      RouteAggregator → ℕ → Str → RouteType → Str → RouteAggregator × List RouteAction
  process_ip self ip zone_name route_type route_target =
      let owner : RouteOwner = record {
        zone_name = zone_name;
        route_type = route_type;
        route_target = route_target;
      } in
      let agg = record self { known_ips = HashMap.insert ip zone_name self.known_ips } in
      let done =
        if leb 32 agg.prefix_len
        then process_host agg ip owner
        else process_aggregated agg ip owner in
      (record agg { installed = done.table }, done.actions)

unfoldable pub register_static_ip : RouteAggregator → ℕ → Str → RouteAggregator
register_static_ip self ip zone_name = record self {
  known_ips = HashMap.insert ip zone_name self.known_ips;
}

unfoldable pub cleanup_zone : RouteAggregator → Str → RouteAggregator
cleanup_zone self zone_name = record self {
  installed = HashMap.retain (λ owner. not (owner.zone_name == zone_name)) self.installed;
  known_ips = HashMap.retain (λ zone. not (zone == zone_name)) self.known_ips;
}

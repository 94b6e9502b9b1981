-- ===== src/Tests/Fixtures.antt =====
-- The data of the tests: two zones, a kernel, an order of iteration.
use leshy.Prelude.{
  ℕ, ap, true, not, Option, none, some, List, [], ◌∷◌, arith, inl, inr, filter, In-filter, eqb,
  nat_eq, any, list_eq, ◌==◌,
}
use leshy.Prelude.HashMap
use leshy.Prelude.HashMap.{HashMap}
use leshy.Prelude.Results.{ok, err}
use leshy.Prelude.Text.{Str}
use leshy.Config.{
  ZoneConfig, ServerConfig, Config, ZoneMode, via, dev, udp, servfail, v4, v6, IpAddr, SocketAddr,
}
use leshy.Zones.{RegexEngine}
use leshy.Routing.Aggregator.{RouteOwner, RouteAction, add, remove}
use leshy.Routing.Aggregator.Replay.{Kernel, apply_action}
use leshy.Routing.Aggregator.Routes.{Iterates}
use leshy.Routing.Manager.{RouteAdder, RouteManager, FileRead, content, adder_failed}

-- An order of iteration: as the entries stand, each key once.
abbrev pub entries : HashMap ℕ Str → List (ℕ × Str)
entries [] = []
entries ((k, v) ∷ m) = (k, v) ∷ filter (λ e. not (eqb e.0 k)) (entries m)

pub entries-Iterates : Iterates entries
unfolding HashMap.get
entries-Iterates [] k v m = elim m [ ]
entries-Iterates ((j, w) ∷ m) k v (inl same) =
    let key = ap (λ (e : ℕ × Str). e.0) same in
    let value = ap (λ (e : ℕ × Str). e.1) same in ground arith
entries-Iterates ((j, w) ∷ m) k v (inr at) =
    let (there, differs) = In-filter (λ e. not (eqb e.0 j)) (k, v) (entries m) at in
    let ih = entries-Iterates m k v there in ground arith

abbrev pub work : Str
work = b'w' ∷ []

abbrev pub home : Str
home = b'h' ∷ []

abbrev pub work_owner : RouteOwner
work_owner = record { zone_name = work; route_type = via; route_target = b'1' ∷ [] }

abbrev pub home_owner : RouteOwner
home_owner = record { zone_name = home; route_type = dev; route_target = b'/' ∷ [] }

abbrev pub zone : Str → ZoneMode → List Str → List Str → ZoneConfig
zone name mode domains static_routes = record {
  name = name;
  mode = mode;
  dns_servers = [];
  route_type = via;
  route_target = b'1' ∷ [];
  domains = domains;
  patterns = [];
  static_routes = static_routes;
  dns_protocol = udp;
  cache_min_ttl = none;
  cache_max_ttl = none;
  cache_negative_ttl = none;
}

-- 10.0.0.1:53
abbrev pub resolver : SocketAddr
resolver = record { ip = v4 167772161; port = 53 }

abbrev pub server : ℕ → ServerConfig
server low = record {
  listen_address = resolver;
  default_upstream = resolver ∷ resolver ∷ [];
  route_failure_mode = servfail;
  auto_reload = true;
  config_dir = none;
  cache_size = 2;
  cache_min_ttl = low;
  cache_max_ttl = 3600;
  cache_negative_ttl = 30;
  route_aggregation_prefix = some 24;
}

abbrev pub config : List ZoneConfig → Config
config zones = record { server = server 60; zones = zones }

abbrev pub number : IpAddr → ℕ
number (v4 n) = n
number (v6 n) = n

-- What a kernel that has a route of the network already does with another one.
unfoldable pub kept : RouteAction → ℕ × ℕ → Kernel → Kernel
kept a key k = elim (k key) [ none ↦ apply_action a k | some old ↦ k ]

-- A kernel that is its table and keeps a route that it has, which it reports as a success, and one
-- that refuses every call.
abbrev pub table_adder : RouteAdder Kernel
table_adder = record {
  add_via_route =
      λ k ip len gateway. (kept (add (number ip) len via gateway) (number ip, len) k, ok tt);
  add_dev_route =
      λ k ip len device. (kept (add (number ip) len dev device) (number ip, len) k, ok tt);
  remove_route = λ k ip len. (apply_action (remove (number ip) len) k, ok tt);
}

abbrev pub refusing_adder : RouteAdder Kernel
refusing_adder = record {
  add_via_route = λ k ip len gateway. (k, err (adder_failed []));
  add_dev_route = λ k ip len device. (k, err (adder_failed []));
  remove_route = λ k ip len. (k, err (adder_failed []));
}

abbrev pub files : Str → FileRead
files path = content (b't' ∷ b'u' ∷ b'n' ∷ 10 ∷ [])

abbrev pub no_v6 : Str → Option ℕ
no_v6 s = none

abbrev pub manager : RouteManager Kernel
manager = record {
  kernel = λ key. none;
  zone_routes = [];
  aggregator = record { installed = []; known_ips = []; prefix_len = 24 };
}

-- A regex engine whose patterns are plain texts.
abbrev pub plain : RegexEngine
plain = record {
  RegexSet = List Str;
  new_set = λ patterns. some patterns;
  is_match = λ set s. any (λ p. p == s) set;
  is_regex = λ p. true;
}

abbrev pub lower : Str → Str
lower s = s

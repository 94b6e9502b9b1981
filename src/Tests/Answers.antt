-- ===== src/Tests/Answers.antt =====
-- The cache and the request handler at concrete inputs.
use leshy.Prelude.{
  ℕ, In, ◌⊎◌, ◌≢◌, ◌-◌, ◌≡◌, ◌≤◌, ◌<◌, refl, none, some, List, [], ◌∷◌, arith, nat_eq, list_eq,
  ◌==◌, true, not, ◌&&◌, length, filter, if◌then◌else◌, ltb,
}
use leshy.Prelude.HashMap
use leshy.Prelude.HashMap.{IsDistinct}
use leshy.Prelude.Results.{Result, ok, err}
use leshy.Prelude.Text.{codes}
use leshy.Config.{v4, v6, SocketAddr, exclusive, DnsProtocol}
use leshy.Zones.{find_zone, is_excluded, first_match, MatchedZone}
use leshy.Routing.Aggregator.Replay.{Kernel}
use leshy.Dns.Cache
use leshy.Dns.Cache.{DnsCache, CacheKey, lookup, insert, key_of, key_eq}
use leshy.Dns.Cache.Live.{live, accepts, lookup-live, insert-live}
use leshy.Dns.Cache.Bound.{Call, get, put, wipe, run, run_bounded}
use leshy.Dns.Message.{Hickory, Record}
use leshy.Dns.Upstream.{
  upstreams, default_upstreams, failover, is_refusal, is_code, resolve_cache_ttl, cascade, clamp,
  min_ttl_of, server_setting, zone_setting,
}
use leshy.Dns.Upstream.Failover.{Outcome, failover-Outcome}
use leshy.Dns.Upstream.Ttl.{by_default, resolve_cache_ttl-settles}
use leshy.Dns.Handler.{
  DnsHandler, Request, built, handle_request, update_config, matched_config, has_static_routes,
  run_task, apply_static_routes,
}
use leshy.Dns.Handler.Again.{handle_request-again}
use leshy.Dns.Handler.Static.{
  add_all, update_config-cache, run_task-filter, apply_static_routes-none,
}
use leshy.Tests.Fixtures.{
  plain, lower, zone, config, server, work, home, entries, table_adder, files, no_v6, manager,
  resolver,
}

-- A message is its code and its records.
abbrev pub hickory : Hickory
hickory = record {
  Message = ℕ × List Record;
  Header = ℕ;
  RecordType = ℕ;
  type_eq = nat_eq;
  ResponseCode = ℕ;
  code_eq = nat_eq;
  serv_fail = 2;
  refused = 5;
  nx_domain = 3;
  not_imp = 4;
  response_code = λ m. m.0;
  answers = λ m. m.1;
  header = λ m. 0;
  set_id = λ id h. id;
}

abbrev answer : Record
answer = record { address = some (v4 167772161); ttl = 300 }

abbrev message : ℕ × List Record
message = (0, answer ∷ [])

abbrev pub handler : DnsHandler lower plain hickory Kernel
handler = record {
  config = config [];
  matcher = [];
  route_manager = manager;
  cache = record { entries = []; max_entries = 2 };
}

abbrev request : ℕ → Request lower plain hickory Kernel
request id = record { id = id; is_query = true; qname = codes "a.b."; qtype = 1 }

-- The first server refuses, the second answers.
abbrev query : DnsProtocol → ℕ → SocketAddr → Result (ℕ × List Record) ℕ
query protocol i address = if ltb 0 i then ok message else ok (5, [])

abbrev silent : DnsProtocol → ℕ → SocketAddr → Result (ℕ × List Record) ℕ
silent protocol i address = err 2

handle_request-again_example :
    (handle_request lower plain hickory Kernel silent 200
      (handle_request lower plain hickory Kernel query 100 handler (request 7)).handler
      (request 8)).reply
    ≡ built 8 message
unfolding lookup HashMap.get failover find_zone first_match upstreams default_upstreams is_refusal
    is_code resolve_cache_ttl cascade clamp min_ttl_of server_setting zone_setting Cache.is_enabled
    Cache.sweep HashMap.contains_key matched_config
handle_request-again_example =
    handle_request-again lower plain hickory Kernel query silent 100 200 300 handler (request 7)
      (request 8) message none (record { bounded = omega arith; distinct = HashMap.always })
      (omega arith) (omega arith) refl refl refl refl refl refl refl refl refl

failover-Outcome_example :
    Outcome hickory
      (query DnsProtocol.udp)
      0
      2
      ((resolver, none) ∷ (resolver, none) ∷ [])
      (failover hickory (query DnsProtocol.udp) 0 2 ((resolver, none) ∷ (resolver, none) ∷ []))
failover-Outcome_example =
    failover-Outcome hickory (query DnsProtocol.udp) 0 2 ((resolver, none) ∷ (resolver, none) ∷ [])

-- The least time is above the greatest, with no server's and no zone's settings.
resolve_cache_ttl-settles_example :
    (((hickory.response_code message ≡ hickory.nx_domain) ⊎ (hickory.answers message ≡ []))
      × (resolve_cache_ttl hickory none none (server 7200) message ≡ some 30))
    ⊎ ((hickory.response_code message ≢ hickory.nx_domain)
        × (hickory.answers message ≢ [])
        × ((3600 < 7200) × (resolve_cache_ttl hickory none none (server 7200) message ≡ none)
            ⊎ ((t : ℕ) × (resolve_cache_ttl hickory none none (server 7200) message ≡ some t)
                × (7200 ≤ t)
                × (t ≤ 3600)
                × ((t ≡ 7200) ⊎ ((r : Record) → In r (hickory.answers message) → t ≤ r.ttl)))))
resolve_cache_ttl-settles_example =
    resolve_cache_ttl-settles hickory none none (server 7200) message 7200 3600 30
      (by_default none none tt tt) (by_default none none tt tt) (by_default none none tt tt)

abbrev cache : DnsCache ℕ ℕ
cache = record { entries = []; max_entries = 1 }

abbrev asked : CacheKey ℕ
asked = key_of lower work 1

insert-live_example : live 12 (insert lower 10 work 1 99 5 cache) asked ≡ (
    if accepts lower 10 asked cache && asked == asked
    then (if ltb (12 - 10) 5 then some 99 else none)
    else live 12 cache asked)
insert-live_example =
    insert-live lower 10 12 work 1 99 5 cache asked
      (record { bounded = omega arith; distinct = HashMap.always }) (omega arith)

lookup-live_example :
    ((lookup lower 10 work 1 cache).0 ≡ live 10 cache (key_of lower work 1))
    × (live 12 (lookup lower 10 work 1 cache).1 (key_of lower home 1)
        ≡ live 12 cache (key_of lower home 1))
lookup-live_example = lookup-live lower 10 12 work 1 cache (key_of lower home 1) (omega arith)

abbrev calls : List (Call ℕ ℕ)
calls = put 10 work 1 99 5 ∷ put 11 home 1 98 5 ∷ get 30 work 1 ∷ wipe ∷ []

run_bounded_example :
    (length (run lower calls (Cache.new 1)).entries ≤ 1)
    × IsDistinct (run lower calls (Cache.new 1)).entries
run_bounded_example = run_bounded lower 1 calls

update_config-cache_applied :
    (update_config lower plain hickory Kernel handler (config []) []).cache ≡ Cache.new 2
update_config-cache_applied =
    update_config-cache lower plain hickory Kernel handler (config []) [] refl

abbrev matched : MatchedZone
matched = record {
  config = zone home exclusive [] [];
  excluded_cidrs = record { network = 167772160; prefix_len = 24 } ∷ [];
}

run_task-filter_applied :
    run_task table_adder entries no_v6 files matched manager (v4 167772161 ∷ v6 1 ∷ [])
    ≡ add_all table_adder entries no_v6 files matched manager
        (filter (λ ip. not (is_excluded matched ip)) (v4 167772161 ∷ v6 1 ∷ []))
run_task-filter_applied =
    run_task-filter table_adder entries no_v6 files matched manager (v4 167772161 ∷ v6 1 ∷ [])

apply_static_routes-none_applied :
    apply_static_routes table_adder entries no_v6 files
      (zone home exclusive [] (codes "10.0.0.0/8" ∷ []) ∷ [])
      (manager, 0)
    ≡ (manager, 0)
unfolding has_static_routes
apply_static_routes-none_applied =
    apply_static_routes-none table_adder entries no_v6 files
      (zone home exclusive [] (codes "10.0.0.0/8" ∷ []) ∷ []) (manager, 0) refl

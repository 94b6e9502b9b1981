-- ===== src/Lib.antt =====
-- Leshy, a DNS server that routes the addresses it resolves through the networks of its zones.
--
-- A query is answered from a cache or by the first server that answers; the zone that the name
-- belongs to says which servers are asked and through which network the addresses of the answer are
-- routed. Routes for IPv4 are aggregated: a resolved address installs a wider network, and networks
-- are split where an address inside belongs to another zone. The configuration is read from a file
-- and a directory beside it, and is read again when one of them changes; the handler then takes the
-- new one, but neither its aggregation prefix length nor its listening address.
--
--   Config, Config/Validate    src/config.rs: the configuration's types, and Config::validate
--   Config/Load                src/config.rs: from_file, from_file_with_includes
--   Files                      what the program uses of std::path and std::fs
--   Net                        the parsers of the standard library for addresses and prefix lengths,
--                              and the printers
--   Routing/Prefix             src/routing/aggregator.rs: network_address and its neighbours
--   Routing/Aggregator         src/routing/aggregator.rs: RouteAggregator; process_ip returns the new
--                              state beside the actions for the kernel; WellFormed is the shape of
--                              its table under any history, Run and Disabled are its runs with and
--                              without aggregation, and Fresh is about what its actions add
--   Routing/Manager            src/routing/mod.rs: RouteManager, which carries the actions out; Installs,
--                              in Mirror, is what it relies on in an adder: what a success does to a
--                              network that has no route, and nothing where there is one
--   Routing/Manager/Interleaved
--                              src/routing/mod.rs: calls of add_route_v4 that overlap, as steps
--   Routing/Macos, Linux       src/routing/macos.rs and linux.rs: the two adders behind RouteAdder, as
--                              the command lines and the messages that they make; Linux/Exclusive is
--                              the Linux one behind Installs
--   Zones                      src/zones/matcher.rs: ZoneMatcher, and the addresses a zone excludes
--   Dns/Cache                  src/dns/cache.rs: DnsCache
--   Dns/Upstream, Dns/Handler  src/dns/handler.rs: the failover, the TTL, and DnsHandler
--   Dns/Server                 src/dns/server.rs: DnsServer::new
--   Dns/Transport              src/dns/handler.rs: forward_query and forward_query_tcp
--   Dns/Message                what the handler uses of hickory's types
--   Reload                     src/reload.rs and the reload task of src/main.rs; Applied puts the
--                              watcher and the task together
--   Reload/Watch               src/reload.rs: ConfigWatcher
--   Main                       src/main.rs: the start of the server and retry_static_routes
--   Main/Commands              src/main.rs: the command line and main
--   System                     the running server: requests, tasks, rounds of the retry loop and
--                              reloads as steps on the shared handler, with src/dns/server.rs as the
--                              way in of a request
--   Service                    src/service: the installation as a service of systemd and launchd
--   Prelude                    shared helpers: hash maps as association lists, strings as code
--                              points, results, sorting, masks of 32-bit words
--   Tests                      the theorems at concrete inputs, and runs
--
-- Numbers are natural numbers: a u32 is one below 2 ^ 32, and its complement and shifts are written
-- out. A method that changes its object returns the new one beside its result. What a lock protects
-- is one step. A task that is spawned is a value, and running it is a step of its own. System takes
-- a call of add_route as one step; Interleaved takes it apart, where calls overlap.
--
-- Bounds and fuel. A network is halved at most 32 times, since its prefix length grows to 32. The
-- walk over the suffixes of a name takes at most one round more than the name has characters. The
-- retry loop and the watcher run over a list of rounds or notices, as long as the environment gives;
-- the other loops go down a list or a number.
--
-- Parameters. The regex engine, str::to_lowercase, the parser and the printer of IPv6 addresses,
-- hickory's messages and their encoding, the parser of toml, the order in which a hash map yields
-- its entries, the clock, the file system, the network, what notify reports, and the kernel, behind
-- RouteAdder or behind rtnetlink and /sbin/route, and the host that the service is installed on.
--
-- Not modelled. The binding of the server's socket and hickory's server, the parsing of the command
-- line, which is clap's, the error type of src/error.rs, which nothing uses, and the logging.
pub mod Prelude
pub mod Files
pub mod Config
pub mod Routing
pub mod Net
pub mod Zones
pub mod Dns
pub mod Reload
pub mod Main
pub mod System
pub mod Service
mod Tests

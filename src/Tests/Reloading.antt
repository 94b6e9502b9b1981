-- ===== src/Tests/Reloading.antt =====
-- A change on the disk, from the notice to the handler, and the aggregator of a server that runs.
use leshy.Prelude.{◌≡◌, refl, List, [], ◌∷◌}
use leshy.Prelude.Results.{ok, err}
use mathlib.Core.Path.{subst}
use leshy.Prelude.{ℕ, nat_eq, some, none, true, false, sym, ◌∙◌, ap, inl, inr, arith}
use leshy.Prelude.Text.{codes}
use leshy.Config.{v4, IpAddr, Config}
use leshy.Routing.Aggregator.Replay.{Kernel}
use leshy.Routing.Manager.Shape.{IsAddress}
use leshy.Dns.Message.{Hickory, Record}
use leshy.Dns.Handler
use leshy.Dns.Server
use leshy.Dns.Handler.{DnsHandler, Request, Handled, handle_request, forward}
use leshy.Dns.Handler.Shape.{HasAddresses}
use leshy.Main.{Started, run_server, apply_own_static_routes}
use leshy.System.{serve, after_request, start, next, request}
use leshy.System.Shape.{IsRouted, Reachable-IsRouted}
use leshy.Zones
use leshy.Reload.{Reception, reload_task, apply_config}
use leshy.System.Fresh.{serve-reloaded}
use leshy.Reload.Watch.{watcher, is_change, modify, watch}
use leshy.Reload.Applied.{IsConfigured, received, reload_task-last}
use leshy.Tests.Fixtures.{
  config, lower, plain, table_adder, entries, entries-Iterates, no_v6, files,
}
use leshy.Tests.Answers.{hickory}
use leshy.Tests.Loading.{toml, fs, work_zone, home_zone, path, any_regex, both, loads_both}
use leshy.Tests.Running.{
  looks, changes, breaks, receives, the_watcher, gone_fails, broken_never-Loads, fresh, binds,
  asked, begun, answers, begun_server, TheServer, starts,
}

abbrev receptions : List (Reception lower plain hickory table_adder entries no_v6)
receptions = record { meanwhile = λ h. h; files = files; new_config = both } ∷ []

sent_both :
    received lower plain hickory table_adder entries no_v6 receptions
    ≡ watch toml any_regex the_watcher (looks ∷ changes ∷ breaks ∷ [])
unfolding watch is_change watcher
sent_both = rw (watch, loads_both, gone_fails) refl

reload_task-last_example :
    IsConfigured lower plain hickory table_adder entries no_v6 both
      (reload_task lower plain hickory table_adder entries no_v6 receptions fresh).0
unfolding watcher is_change Zones.new
reload_task-last_example =
    reload_task-last lower plain hickory table_adder entries no_v6 toml the_watcher (looks ∷ [])
      changes both (breaks ∷ [])
      (Zones.zone_of lower plain work_zone [] ∷ Zones.zone_of lower plain home_zone [] ∷ [])
      receptions fresh receives (modify, refl, refl, loads_both) broken_never-Loads refl sent_both

-- hickory with messages that carry one address, whose time to live they are.
abbrev single : Hickory
single = record {
  Message = ℕ;
  Header = ℕ;
  RecordType = ℕ;
  type_eq = nat_eq;
  ResponseCode = ℕ;
  code_eq = nat_eq;
  serv_fail = 2;
  refused = 5;
  nx_domain = 3;
  not_imp = 4;
  response_code = λ m. 0;
  answers = λ m. record { address = some (v4 167772161); ttl = m } ∷ [];
  header = λ m. 0;
  set_id = λ id h. id;
}

single-HasAddresses : HasAddresses single
single-HasAddresses m r ip at e = elim at [
  | inl same ↦
      let is : ip ≡ v4 167772161 =
        some_ip-injective (sym e ∙ ap (λ (x : Record). x.address) same) in
      subst IsAddress (sym is) (omega arith)
  | inr never ↦ elim never [ ]
]
  where
    some_ip-injective : {a b : IpAddr} → some a ≡ some b → a ≡ b
    some_ip-injective h = cc

abbrev single_fresh : DnsHandler lower plain single Kernel
single_fresh =
    Handler.new lower plain single Kernel (λ key. none) both
      (Zones.zone_of lower plain work_zone [] ∷ Zones.zone_of lower plain home_zone [] ∷ [])

abbrev single_begun : Started lower plain single table_adder entries no_v6
single_begun = record { handler = single_fresh; retries = false; watches = true }

single_starts :
    run_server lower plain single table_adder entries no_v6 fs toml files
      (ok (λ key. none))
      binds
      path
    ≡ ok single_begun
unfolding Server.new run_server apply_own_static_routes Handler.apply_static_routes
    Handler.apply_zone Zones.new Handler.new
single_starts = rw (run_server, loads_both) refl

abbrev question : Request lower plain single Kernel
question = record { id = 7; is_query = true; qname = codes "x.a.b."; qtype = 1 }

Reachable-IsRouted_example : IsRouted lower plain single table_adder entries no_v6 toml (record {
  handler =
      (handle_request lower plain single Kernel
        (λ p i a. ok 300)
        100
        single_fresh
        question).handler;
  tasks =
      (handle_request lower plain single Kernel
        (λ p i a. ok 300)
        100
        single_fresh
        question).spawned;
})
Reachable-IsRouted_example =
    Reachable-IsRouted lower plain single table_adder entries no_v6 toml entries-Iterates
      single-HasAddresses
      (next (start fs files (ok (λ key. none)) binds path single_begun single_starts)
        (request (λ p i a. ok 300) 100 question (record { handler = single_fresh; tasks = [] })))

-- A query is answered and cached; then the configuration drops its zone, and it is asked again.
abbrev home_only : Config
home_only = config (home_zone ∷ [])

abbrev served : TheServer
served = (serve lower plain hickory table_adder entries no_v6 toml answers 100 begun_server asked).0

abbrev dropped : DnsHandler lower plain hickory Kernel
dropped =
    (apply_config lower plain hickory table_adder entries no_v6 files served.handler home_only).0

abbrev after_drop : TheServer
after_drop = record served { handler = dropped }

abbrev asked_again : Handled lower plain hickory Kernel
asked_again = forward lower plain hickory Kernel (λ p i a. err 2) 101 dropped asked

serve-reloaded_example :
    (dropped.config ≡ home_only)
    × ((dropped.matcher ≡ Zones.zone_of lower plain home_zone [] ∷ [])
        × (serve lower plain hickory table_adder entries no_v6 toml
              (λ p i a. err 2)
              101
              after_drop
              asked
            ≡ (
              after_request lower plain hickory table_adder entries no_v6 toml after_drop
                  asked_again,
              asked_again.reply,
            )))
unfolding Zones.new
serve-reloaded_example =
    serve-reloaded lower plain hickory table_adder entries no_v6 toml served files home_only
      (Zones.zone_of lower plain home_zone [] ∷ []) (λ p i a. err 2) 101 asked
      (next (start fs files (ok (λ key. none)) binds path begun starts)
        (request answers 100 asked begun_server))
      refl refl

-- ===== src/Reload/Applied.antt =====
-- From a change on the disk to the handler's configuration: what the watcher sends is what the reload
-- task of src/main.rs receives.
use mathlib.Core.Path.{subst}
use leshy.Prelude.{ℕ, Option, ◌≡◌, refl, sym, ◌∙◌, true, List, [], ◌∷◌, ◌++◌, arith, In}
use leshy.Prelude.HashMap.{HashMap}
use leshy.Prelude.Results.{ok}
use leshy.Prelude.Text.{Str}
use leshy.Config.{Config}
use leshy.Config.Load.{Toml}
use leshy.Zones
use leshy.Zones.{RegexEngine, Zone}
use leshy.Routing.Manager.{RouteAdder, FileRead}
use leshy.Dns.Message.{Hickory}
use leshy.Dns.Handler.{DnsHandler, update_config}
use leshy.Reload.{apply_config, Reception, reload_task}
use leshy.Reload.Watch.{ConfigWatcher, Notice, watch}
use leshy.Reload.Watch.Changes.{Loads, watch-last}

module _ (to_lowercase : Str → Str) (regex : RegexEngine) (hickory : Hickory) {K : Type 0}
    (adder : RouteAdder K) (iter : HashMap ℕ Str → List (ℕ × Str)) (parse_v6 : Str → Option ℕ) where
  -- The handler has the configuration, and the matcher that is built from its zones. What the
  -- aggregator and the sockets were made with is not looked at.
  pub record IsConfigured (c : Config) (self : DnsHandler to_lowercase regex hickory K)
      : Type 0 where
    pub same : self.config ≡ c
    pub built : Zones.new to_lowercase regex c.zones ≡ ok self.matcher

  apply_config-IsConfigured :
      (files : Str → FileRead) (self : DnsHandler to_lowercase regex hickory K) (c : Config)
      (matcher : List (Zone regex.RegexSet))
      → Zones.new to_lowercase regex c.zones ≡ ok matcher
      → IsConfigured c (apply_config to_lowercase regex hickory adder iter parse_v6 files self c).0
  unfolding apply_config update_config
  apply_config-IsConfigured files self c matcher e =
      rw (e, apply_config) (record { same = refl; built = e })

  abbrev pub Receptions : Type 0
  Receptions = List (Reception to_lowercase regex hickory adder iter parse_v6)

  abbrev pub received : Receptions → List Config
  received [] = []
  received (r ∷ receptions) = r.new_config ∷ received receptions

  reload_task-IsConfigured :
      (c : Config) (matcher : List (Zone regex.RegexSet))
      → Zones.new to_lowercase regex c.zones ≡ ok matcher
      → (receptions : Receptions) (earlier : List Config) → received receptions ≡ earlier ++ c ∷ []
      → (self : DnsHandler to_lowercase regex hickory K)
      → IsConfigured c
          (reload_task to_lowercase regex hickory adder iter parse_v6 receptions self).0
  unfolding reload_task
  reload_task-IsConfigured c matcher built [] [] e self = absurd (ground (arith, e))
  reload_task-IsConfigured c matcher built [] (d ∷ earlier) e self = absurd (ground (arith, e))
  reload_task-IsConfigured c matcher built (r ∷ []) [] e self =
      let same : r.new_config ≡ c = ground (arith, e) in
      subst
        (λ (d : Config).
          IsConfigured c
            (apply_config to_lowercase regex hickory adder iter parse_v6 r.files (r.meanwhile self)
              d).0)
        (sym same) (apply_config-IsConfigured r.files (r.meanwhile self) c matcher built)
  reload_task-IsConfigured c matcher built (r ∷ x ∷ receptions) [] e self =
      absurd (ground (arith, e))
  reload_task-IsConfigured c matcher built (r ∷ receptions) (d ∷ earlier) e self =
      reload_task-IsConfigured c matcher built receptions earlier (ground (arith, e)) _

  -- Let the reload task receive what the watcher sends, with any use of the handler between two
  -- receptions. While the channel has its receiver, and if a matcher can be built from the zones of
  -- the configuration that was loaded after the last change that left a file that loads, the handler
  -- has that configuration and that matcher when the task has taken all of them, whatever it had and
  -- whatever was sent and rejected before. Nothing is said of the aggregator's prefix length and of
  -- the address listened on.
  pub reload_task-last :
      (toml : Toml) (self : ConfigWatcher) (before : List Notice) (n : Notice) (c : Config)
      (later : List Notice) (matcher : List (Zone regex.RegexSet)) (receptions : Receptions)
      (handler : DnsHandler to_lowercase regex hickory K)
      → ((m : Notice) → In m (before ++ n ∷ later) → m.receiver ≡ true)
      → Loads toml regex.is_regex self.config_path n c
      → ((m : Notice) (d : Config) → In m later → ¬ Loads toml regex.is_regex self.config_path m d)
      → Zones.new to_lowercase regex c.zones ≡ ok matcher
      → received receptions ≡ watch toml regex.is_regex self (before ++ n ∷ later)
      → IsConfigured c
          (reload_task to_lowercase regex hickory adder iter parse_v6 receptions handler).0
  reload_task-last toml self before n c later matcher receptions handler receives loads none_load
        built e =
      let (earlier, sent) =
        watch-last toml regex.is_regex self before n c later receives loads none_load in
      reload_task-IsConfigured c matcher built receptions earlier (e ∙ sent) handler

-- ===== src/Routing/Manager/Interleaved.antt =====
-- src/routing/mod.rs, lines 51-72, where calls of `add_route_v4` overlap: a call holds the
-- aggregator's lock for `process_ip` alone, and then carries its actions out one by one, between
-- which other calls go on.
pub mod Tasks
pub mod Free
pub mod Settled
pub mod Chosen
use leshy.Prelude.{ℕ, ◌≡◌, List, [], ◌∷◌, ◌++◌, is_empty, if◌then◌else◌}
use leshy.Prelude.HashMap.{HashMap}
use leshy.Prelude.Results.{ok, err}
use leshy.Prelude.Text.{Str}
use leshy.Config.{v4, ZoneConfig}
use leshy.Routing.Aggregator.{RouteAction, process_ip}
use leshy.Routing.Manager.{RouteAdder, RouteManager, RouteError, FileRead, execute_action, track}

-- A call that has left the lock, with the actions that it has not yet carried out.
pub data Task : Type 0 where
  task : ℕ → ZoneConfig → List RouteAction → Task

pub record Machine (K : Type 0) : Type 0 where
  pub manager : RouteManager K
  pub tasks : List Task

-- One of the tasks has an action next: the tasks when it succeeds, and when it fails and `?` ends
-- the call.
pub data Next : List Task → RouteAction → List Task → List Task → Type 0 where
  first :
      {ip : ℕ} {zone : ZoneConfig} {a : RouteAction} {actions : List RouteAction} {ts : List Task}
      → Next (task ip zone (a ∷ actions) ∷ ts) a (task ip zone actions ∷ ts) ts
  later :
      {t : Task} {a : RouteAction} {ts us vs : List Task}
      → Next ts a us vs
      → Next (t ∷ ts) a (t ∷ us) (t ∷ vs)

-- One of the tasks has no action left.
pub data Last : List Task → ℕ → ZoneConfig → List Task → Type 0 where
  first_done :
      {ip : ℕ} {zone : ZoneConfig} {ts : List Task} → Last (task ip zone [] ∷ ts) ip zone ts
  later_done :
      {t : Task} {ip : ℕ} {zone : ZoneConfig} {ts us : List Task}
      → Last ts ip zone us
      → Last (t ∷ ts) ip zone (t ∷ us)

module _ {K : Type 0} (adder : RouteAdder K) (iter : HashMap ℕ Str → List (ℕ × Str))
    (files : Str → FileRead) where
  -- `let actions = { … agg.process_ip(…) }; if actions.is_empty() { return Ok(()); }`
  unfoldable pub lock : Machine K → ℕ → ZoneConfig → Machine K
  lock m ip zone =
      let (agg, actions) =
        process_ip iter m.manager.aggregator ip zone.name zone.route_type zone.route_target in
      record {
        manager = record m.manager { aggregator = agg };
        tasks = if is_empty actions then m.tasks else m.tasks ++ task ip zone actions ∷ [];
      }

  -- `self.execute_action(action).await`, before the tasks that go on
  unfoldable pub carry_out : Machine K → RouteAction → List Task → Machine K
  carry_out m a tasks = record {
    manager = record m.manager { kernel = (execute_action adder iter files m.manager.kernel a).0 };
    tasks = tasks;
  }

  -- `routes.entry(zone.name.clone()).or_default().insert(IpAddr::V4(ip))`
  unfoldable pub finish : Machine K → ℕ → ZoneConfig → List Task → Machine K
  finish m ip zone tasks = record {
    manager = record m.manager { zone_routes = track zone.name (v4 ip) m.manager.zone_routes };
    tasks = tasks;
  }

  pub data Step : Machine K → Machine K → Type 0 where
    locks : (m : Machine K) (ip : ℕ) (zone : ZoneConfig) → Step m (lock m ip zone)
    succeeds :
        (m : Machine K) (a : RouteAction) (us vs : List Task)
        → Next m.tasks a us vs
        → (execute_action adder iter files m.manager.kernel a).1 ≡ ok tt
        → Step m (carry_out m a us)
    fails :
        (m : Machine K) (a : RouteAction) (us vs : List Task) (e : RouteError)
        → Next m.tasks a us vs
        → (execute_action adder iter files m.manager.kernel a).1 ≡ err e
        → Step m (carry_out m a vs)
    returns :
        (m : Machine K) (ip : ℕ) (zone : ZoneConfig) (us : List Task)
        → Last m.tasks ip zone us
        → Step m (finish m ip zone us)

  pub data Steps (m : Machine K) : Machine K → Type 0 where
    none_yet : Steps m m
    and_then : {n o : Machine K} → Steps m n → Step n o → Steps m o

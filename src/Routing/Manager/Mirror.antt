-- ===== src/Routing/Manager/Mirror.antt =====
-- The kernel's table under `add_route_v4`, when every call of the adder succeeds.
use mathlib.Core.Path.{fun_ext}
use leshy.Prelude.{
  ℕ, ◌<◌, if◌then◌else◌, ◌≡◌, refl, sym, ◌∙◌, ap, Option, none, some, arith, nat_eq, pair_eq,
  list_eq, inl, inr, Bool-cases, ◌==◌, List, [], ◌∷◌, true, is_empty,
}
use leshy.Prelude.HashMap.{HashMap}
use leshy.Prelude.Results.{ok, err, Result-cases}
use leshy.Prelude.Text.{Str}
use leshy.Config.{RouteType, via, dev, v4, ZoneConfig}
use leshy.Routing.Aggregator.{RouteAction, RouteAggregator, add, remove, process_ip}
use leshy.Routing.Aggregator.Replay.{Kernel, apply_action, replay, view, process_ip-replay}
use leshy.Prelude.Word.{u32_mod}
use leshy.Routing.Aggregator.Routes.{Iterates}
use leshy.Routing.Aggregator.Owners.{Owners}
use leshy.Routing.Aggregator.Claims.{Keeps}
use leshy.Routing.Aggregator.Run.{Resolution}
use leshy.Routing.Aggregator.Fresh.{IsFree, AllFree, process_ip-AllFree}
use leshy.Routing.Manager.{
  RouteAdder, RouteManager, FileRead, Outcome, add_route_v4, add_typed, execute_action,
  execute_actions, read_device_file,
}

-- A kernel's table for IPv4: the next hop of each network.
abbrev pub Hops : Type 0 → Type 0
Hops W = ℕ × ℕ → Option W

abbrev pub with_hop : {W : Type 0} → ℕ × ℕ → Option W → Hops W → Hops W
with_hop key w h other = if key == other then w else h other

-- A successful call of the adder gives a network that has no route the next hop of the call, and
-- takes a network's route away. What the adder does where the network has a route is left open: the
-- adders of the program report success and leave the old route there.
pub record Installs {K W : Type 0} (adder : RouteAdder K) (hop : RouteType → Str → W)
    (table : K → Hops W) : Type 0 where
  pub via_installs :
      (k : K) (ip prefix_len : ℕ) (gateway : Str)
      → table k (ip, prefix_len) ≡ none
      → (adder.add_via_route k (v4 ip) prefix_len gateway).1 ≡ ok tt
      → table (adder.add_via_route k (v4 ip) prefix_len gateway).0
        ≡ with_hop (ip, prefix_len) (some (hop via gateway)) (table k)
  pub dev_installs :
      (k : K) (ip prefix_len : ℕ) (device : Str)
      → table k (ip, prefix_len) ≡ none
      → (adder.add_dev_route k (v4 ip) prefix_len device).1 ≡ ok tt
      → table (adder.add_dev_route k (v4 ip) prefix_len device).0
        ≡ with_hop (ip, prefix_len) (some (hop dev device)) (table k)
  pub uninstalls :
      (k : K) (ip prefix_len : ℕ)
      → (adder.remove_route k (v4 ip) prefix_len).1 ≡ ok tt
      → table (adder.remove_route k (v4 ip) prefix_len).0 ≡ with_hop (ip, prefix_len) none (table k)

-- The device that a device file names; a path that cannot be read stands for itself.
abbrev pub device_name : (Str → FileRead) → Str → Str
device_name files path = elim (read_device_file files path) [ ok device ↦ device | err e ↦ path ]

abbrev pub named : (Str → FileRead) → RouteType → Str → Str
named files via target = target
named files dev target = device_name files target

-- The next hops that a table of zones' targets asks for, with the devices in place of the files
-- that name them.
abbrev pub resolved :
    {W : Type 0} → (RouteType → Str → W) → (Str → FileRead) → Option (RouteType × Str) → Option W
resolved hop files none = none
resolved hop files (some (t, target)) = some (hop t (named files t target))

abbrev pub routed : {W : Type 0} → (RouteType → Str → W) → (Str → FileRead) → Kernel → Hops W
routed hop files k key = resolved hop files (k key)

routed-add :
    {W : Type 0} (hop : RouteType → Str → W) (files : Str → FileRead) (net prefix : ℕ)
    (t : RouteType) (target : Str) (k : Kernel)
    → with_hop (net, prefix) (some (hop t (named files t target))) (routed hop files k)
      ≡ routed hop files (apply_action (add net prefix t target) k)
unfolding apply_action
routed-add hop files net prefix t target k =
    fun_ext
      λ key. elim (Bool-cases ((net, prefix) == key)) [ inl e ↦ rw e refl | inr e ↦ rw e refl ]

routed-remove :
    {W : Type 0} (hop : RouteType → Str → W) (files : Str → FileRead) (net prefix : ℕ) (k : Kernel)
    → with_hop (net, prefix) none (routed hop files k)
      ≡ routed hop files (apply_action (remove net prefix) k)
unfolding apply_action
routed-remove hop files net prefix k =
    fun_ext
      λ key. elim (Bool-cases ((net, prefix) == key)) [ inl e ↦ rw e refl | inr e ↦ rw e refl ]

module _ {K : Type 0} (adder : RouteAdder K) (iter : HashMap ℕ Str → List (ℕ × Str))
    (files : Str → FileRead) where
  -- An action that succeeds leaves the rest of the loop.
  pub execute_actions-step :
      (k : K) (a : RouteAction) (actions : List RouteAction)
      → (execute_action adder iter files k a).1 ≡ ok tt
      → execute_actions adder iter files k (a ∷ actions)
        ≡ execute_actions adder iter files (execute_action adder iter files k a).0 actions
  unfolding execute_actions
  execute_actions-step k a actions first = rw (first, execute_actions) refl

module _ {K W : Type 0} (adder : RouteAdder K) (iter : HashMap ℕ Str → List (ℕ × Str))
    (hop : RouteType → Str → W) (table : K → Hops W) (installs : Installs adder hop table)
    (files : Str → FileRead) where
  add_typed-dev :
      (k : K) (target device : Str) (ip prefix_len : ℕ)
      → read_device_file files target ≡ ok device
      → (add_typed adder iter files k dev target (v4 ip) prefix_len
          ≡ adder.add_dev_route k (v4 ip) prefix_len device)
        × (named files dev target ≡ device)
  unfolding add_typed
  add_typed-dev k target device ip prefix_len e =
      (rw (e, add_typed) refl, rw (e, named, device_name) refl)

  add_typed-table :
      (k : K) (t : RouteType) (target : Str) (ip prefix_len : ℕ)
      → table k (ip, prefix_len) ≡ none
      → (add_typed adder iter files k t target (v4 ip) prefix_len).1 ≡ ok tt
      → table (add_typed adder iter files k t target (v4 ip) prefix_len).0
        ≡ with_hop (ip, prefix_len) (some (hop t (named files t target))) (table k)
  unfolding add_typed
  add_typed-table k via target ip prefix_len free done =
      installs.via_installs k ip prefix_len target free done
  add_typed-table k dev target ip prefix_len free done =
      elim (Result-cases (read_device_file files target)) [
        | inl (device, e) ↦
            let (calls, name) = add_typed-dev k target device ip prefix_len e in
            ap (λ (x : K × Outcome). table x.0) calls
            ∙ installs.dev_installs k ip prefix_len device free
                (sym (ap (λ (x : K × Outcome). x.1) calls) ∙ done)
            ∙ ap (λ (d : Str). with_hop (ip, prefix_len) (some (hop dev d)) (table k)) (sym name)
        | inr (x, e) ↦ absurd (ground arith)
      ]

  -- A free action that succeeds does to the kernel what it says.
  pub execute_action-table :
      (k : K) (a : RouteAction) (g : Kernel)
      → table k ≡ routed hop files g
      → IsFree a g
      → (execute_action adder iter files k a).1 ≡ ok tt
      → table (execute_action adder iter files k a).0 ≡ routed hop files (apply_action a g)
  unfolding execute_action
  execute_action-table k (add net prefix t target) g same free done =
      add_typed-table k t target net prefix
        (ap (λ (h : Hops W). h (net, prefix)) same ∙ ap (resolved hop files) free) done
      ∙ ap (with_hop (net, prefix) (some (hop t (named files t target)))) same
      ∙ routed-add hop files net prefix t target g
  execute_action-table k (remove net prefix) g same free done =
      installs.uninstalls k net prefix done
      ∙ ap (with_hop (net, prefix) none) same
      ∙ routed-remove hop files net prefix g

  execute_actions-table :
      (actions : List RouteAction) (k : K) (g : Kernel)
      → table k ≡ routed hop files g
      → AllFree actions g
      → (execute_actions adder iter files k actions).1 ≡ ok tt
      → table (execute_actions adder iter files k actions).0 ≡ routed hop files (replay actions g)
  unfolding execute_actions replay
  execute_actions-table [] k g same free done = same
  execute_actions-table (a ∷ actions) k g same free done =
      elim (Result-cases (execute_action adder iter files k a).1) [
        | inl (u, first) ↦
            let step = execute_actions-step adder iter files k a actions first in
            ap (λ (x : K × Outcome). table x.0) step
            ∙ execute_actions-table actions (execute_action adder iter files k a).0
                (apply_action a g) (execute_action-table k a g same free.0 first) free.1
                (sym (ap (λ (x : K × Outcome). x.1) step) ∙ done)
        | inr (x, stopped) ↦ absurd (ground arith)
      ]

  execute_none :
      (k : K) (actions : List RouteAction)
      → is_empty actions ≡ true
      → execute_actions adder iter files k actions ≡ (k, ok tt)
  unfolding execute_actions
  execute_none k [] e = refl
  execute_none k (a ∷ actions) e = absurd (ground arith)

  add_route_v4-executes :
      (self : RouteManager K) (ip : ℕ) (zone : ZoneConfig)
      → let r = add_route_v4 adder iter files self ip zone in
        let p = process_ip iter self.aggregator ip zone.name zone.route_type zone.route_target in
        r.1 ≡ ok tt
        → ((execute_actions adder iter files self.kernel p.1).1 ≡ ok tt)
          × (r.0.kernel ≡ (execute_actions adder iter files self.kernel p.1).0)
          × (r.0.aggregator ≡ p.0)
  unfolding add_route_v4
  add_route_v4-executes self ip zone done =
      let p = process_ip iter self.aggregator ip zone.name zone.route_type zone.route_target in
      elim (Bool-cases (is_empty p.1)) [
        | inl e ↦
            let idle = execute_none self.kernel p.1 e in
            rw e
              (ap (λ (x : K × Outcome). x.1) idle, sym (ap (λ (x : K × Outcome). x.0) idle), refl)
        | inr e ↦ elim (Result-cases (execute_actions adder iter files self.kernel p.1).1) [
          | inl (u, ran) ↦ rw e (rw ran (refl, refl, refl))
          | inr (x, stopped) ↦ absurd (ground arith)
        ]
      ]

  pub add_route_v4-mirrors :
      Iterates iter
      → (self : RouteManager K) (f : Owners) (ip : ℕ) (zone : ZoneConfig)
      → self.aggregator.prefix_len < 32
      → ip < u32_mod
      → Keeps self.aggregator.prefix_len self.aggregator.known_ips self.aggregator.installed f
      → table self.kernel ≡ routed hop files (view self.aggregator.installed)
      → let r = add_route_v4 adder iter files self ip zone in
        r.1 ≡ ok tt → table r.0.kernel ≡ routed hop files (view r.0.aggregator.installed)
  add_route_v4-mirrors iterates self f ip zone short hip keeps same done =
      let (ran, k, agg) = add_route_v4-executes self ip zone done in
      let p = process_ip iter self.aggregator ip zone.name zone.route_type zone.route_target in
      let r : Resolution = record {
        ip = ip;
        owner = record {
          zone_name = zone.name;
          route_type = zone.route_type;
          route_target = zone.route_target;
        };
      } in
      ap table k
      ∙ execute_actions-table p.1 self.kernel (view self.aggregator.installed) same
          (process_ip-AllFree iter iterates r self.aggregator f short hip keeps) ran
      ∙ ap (routed hop files) (
          sym
            (process_ip-replay iter self.aggregator ip zone.name zone.route_type zone.route_target)
          ∙ ap (λ (a : RouteAggregator). view a.installed) (sym agg))

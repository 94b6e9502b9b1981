-- ===== src/Routing/Aggregator/Fresh.antt =====
-- No action of `process_ip` adds a network that is routed already, as long as each address has one
-- network at most.
use native.Mathlib.Decide.{dec_lt, ℕ_discrete}
use mathlib.Core.Path.{subst}
use leshy.Prelude.{
  ℕ, zero, suc, ◌+◌, ◌≡◌, ◌≤◌, ◌<◌, refl, sym, ◌∙◌, ap, none, some, arith, nat_eq, pair_eq, list_eq,
  List, [], ◌∷◌, ◌++◌, inl, inr, Option-cases, ◌==◌, if_either, leb, false,
}
use leshy.Prelude.HashMap
use leshy.Prelude.HashMap.{HashMap}
use leshy.Prelude.Text.{Str}
use leshy.Prelude.Word.{u32_mod}
use leshy.Routing.Prefix.{network_address}
use leshy.Routing.Prefix.Blocks.{network_address-host, network_address_mono}
use leshy.Routing.Prefix.Networks.{IsNetwork, lower-IsNetwork, upper-IsNetwork}
use leshy.Routing.Aggregator.{
  RouteAction, add, remove, RouteOwner, RouteAggregator, Progress, begin, install, uninstall, split,
  split_loop, find_covering_route, find_covering_from, process_uncovered, process_aggregated,
  process_ip, new,
}
use leshy.Routing.Aggregator.Covering.{Table, entry, find_covering-some}
use leshy.Routing.Aggregator.Split.{
  sibling, sibling-halves, sibling-ne, sibling_inside, loop_step, loop_stop, entry-install,
}
use leshy.Routing.Aggregator.Effects.{entry-uninstall, entry-uninstall_self}
use leshy.Routing.Aggregator.Owners.{
  Owners, Around, Around-find, Around-split_self, Around-entry, owner_of,
}
use leshy.Routing.Aggregator.Routes.{Iterates}
use leshy.Routing.Aggregator.Claims.{Keeps, no_conflict, is_empty-In}
use leshy.Routing.Aggregator.Run.{
  Resolution, AllU32, run, claims, KeepsOwners, run-KeepsOwners, new-KeepsOwners,
}
use leshy.Routing.Aggregator.Replay.{
  Kernel, apply_action, replay, view, way, install-Mirrors, uninstall-Mirrors,
}

-- An action that adds finds no route of its network.
abbrev pub IsFree : RouteAction → Kernel → Type 0
IsFree (add net q t target) k = k (net, q) ≡ none
IsFree (remove net q) k = Unit

-- So do all, in their order.
abbrev pub AllFree : List RouteAction → Kernel → Type 0
AllFree [] k = Unit
AllFree (a ∷ actions) k = IsFree a k × AllFree actions (apply_action a k)

AllFree-append :
    (xs ys : List RouteAction) (k : Kernel)
    → AllFree xs k
    → AllFree ys (replay xs k)
    → AllFree (xs ++ ys) k
unfolding replay
AllFree-append [] ys k hx hy = hy
AllFree-append (x ∷ xs) ys k hx hy = (hx.0, AllFree-append xs ys (apply_action x k) hx.1 hy)

module _ (k : Kernel) where
  -- The actions so far were free, and have taken the kernel to the table so far.
  record Freely (s : Progress) : Type 0 where
    mirrors : view s.table ≡ replay s.actions k
    free : AllFree s.actions k

  install-Freely :
      (net q : ℕ) (o : RouteOwner) (s : Progress)
      → HashMap.get (net, q) s.table ≡ none
      → Freely s
      → Freely (install net q o s)
  unfolding install view
  install-Freely net q o s absent h = record {
    mirrors = install-Mirrors k net q o s h.mirrors;
    free =
        AllFree-append s.actions _ k h.free
          (sym (ap (λ (x : Kernel). x (net, q)) h.mirrors) ∙ ap way absent, tt);
  }

  uninstall-Freely : (net q : ℕ) (s : Progress) → Freely s → Freely (uninstall net q s)
  unfolding uninstall
  uninstall-Freely net q s h = record {
    mirrors = uninstall-Mirrors k net q s h.mirrors;
    free = AllFree-append s.actions _ k h.free (tt, tt);
  }

  module _ (ip : ℕ) (hip : ip < u32_mod) (o : RouteOwner) where
    -- No network is installed around any address of a network.
    abbrev Bare : ℕ → Table → Type 0
    Bare p t =
        (a : ℕ)
        → a < u32_mod
        → network_address a p ≡ network_address ip p
        → (q : ℕ) → q ≤ 32
        → entry a q t ≡ none

    sibling-IsNetwork : (p : ℕ) (p32 : p < 32) → IsNetwork (sibling p p32 ip hip) (p + 1)
    sibling-IsNetwork p p32 = elim (sibling-halves p p32 ip hip) [
      | inl (e, _) ↦ rw e (lower-IsNetwork p p32 ip hip)
      | inr (e, _) ↦ rw e (upper-IsNetwork p p32 ip hip)
    ]

    split_loop-Freely :
        (fuel p : ℕ) (s : Progress)
        → Bare p s.table
        → Freely s
        → Freely (split_loop fuel ip o (network_address ip p) p s)
    unfolding split_loop
    split_loop-Freely zero p s bare h = h
    split_loop-Freely (suc fuel) p s bare h = elim (dec_lt p 32) [
      | no stop ↦ rw (loop_stop ip hip o (suc fuel) p s (omega arith)) h
      | yes p32 ↦
          let sib = sibling p p32 ip hip in
          let n = sibling-IsNetwork p p32 in
          let absent : HashMap.get (sib, p + 1) s.table ≡ none =
            ap (λ (x : ℕ). HashMap.get (x, p + 1) s.table) (sym n.aligned)
            ∙ bare sib n.address (sibling_inside p p32 ip hip sib n.address n.aligned) (p + 1)
                (omega arith) in
          rw (loop_step ip hip o fuel p p32 s) (
            split_loop-Freely fuel (p + 1) _
              (λ a ha within q q32.
                entry-install a q sib (p + 1) o s
                  (λ e same. sibling-ne p p32 ip hip (sym e ∙ ap (network_address a) same ∙ within))
                ∙ bare a ha
                    (network_address_mono p (p + 1) a ip (omega arith) (omega arith) ha hip within)
                    q q32)
              (install-Freely sib (p + 1) o s absent h))
    ]

    split-Freely :
        (p : ℕ) (s : Progress)
        → p ≤ 32
        → entry ip p s.table ≡ some o
        → ((a : ℕ)
            → a < u32_mod
            → (q : ℕ) (w : RouteOwner) → q ≤ 32
            → entry a p s.table ≡ some o
            → entry a q s.table ≡ some w
            → q ≡ p)
        → Freely s
        → Freely (split ip (network_address ip p) p o s)
    unfolding split
    split-Freely p s p32 here single h =
        split_loop-Freely 32 p _
          (λ a ha within q q32. elim (ℕ_discrete q p) [
            | yes same ↦
                entry-uninstall_self a q (network_address ip p) p s
                  (ap (network_address a) same ∙ within) same
            | no ne ↦
                entry-uninstall a q (network_address ip p) p s (λ _. ne)
                ∙ elim (Option-cases (entry a q s.table)) [
                  | inl e ↦ e
                  | inr (w, e) ↦ absurd (
                      ne (
                        single a ha q w q32
                          (ap (λ (n : ℕ). HashMap.get (n, p) s.table) within ∙ here) e))
                ]
          ])
          (uninstall-Freely (network_address ip p) p s h)

module _ (iter : HashMap ℕ Str → List (ℕ × Str)) (iterates : Iterates iter) (agg : RouteAggregator)
    (p32 : agg.prefix_len < 32) (ip : ℕ) (hip : ip < u32_mod) (o : RouteOwner) (f : Owners)
    (k : Keeps agg.prefix_len agg.known_ips agg.installed f) where
  abbrev noting : RouteAggregator
  noting = record agg { known_ips = HashMap.insert ip o.zone_name agg.known_ips }

  abbrev asked : Kernel
  asked = view agg.installed

  begin-Freely : Freely asked (begin noting)
  unfolding replay
  begin-Freely = record { mirrors = refl; free = tt }

  process_uncovered-Freely : f ip ≡ none → Freely asked (process_uncovered iter noting ip o)
  unfolding process_uncovered
  process_uncovered-Freely nobody =
      let none_around : Around ip agg.installed none =
        subst (Around ip agg.installed) nobody (k.represents ip hip) in
      rw
        (is_empty-In _ (
          no_conflict agg.prefix_len p32 ip hip o agg.known_ips agg.installed f k nobody iter
            iterates))
        (install-Freely asked (network_address ip agg.prefix_len) agg.prefix_len o (begin noting)
          (none_around agg.prefix_len (omega arith)) begin-Freely)

  taken-Freely :
      (q : ℕ) (old : RouteOwner)
      → q ≤ 32
      → entry ip q agg.installed ≡ some old
      → Freely asked (install ip 32 o (split ip (network_address ip q) q old (begin noting)))
  taken-Freely q old q32 here =
      let halved = split ip (network_address ip q) q old (begin noting) in
      let owned : f ip ≡ some old =
        Around-entry ip agg.installed (f ip) q old (k.represents ip hip) q32 here in
      let gone =
        Around-split_self ip hip old q q32 (begin noting) here
          (subst (Around ip agg.installed) owned (k.represents ip hip)) 32 (omega arith) in
      install-Freely asked ip 32 o halved
        (ap (λ (n : ℕ). HashMap.get (n, 32) halved.table) (sym (network_address-host ip hip))
          ∙ gone)
        (split-Freely asked ip hip old q (begin noting) q32 here
          (λ a ha r w r32 there e.
            (let mine = Around-entry a agg.installed (f a) q old (k.represents a ha) q32 there in
              let only = subst (Around a agg.installed) mine (k.represents a ha) in
              only.unique r w r32 e ∙ sym (only.unique q old q32 there)))
          begin-Freely)

  process_aggregated-Freely : Freely asked (process_aggregated iter noting ip o)
  unfolding process_aggregated find_covering_route
  process_aggregated-Freely = elim (Option-cases (find_covering_from 32 ip agg.installed)) [
    | inl e ↦
        rw (e, process_aggregated)
          (process_uncovered-Freely
            (sym (Around-find ip agg.installed (f ip) (k.represents ip hip)) ∙ ap owner_of e))
    | inr (((net, q), old), e) ↦
        let (q32, at_net, here) = find_covering-some ip agg.installed net q old 32 e in
        rw (e, process_aggregated)
          (if_either (Freely asked) (old.zone_name == o.zone_name) _ _ begin-Freely
            (rw at_net (taken-Freely q old q32 here)))
  ]

module _ (iter : HashMap ℕ Str → List (ℕ × Str)) (iterates : Iterates iter) where
  pub process_ip-AllFree :
      (r : Resolution) (agg : RouteAggregator) (f : Owners)
      → agg.prefix_len < 32
      → r.ip < u32_mod
      → KeepsOwners iter iterates agg f
      → AllFree
          (process_ip iter agg r.ip r.owner.zone_name r.owner.route_type r.owner.route_target).1
          (view agg.installed)
  unfolding process_ip
  process_ip-AllFree r agg f short hip k =
      let off : leb 32 agg.prefix_len ≡ false = ground arith in
      rw off ((process_aggregated-Freely iter iterates agg short r.ip hip r.owner f k).free)

  run-prefix_len :
      (rs : List Resolution) (agg : RouteAggregator) → (run iter rs agg).prefix_len ≡ agg.prefix_len
  unfolding run process_ip
  run-prefix_len [] agg = refl
  run-prefix_len (r ∷ rs) agg = run-prefix_len rs _

  -- After any sequence of calls of `process_ip` for 32-bit addresses on a new aggregator with a
  -- prefix length below 32, no action of the next call adds a network that is routed when its turn
  -- comes, if the kernel had the routes that the installed networks ask for: no route is lost to an
  -- adder that keeps the old one.
  pub run-AllFree :
      (p : ℕ) (rs : List Resolution) (r : Resolution)
      → p < 32
      → AllU32 rs
      → r.ip < u32_mod
      → let agg = run iter rs (new (some p)) in
        AllFree
          (process_ip iter agg r.ip r.owner.zone_name r.owner.route_type r.owner.route_target).1
          (view agg.installed)
  unfolding new
  run-AllFree p rs r p32 all hip =
      process_ip-AllFree r (run iter rs (new (some p))) (claims p rs (λ _. none))
        (subst (λ (n : ℕ). n < 32) (sym (run-prefix_len rs (new (some p)))) p32) hip
        (run-KeepsOwners iter iterates rs (new (some p)) (λ _. none) p32 all
          (new-KeepsOwners iter iterates p))

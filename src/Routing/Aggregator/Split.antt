-- ===== src/Routing/Aggregator/Split.antt =====
-- The halving loop: what the networks of `split` cover, address by address.
use native.Mathlib.Nat.{one-le-pow}
use native.Mathlib.Decide.{dec_lt, ℕ_discrete}
use leshy.Prelude.{
  ℕ, zero, suc, ◌+◌, ◌-◌, ◌≡◌, ◌≢◌, ◌≤◌, ◌<◌, refl, sym, ◌∙◌, ap, some, arith, nat_eq, pair_eq, ◌⊎◌,
  lt→ltb, le→ltb,
}
use leshy.Prelude.HashMap
use leshy.Prelude.Word.{u32_mod}
use leshy.Routing.Prefix.{network_address, ip_in_network}
use leshy.Routing.Prefix.Blocks.{
  stride, split_network-halves, network_address-halves, network_address-inside,
  network_address_mono, network_address-host,
}
use leshy.Routing.Aggregator.{RouteOwner, Progress, install, split_around, split_loop}
use leshy.Routing.Aggregator.Covering.{Table, entry}

module _ (p : ℕ) (p32 : p < 32) (ip : ℕ) (hip : ip < u32_mod) where
  -- The sibling of the half that contains `ip`.
  abbrev pub sibling : ℕ
  sibling = (split_around ip (network_address ip p) p).1

  split_around-inner : (split_around ip (network_address ip p) p).0 ≡ network_address ip (p + 1)
  unfolding split_around ip_in_network
  split_around-inner =
      rw (split_network-halves p p32 ip hip) (ground (arith, network_address-halves p p32 ip hip))

  -- One half contains `ip`, and the sibling is the other.
  pub sibling-halves :
      ((sibling ≡ network_address ip p)
        × (network_address ip (p + 1) ≡ network_address ip p + stride p p32))
      ⊎ ((sibling ≡ network_address ip p + stride p p32)
          × (network_address ip (p + 1) ≡ network_address ip p))
  unfolding split_around ip_in_network
  sibling-halves = ground (
    arith,
    split_network-halves p p32 ip hip,
    network_address-halves p p32 ip hip,
    one-le-pow (31 - p) 2,
  )

  pub sibling-ne : sibling ≢ network_address ip (p + 1)
  sibling-ne = ground (arith, sibling-halves, one-le-pow (31 - p) 2)

  module _ (a : ℕ) (ha : a < u32_mod) where
    -- What the sibling contains, the network contains.
    pub sibling_inside :
        network_address a (p + 1) ≡ sibling → network_address a p ≡ network_address ip p
    sibling_inside h = ground (arith, sibling-halves, network_address-inside p p32 a ha ip hip)

    -- What the network contains and the half of `ip` does not, the sibling contains.
    in_sibling :
        network_address a p ≡ network_address ip p
        → network_address a (p + 1) ≢ network_address ip (p + 1)
        → network_address a (p + 1) ≡ sibling
    in_sibling h other = ground (arith, sibling-halves, network_address-halves p p32 a ha)

-- An installation changes the entry of one network.
pub entry-install :
    (a q net prefix : ℕ) (o : RouteOwner) (s : Progress)
    → (network_address a q ≡ net → q ≢ prefix)
    → entry a q (install net prefix o s).table ≡ entry a q s.table
unfolding install
entry-install a q net prefix o s h =
    ground (arith, HashMap.get-insert (net, prefix) (network_address a q, q) o s.table)

pub entry-install_self :
    (a q net prefix : ℕ) (o : RouteOwner) (s : Progress)
    → network_address a q ≡ net
    → q ≡ prefix
    → entry a q (install net prefix o s).table ≡ some o
unfolding install
entry-install_self a q net prefix o s h e =
    ground (arith, HashMap.get-insert (net, prefix) (network_address a q, q) o s.table)

pub entry-install_cases :
    (a q net prefix : ℕ) (o : RouteOwner) (s : Progress)
    → (entry a q (install net prefix o s).table ≡ some o)
      ⊎ (entry a q (install net prefix o s).table ≡ entry a q s.table)
unfolding install
entry-install_cases a q net prefix o s =
    ground (arith, HashMap.get-insert (net, prefix) (network_address a q, q) o s.table)

module _ (ip : ℕ) (hip : ip < u32_mod) (o : RouteOwner) where
  abbrev pub loop : ℕ → ℕ → Progress → Progress
  loop fuel p s = split_loop fuel ip o (network_address ip p) p s

  pub loop_step :
      (fuel p : ℕ) (p32 : p < 32) (s : Progress)
      → loop (suc fuel) p s ≡ loop fuel (p + 1) (install (sibling p p32 ip hip) (p + 1) o s)
  unfolding split_loop
  loop_step fuel p p32 s = rw (lt→ltb p 32 p32, split_around-inner p p32 ip hip)

  pub loop_stop : (fuel p : ℕ) (s : Progress) → 32 ≤ p → loop fuel p s ≡ s
  unfolding split_loop
  loop_stop zero p s h = refl
  loop_stop (suc fuel) p s h = rw (le→ltb p 32 h)

  -- The loop installs nothing that contains `ip`.
  pub loop-spares :
      (fuel p q : ℕ) (s : Progress) → entry ip q (loop fuel p s).table ≡ entry ip q s.table
  unfolding split_loop
  loop-spares zero p q s = refl
  loop-spares (suc fuel) p q s = elim (dec_lt p 32) [
    | no h ↦ rw (loop_stop (suc fuel) p s (omega arith))
    | yes p32 ↦ rw (loop_step fuel p p32 s) (
        loop-spares fuel (p + 1) q _
        ∙ entry-install ip q (sibling p p32 ip hip) (p + 1) o s
            (λ e q_eq. sibling-ne p p32 ip hip (sym e ∙ ap (network_address ip) q_eq)))
  ]

  module _ (a : ℕ) (ha : a < u32_mod) where
    -- Nor anything that contains an address outside the network.
    pub loop-outside :
        (fuel p q : ℕ) (s : Progress)
        → network_address a p ≢ network_address ip p
        → entry a q (loop fuel p s).table ≡ entry a q s.table
    unfolding split_loop
    loop-outside zero p q s out = refl
    loop-outside (suc fuel) p q s out = elim (dec_lt p 32) [
      | no h ↦ rw (loop_stop (suc fuel) p s (omega arith))
      | yes p32 ↦ rw (loop_step fuel p p32 s) (
          loop-outside fuel (p + 1) q _
            (λ e. out (network_address_mono p (p + 1) a ip (omega arith) (omega arith) ha hip e))
          ∙ entry-install a q (sibling p p32 ip hip) (p + 1) o s (λ e q_eq.
            out (sibling_inside p p32 ip hip a ha (sym (ap (network_address a) q_eq) ∙ e))))
    ]

    -- Every other address of the network gets one entry, the owner's, and keeps the rest.
    pub record Gains (p : ℕ) (before after : Table) : Type 0 where
      pub level : ℕ
      pub longer : p < level
      pub bounded : level ≤ 32
      pub gained : entry a level after ≡ some o
      pub kept : (q : ℕ) → q ≢ level → entry a q after ≡ entry a q before

    -- A network of 32 bits has no other address.
    alone : (p : ℕ) → 32 ≤ p → p ≤ 32 → a ≢ ip → network_address a p ≡ network_address ip p → ⊥
    alone p lo hi ne within =
        let e : p ≡ 32 = omega arith in
        ne (sym (network_address-host a ha) ∙ (rw e at within) ∙ network_address-host ip hip)

    pub loop-Gains :
        (fuel p : ℕ) (s : Progress)
        → 32 ≤ fuel + p
        → p ≤ 32
        → a ≢ ip
        → network_address a p ≡ network_address ip p
        → Gains p s.table (loop fuel p s).table
    loop-Gains zero p s enough le ne within = absurd (alone p (omega arith) le ne within)
    loop-Gains (suc fuel) p s enough le ne within = elim (dec_lt p 32) [
      | no h ↦ absurd (alone p (omega arith) le ne within)
      | yes p32 ↦
          let sib = sibling p p32 ip hip in
          let s' = install sib (p + 1) o s in
          elim (ℕ_discrete (network_address a (p + 1)) (network_address ip (p + 1))) [
            | yes same ↦
                let g = loop-Gains fuel (p + 1) s' (omega arith) (omega arith) ne same in
                rw (loop_step fuel p p32 s) (record {
                  level = g.level;
                  longer = omega (arith, g.longer);
                  bounded = g.bounded;
                  gained = g.gained;
                  kept = λ q q_ne.
                      g.kept q q_ne
                      ∙ entry-install a q sib (p + 1) o s (λ e q_eq.
                        sibling-ne p p32 ip hip (sym e ∙ ap (network_address a) q_eq ∙ same));
                })
            | no other ↦ rw (loop_step fuel p p32 s) (record {
              level = p + 1;
              longer = omega arith;
              bounded = omega arith;
              gained =
                  loop-outside fuel (p + 1) (p + 1) s' other
                  ∙ entry-install_self a (p + 1) sib (p + 1) o s
                      (in_sibling p p32 ip hip a ha within other) refl;
              kept = λ q q_ne.
                  loop-outside fuel (p + 1) q s' other
                  ∙ entry-install a q sib (p + 1) o s (λ e. q_ne);
            })
          ]
    ]

-- ===== src/Routing/Aggregator/Effects.antt =====
-- What `split` does to the networks around each address: the split network is gone, its other
-- addresses get one network each, and nothing else changes.
use native.Mathlib.Decide.{ℕ_discrete}
use leshy.Prelude.{
  ◌⊎◌, inl, inr, ℕ, ◌≡◌, ◌≢◌, ◌≤◌, ◌<◌, refl, sym, ◌∙◌, ap, none, some, arith, nat_eq, pair_eq,
}
use leshy.Prelude.HashMap
use leshy.Prelude.Word.{u32_mod}
use leshy.Routing.Prefix.{network_address}
use leshy.Routing.Aggregator.{RouteOwner, Progress, uninstall, split}
use leshy.Routing.Aggregator.Covering.{Table, entry}
use leshy.Routing.Aggregator.Split.{loop-spares, loop-outside, loop-Gains}

pub some-injective : {a b : RouteOwner} → some a ≡ some b → a ≡ b
some-injective h = cc

-- A removal changes the entry of one network.
pub entry-uninstall :
    (a q net prefix : ℕ) (s : Progress)
    → (network_address a q ≡ net → q ≢ prefix)
    → entry a q (uninstall net prefix s).table ≡ entry a q s.table
unfolding uninstall
entry-uninstall a q net prefix s h =
    ground (arith, HashMap.get-remove (net, prefix) (network_address a q, q) s.table)

pub entry-uninstall_self :
    (a q net prefix : ℕ) (s : Progress)
    → network_address a q ≡ net
    → q ≡ prefix
    → entry a q (uninstall net prefix s).table ≡ none
unfolding uninstall
entry-uninstall_self a q net prefix s h e =
    ground (arith, HashMap.get-remove (net, prefix) (network_address a q, q) s.table)

module _ (ip : ℕ) (hip : ip < u32_mod) (o : RouteOwner) (p : ℕ) (s : Progress) where
  -- The table after `split` around `ip` of its network of prefix length `p`.
  abbrev pub after : Table
  after = (split ip (network_address ip p) p o s).table

  -- Around `ip` itself only the split network goes.
  pub split-spares : (q : ℕ) → q ≢ p → entry ip q after ≡ entry ip q s.table
  unfolding split
  split-spares q ne =
      loop-spares ip hip o 32 p q _ ∙ entry-uninstall ip q (network_address ip p) p s (λ e. ne)

  pub split-removes : entry ip p after ≡ none
  unfolding split
  split-removes =
      loop-spares ip hip o 32 p p _ ∙ entry-uninstall_self ip p (network_address ip p) p s refl refl

  module _ (a : ℕ) (ha : a < u32_mod) where
    -- Outside the split network nothing changes.
    pub split-outside :
        (q : ℕ) → network_address a p ≢ network_address ip p → entry a q after ≡ entry a q s.table
    unfolding split
    split-outside q out =
        loop-outside ip hip o a ha 32 p q _ out
        ∙ entry-uninstall a q (network_address ip p) p s
            (λ e q_eq. out (sym (ap (network_address a) q_eq) ∙ e))

    -- Inside, each other address changes one network for a longer one of the same owner.
    pub record Refines : Type 0 where
      pub level : ℕ
      pub longer : p < level
      pub bounded : level ≤ 32
      pub gained : entry a level after ≡ some o
      pub removed : entry a p after ≡ none
      pub kept : (q : ℕ) → q ≢ level → q ≢ p → entry a q after ≡ entry a q s.table

    pub split-Refines : p ≤ 32 → a ≢ ip → network_address a p ≡ network_address ip p → Refines
    unfolding split
    split-Refines p32 ne within =
        let net = network_address ip p in
        let g = loop-Gains ip hip o a ha 32 p (uninstall net p s) (omega arith) p32 ne within in
        record {
          level = g.level;
          longer = g.longer;
          bounded = g.bounded;
          gained = g.gained;
          removed =
              g.kept p (λ e. absurd (omega (arith, g.longer)))
              ∙ entry-uninstall_self a p net p s within refl;
          kept = λ q ne_level ne_p. g.kept q ne_level ∙ entry-uninstall a q net p s (λ e. ne_p);
        }

    -- A network around such an address is the new one, or was there before.
    pub Refines-entry :
        (r : Refines) (q : ℕ) (o' : RouteOwner)
        → entry a q after ≡ some o'
        → ((q ≡ r.level) × (o' ≡ o)) ⊎ ((q ≢ p) × (entry a q s.table ≡ some o'))
    Refines-entry r q o' e = elim (ℕ_discrete q r.level) [
      | yes new ↦ inl (new, some-injective (sym e ∙ ap (λ (n : ℕ). entry a n after) new ∙ r.gained))
      | no other ↦ elim (ℕ_discrete q p) [
        | yes old ↦ absurd (cc (e, ap (λ (n : ℕ). entry a n after) old, r.removed))
        | no ne ↦ inr (ne, sym (r.kept q other ne) ∙ e)
      ]
    ]

-- ===== src/Routing/Aggregator/Covering.antt =====
-- What `find_covering_route` finds: the installed network with the longest prefix.
use leshy.Prelude.{ℕ, zero, suc, ◌≡◌, ◌≤◌, ◌<◌, Option, none, some, arith, nat_eq, pair_eq}
use leshy.Prelude.HashMap
use leshy.Prelude.HashMap.{HashMap}
use leshy.Routing.Prefix.{network_address}
use leshy.Routing.Aggregator.{RouteOwner, find_covering_from}

abbrev pub Table : Type 0
Table = HashMap (ℕ × ℕ) RouteOwner

-- The owner of the installed network of a given prefix length around an address.
abbrev pub entry : ℕ → ℕ → Table → Option RouteOwner
entry ip prefix table = HashMap.get (network_address ip prefix, prefix) table

pub find_covering-none :
    (p ip : ℕ) (t : Table) (q : ℕ) → find_covering_from p ip t ≡ none → q ≤ p → entry ip q t ≡ none
unfolding find_covering_from
find_covering-none zero ip t q h le = let e : q ≡ 0 = omega arith in rw e (ground arith)
find_covering-none (suc p) ip t q h le = ground (arith, find_covering-none p ip t q)

module _ (ip : ℕ) (t : Table) (net prefix : ℕ) (o : RouteOwner) where
  -- The network found contains the address, and is installed with the owner found.
  pub find_covering-some :
      (p : ℕ)
      → find_covering_from p ip t ≡ some ((net, prefix), o)
      → (prefix ≤ p) × (net ≡ network_address ip prefix) × (entry ip prefix t ≡ some o)
  unfolding find_covering_from
  find_covering-some zero h = ground arith
  find_covering-some (suc p) h = ground (arith, find_covering-some p)

  -- No installed network with a longer prefix contains the address.
  pub find_covering_longest :
      (p q : ℕ)
      → find_covering_from p ip t ≡ some ((net, prefix), o)
      → prefix < q
      → q ≤ p
      → entry ip q t ≡ none
  unfolding find_covering_from
  find_covering_longest zero q h lt le = absurd (omega arith)
  find_covering_longest (suc p) q h lt le = ground (arith, find_covering_longest p q)

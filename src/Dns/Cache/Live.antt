-- ===== src/Dns/Cache/Live.antt =====
-- The cache as a partial map of what is fresh at a time, and its bound.
use leshy.Prelude.{
  ℕ, ◌-◌, ◌≤◌, ◌≡◌, refl, Bool, not, ◌&&◌, Option, none, some, arith, ltb, if◌then◌else◌, length,
  length-filter-le, Eq, list_eq, nat_eq, ◌==◌, Bool-cases, inl, inr, if_either,
}
use leshy.Prelude.HashMap
use leshy.Prelude.HashMap.{HashMap, IsDistinct}
use leshy.Prelude.Text.{Str}
use leshy.Dns.Cache.{
  CacheKey, CacheEntry, DnsCache, key_eq, key_beq_iff, is_enabled, is_fresh, key_of, lookup,
  is_full, sweep, insert,
}

abbrev pub fresh : {M : Type 0} → ℕ → Option (CacheEntry M) → Option M
fresh now none = none
fresh now (some e) = if is_fresh now e then some e.message else none

module _ {R : Type 0} ⦃r : Eq R⦄ {M : Type 0} where
  -- What a lookup would find.
  abbrev pub live : ℕ → DnsCache R M → CacheKey R → Option M
  live now c key = fresh now (HashMap.get key c.entries)

  -- No more entries than allowed, and no question twice.
  pub record IsValid (c : DnsCache R M) : Type 0 where
    pub bounded : length c.entries ≤ c.max_entries
    pub distinct : IsDistinct c.entries

  -- A sweep drops only what is expired, then and later.
  live-sweep :
      (now later : ℕ) (key : CacheKey R) (c : DnsCache R M) (q : CacheKey R)
      → IsDistinct c.entries
      → now ≤ later
      → fresh later (HashMap.get q (sweep now key c)) ≡ live later c q
  unfolding sweep
  live-sweep now later key c q d le = elim (Bool-cases (is_full key c.max_entries c.entries)) [
    | inr e ↦ rw e refl
    | inl e ↦
        rw (e, HashMap.get-retain_distinct (is_fresh now) q c.entries d)
          (still (HashMap.get q c.entries))
  ]
    where
      still :
          (o : Option (CacheEntry M))
          → fresh later (elim o [ none ↦ none | some v ↦ if is_fresh now v then some v else none ])
            ≡ fresh later o
      still none = refl
      still (some v) = ground arith

  pub sweep-IsValid :
      (now : ℕ) (key : CacheKey R) (c : DnsCache R M)
      → IsValid c
      → IsValid (record c { entries = sweep now key c })
  unfolding sweep
  sweep-IsValid now key c v =
      if_either (λ (es : HashMap (CacheKey R) (CacheEntry M)). IsValid (record c { entries = es }))
        _ _ _
        (record {
          bounded = omega (
            arith,
            length-filter-le (λ (e : CacheKey R × CacheEntry M). is_fresh now e.1) c.entries,
            v.bounded,
          );
          distinct = HashMap.retain-IsDistinct (is_fresh now) c.entries v.distinct;
        })
        v

module _ (to_lowercase : Str → Str) {R : Type 0} ⦃r : Eq R⦄ {M : Type 0} where
  -- `lookup` returns what is fresh for the question, in any case of its letters, and whatever it
  -- removes was expired: nothing that is fresh then or later is lost for any question.
  pub lookup-live :
      (now later : ℕ) (qname : Str) (qtype : R) (c : DnsCache R M) (key : CacheKey R)
      → now ≤ later
      → ((lookup to_lowercase now qname qtype c).0 ≡ live now c (key_of to_lowercase qname qtype))
        × (live later (lookup to_lowercase now qname qtype c).1 key ≡ live later c key)
  unfolding lookup
  lookup-live now later qname qtype c key le =
      let k = key_of to_lowercase qname qtype in
      ground (arith, HashMap.get-remove k key c.entries, key_beq_iff k key)

  -- The insertion takes place.
  abbrev pub accepts : ℕ → CacheKey R → DnsCache R M → Bool
  accepts now key c = is_enabled c && not (is_full key c.max_entries (sweep now key c))

  -- In a valid cache, `insert` stores the response until its TTL runs out if the cache accepts it,
  -- that is if it is enabled and knows the question or has room after the sweep; for every other
  -- question, and for all of them if not, what is fresh then or later stays the same.
  pub insert-live :
      (now later : ℕ) (qname : Str) (qtype : R) (message : M) (ttl : ℕ) (c : DnsCache R M)
      (key : CacheKey R)
      → IsValid c
      → now ≤ later
      → let k = key_of to_lowercase qname qtype in
        live later (insert to_lowercase now qname qtype message ttl c) key ≡ (
          if accepts now k c && k == key
          then (if ltb (later - now) ttl then some message else none)
          else live later c key)
  unfolding insert
  insert-live now later qname qtype message ttl c key v le =
      let k = key_of to_lowercase qname qtype in
      let entry : CacheEntry M = record { message = message; inserted_at = now; ttl = ttl } in
      ground (
        arith,
        live-sweep now later k c key v.distinct le,
        HashMap.get-insert k key entry (sweep now k c),
      )

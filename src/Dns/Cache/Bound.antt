-- ===== src/Dns/Cache/Bound.antt =====
-- Every sequence of calls keeps the cache within its bound.
use leshy.Prelude.{
  ℕ, ◌≤◌, ◌≡◌, ◌∙◌, refl, List, [], ◌∷◌, arith, length, Eq, list_eq, nat_eq, Bool-cases,
  Option-cases, inl, inr,
}
use leshy.Prelude.HashMap
use leshy.Prelude.HashMap.{HashMap, IsDistinct}
use leshy.Prelude.Text.{Str}
use leshy.Dns.Cache.{
  CacheKey, CacheEntry, DnsCache, key_eq, new, is_enabled, clear, is_fresh, key_of, lookup, is_full,
  sweep, insert,
}
use leshy.Dns.Cache.Live.{IsValid, sweep-IsValid}

pub data Call (R M : Type 0) : Type 0 where
  get : ℕ → Str → R → Call R M
  put : ℕ → Str → R → M → ℕ → Call R M
  wipe : Call R M

module _ {R : Type 0} ⦃r : Eq R⦄ {M : Type 0} where
  length-remove-le :
      (k : CacheKey R) (m : HashMap (CacheKey R) (CacheEntry M))
      → length (HashMap.remove k m) ≤ length m
  unfolding HashMap.remove
  length-remove-le k [] = omega arith
  length-remove-le k ((j, w) ∷ m) = ground (arith, length-remove-le k m)

module _ (to_lowercase : Str → Str) {R : Type 0} ⦃r : Eq R⦄ {M : Type 0} where
  pub lookup-IsValid :
      (now : ℕ) (qname : Str) (qtype : R) (c : DnsCache R M)
      → IsValid c
      → IsValid (lookup to_lowercase now qname qtype c).1
  unfolding lookup
  lookup-IsValid now qname qtype c v =
      let key = key_of to_lowercase qname qtype in
      elim (Option-cases (HashMap.get key c.entries)) [
        | inl e ↦ rw (e, lookup) v
        | inr (entry, e) ↦
            rw (e, lookup)
              (elim (Bool-cases (is_fresh now entry)) [
                | inl t ↦ rw t v
                | inr t ↦ rw t (record {
                  bounded = omega (arith, length-remove-le key c.entries, v.bounded);
                  distinct = HashMap.remove-IsDistinct key c.entries v.distinct;
                })
              ])
      ]

  pub insert-IsValid :
      (now : ℕ) (qname : Str) (qtype : R) (message : M) (ttl : ℕ) (c : DnsCache R M)
      → IsValid c
      → IsValid (insert to_lowercase now qname qtype message ttl c)
  unfolding insert
  insert-IsValid now qname qtype message ttl c v =
      let key = key_of to_lowercase qname qtype in
      let swept = sweep-IsValid now key c v in
      let es = sweep now key c in
      let entry : CacheEntry M = record { message = message; inserted_at = now; ttl = ttl } in
      elim (Bool-cases (is_enabled c)) [
        | inr off ↦ rw off v
        | inl live ↦ rw live (elim (Bool-cases (is_full key c.max_entries es)) [
          | inl full ↦ rw full swept
          | inr room ↦ rw room (record {
            bounded = ground (arith, swept.bounded, HashMap.length-insert key entry es);
            distinct = HashMap.insert-IsDistinct key entry es swept.distinct;
          })
        ])
      ]

  unfoldable pub run : List (Call R M) → DnsCache R M → DnsCache R M
  run [] c = c
  run (get now qname qtype ∷ calls) c = run calls (lookup to_lowercase now qname qtype c).1
  run (put now qname qtype message ttl ∷ calls) c =
      run calls (insert to_lowercase now qname qtype message ttl c)
  run (wipe ∷ calls) c = run calls (clear c)

  pub run-max_entries :
      (calls : List (Call R M)) (c : DnsCache R M) → (run calls c).max_entries ≡ c.max_entries
  unfolding run lookup insert clear
  run-max_entries [] c = refl
  run-max_entries (get now qname qtype ∷ calls) c = run-max_entries calls _ ∙ ground arith
  run-max_entries (put now qname qtype message ttl ∷ calls) c =
      run-max_entries calls _ ∙ ground arith
  run-max_entries (wipe ∷ calls) c = run-max_entries calls _

  run-IsValid : (calls : List (Call R M)) (c : DnsCache R M) → IsValid c → IsValid (run calls c)
  unfolding run clear
  run-IsValid [] c v = v
  run-IsValid (get now qname qtype ∷ calls) c v =
      run-IsValid calls _ (lookup-IsValid now qname qtype c v)
  run-IsValid (put now qname qtype message ttl ∷ calls) c v =
      run-IsValid calls _ (insert-IsValid now qname qtype message ttl c v)
  run-IsValid (wipe ∷ calls) c v =
      run-IsValid calls _ (record { bounded = omega arith; distinct = HashMap.always })

  -- Whatever calls a new cache has served, at whatever times, it holds no more entries than it was
  -- created for, no question twice, and none at all if that number is 0.
  pub run_bounded :
      (max_entries : ℕ) (calls : List (Call R M))
      → let c = run calls (new max_entries) in
        (length c.entries ≤ max_entries) × IsDistinct c.entries
  unfolding new
  run_bounded max_entries calls =
      let start : DnsCache R M = new max_entries in
      let v =
        run-IsValid calls start (record { bounded = omega arith; distinct = HashMap.always }) in
      (omega (arith, v.bounded, run-max_entries calls start), v.distinct)

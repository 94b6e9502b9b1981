-- ===== src/Dns/Cache.antt =====
-- src/dns/cache.rs: `DnsCache`, a bounded map from questions to responses that expire.
-- Messages and record types are hickory's, and so are parameters, as is `str::to_lowercase`. An
-- `Instant` and a `Duration` are numbers of one unit; a call reads the clock once, as `now`.
pub mod Live
pub mod Bound
use leshy.Prelude.{
  ℕ, ◌-◌, ◌≡◌, ◌↔◌, Bool, true, false, not, ◌&&◌, Option, none, some, List, [], arith, ltb, leb,
  if◌then◌else◌, length, Eq, list_eq, nat_eq, list_beq_iff, ◌==◌,
}
use leshy.Prelude.HashMap
use leshy.Prelude.HashMap.{HashMap}
use leshy.Prelude.Text.{Str}

pub record CacheKey (R : Type 0) : Type 0 where
  pub qname : Str
  pub qtype : R

pub record CacheEntry (M : Type 0) : Type 0 where
  pub message : M
  pub inserted_at : ℕ
  pub ttl : ℕ

pub record DnsCache (R M : Type 0) : Type 0 where
  pub entries : HashMap (CacheKey R) (CacheEntry M)
  pub max_entries : ℕ

module _ {R : Type 0} ⦃r : Eq R⦄ where
  abbrev pub key_beq : CacheKey R → CacheKey R → Bool
  key_beq a b = a.qname == b.qname && a.qtype == b.qtype

  pub key_beq_iff : (a b : CacheKey R) → (key_beq a b ≡ true) ↔ (a ≡ b)
  key_beq_iff a b =
      ground (arith, list_beq_iff ⦃e = nat_eq⦄ a.qname b.qname, r.decides a.qtype b.qtype)

  instance abbrev pub key_eq : Eq (CacheKey R)
  key_eq = record { test = key_beq; decides = key_beq_iff }

unfoldable pub new : {R M : Type 0} → ℕ → DnsCache R M
new max_entries = record { entries = []; max_entries = max_entries }

unfoldable pub is_enabled : {R M : Type 0} → DnsCache R M → Bool
is_enabled c = ltb 0 c.max_entries

unfoldable pub clear : {R M : Type 0} → DnsCache R M → DnsCache R M
clear c = record c { entries = [] }

-- `entry.inserted_at.elapsed() < entry.ttl`; `elapsed` saturates at zero
abbrev pub is_fresh : {M : Type 0} → ℕ → CacheEntry M → Bool
is_fresh now entry = ltb (now - entry.inserted_at) entry.ttl

abbrev pub key_of : (Str → Str) → {R : Type 0} → Str → R → CacheKey R
key_of to_lowercase qname qtype = record { qname = to_lowercase qname; qtype = qtype }

module _ {R : Type 0} ⦃r : Eq R⦄ {M : Type 0} where
  -- At capacity, and the key is new.
  abbrev pub is_full : CacheKey R → ℕ → HashMap (CacheKey R) (CacheEntry M) → Bool
  is_full key max_entries entries =
      leb max_entries (length entries) && not (HashMap.contains_key key entries)

  -- the sweep of expired entries
  unfoldable pub sweep : ℕ → CacheKey R → DnsCache R M → HashMap (CacheKey R) (CacheEntry M)
  sweep now key c =
      if is_full key c.max_entries c.entries
      then HashMap.retain (is_fresh now) c.entries
      else c.entries

module _ (to_lowercase : Str → Str) {R : Type 0} ⦃r : Eq R⦄ {M : Type 0} where
  unfoldable pub lookup : ℕ → Str → R → DnsCache R M → Option M × DnsCache R M
  lookup now qname qtype c =
      let key = key_of to_lowercase qname qtype in
      elim (HashMap.get key c.entries) [
        | none ↦ (none, c)
        | some entry ↦
            if is_fresh now entry
            then (some entry.message, c)
            else (none, record c { entries = HashMap.remove key c.entries })
      ]

  unfoldable pub insert : ℕ → Str → R → M → ℕ → DnsCache R M → DnsCache R M
  insert now qname qtype message ttl c =
      let key = key_of to_lowercase qname qtype in
      let entries = sweep now key c in
      let entry : CacheEntry M = record { message = message; inserted_at = now; ttl = ttl } in
      if not (is_enabled c)
      then c
      else if is_full key c.max_entries entries
      then record c { entries = entries }
      else record c { entries = HashMap.insert key entry entries }

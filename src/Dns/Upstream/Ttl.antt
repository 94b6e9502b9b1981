-- ===== src/Dns/Upstream/Ttl.antt =====
-- The bounds of the time for which an answer is kept.
use leshy.Prelude.{
  ℕ, ◌≡◌, ◌≤◌, ◌<◌, ap, ◌⊎◌, refl, true, Bool, false, ◌||◌, Option, none, some, List, [], ◌∷◌,
  arith, inl, inr, In, is_empty, max, Option-cases, Bool-cases, ltb, ◌≢◌,
}
use leshy.Config.{DnsServerConfig, ZoneConfig, ServerConfig}
use leshy.Dns.Message.{Hickory, Record}
use leshy.Dns.Upstream.{
  cascade, clamp, min_ttl_of, server_setting, zone_setting, is_code, resolve_cache_ttl,
}

-- A setting that a table, if there is one, does not make.
abbrev Unset : {A : Type 0} → (A → Option ℕ) → Option A → Type 0
Unset field none = Unit {0}
Unset field (some c) = field c ≡ none

-- A setting of a server of a zone: the server's, or the zone's if the server makes none, or the
-- global one if neither does.
pub data InForce (of_server : DnsServerConfig → Option ℕ) (of_zone : ZoneConfig → Option ℕ)
    (global : ℕ) : Option DnsServerConfig → Option ZoneConfig → ℕ → Type 0 where
  by_server :
      (c : DnsServerConfig) (z : Option ZoneConfig) (n : ℕ)
      → of_server c ≡ some n
      → InForce of_server of_zone global (some c) z n
  by_zone :
      (s : Option DnsServerConfig) (c : ZoneConfig) (n : ℕ)
      → Unset of_server s
      → of_zone c ≡ some n
      → InForce of_server of_zone global s (some c) n
  by_default :
      (s : Option DnsServerConfig) (z : Option ZoneConfig)
      → Unset of_server s
      → Unset of_zone z
      → InForce of_server of_zone global s z global

module _ (of_server : DnsServerConfig → Option ℕ) (of_zone : ZoneConfig → Option ℕ)
    (global : ℕ) where
  server-Unset :
      (s : Option DnsServerConfig) → Unset of_server s → server_setting of_server s ≡ none
  unfolding server_setting
  server-Unset none u = refl
  server-Unset (some c) u = u

  zone-Unset : (z : Option ZoneConfig) → Unset of_zone z → zone_setting of_zone z ≡ none
  unfolding zone_setting
  zone-Unset none u = refl
  zone-Unset (some c) u = u

  cascade-InForce :
      (s : Option DnsServerConfig) (z : Option ZoneConfig) (n : ℕ)
      → InForce of_server of_zone global s z n
      → cascade (server_setting of_server s) (zone_setting of_zone z) global ≡ n
  unfolding cascade server_setting zone_setting
  cascade-InForce _ _ _ (by_server c z n e) = rw (e, cascade) refl
  cascade-InForce _ _ _ (by_zone s c n u e) =
      let none_here = server-Unset s u in rw (none_here, e, cascade) refl
  cascade-InForce _ _ _ (by_default s z u v) =
      let no_server = server-Unset s u in
      let no_zone = zone-Unset z v in rw (no_server, no_zone, cascade) refl

-- The settings in force.
abbrev pub low : Option DnsServerConfig → Option ZoneConfig → ServerConfig → ℕ
low s z global =
    cascade (server_setting (λ c. c.cache_min_ttl) s) (zone_setting (λ c. c.cache_min_ttl) z)
      global.cache_min_ttl

abbrev pub high : Option DnsServerConfig → Option ZoneConfig → ServerConfig → ℕ
high s z global =
    cascade (server_setting (λ c. c.cache_max_ttl) s) (zone_setting (λ c. c.cache_max_ttl) z)
      global.cache_max_ttl

module _ (hickory : Hickory) where
  open hickory use {Message, nx_domain, response_code, answers, code_eq}

  is_empty-cases :
      (records : List Record)
      → ((records ≡ []) × (is_empty records ≡ true)) ⊎ ((records ≢ []) × (is_empty records ≡ false))
  is_empty-cases [] = inl (refl, refl)
  is_empty-cases (r ∷ records) = inr (λ e. absurd (ground arith), refl)

  -- The answer says that there is no such name, or has no record.
  abbrev pub is_negative : Message → Bool
  is_negative message =
      is_code hickory (response_code message) nx_domain || is_empty (answers message)

  nothing : (records : List Record) (r : Record) → In r records → min_ttl_of records ≢ none
  unfolding min_ttl_of
  nothing [] r m e = elim m [ ]
  nothing (x ∷ records) r m e = elim (Option-cases (min_ttl_of records)) [
    | inl y ↦ ground arith
    | inr (k, y) ↦ ground arith
  ]

  min_ttl_of-le :
      (records : List Record) (r : Record) (n : ℕ)
      → In r records
      → min_ttl_of records ≡ some n
      → n ≤ r.ttl
  unfolding min_ttl_of
  min_ttl_of-le [] r n m e = elim m [ ]
  min_ttl_of-le (x ∷ records) r n (inl same) e = elim (Option-cases (min_ttl_of records)) [
    | inl y ↦ let t = ap (λ (a : Record). a.ttl) same in ground arith
    | inr (k, y) ↦ let t = ap (λ (a : Record). a.ttl) same in ground arith
  ]
  min_ttl_of-le (x ∷ records) r n (inr m) e = elim (Option-cases (min_ttl_of records)) [
    | inl y ↦ absurd (nothing records r m y)
    | inr (k, y) ↦ let le = min_ttl_of-le records r k m y in ground arith
  ]

  clamp-none : (n lo hi : ℕ) → hi < lo → clamp n lo hi ≡ none
  unfolding clamp
  clamp-none n lo hi above = ground arith

  clamp-some :
      (n lo hi : ℕ)
      → lo ≤ hi
      → (t : ℕ) × (clamp n lo hi ≡ some t) × (lo ≤ t) × (t ≤ hi) × (t ≤ max lo n)
  unfolding clamp
  clamp-some n lo hi le = elim (Bool-cases (ltb n lo)) [
    | inl x ↦ (lo, ground arith, ground arith, ground arith, ground arith)
    | inr x ↦ elim (Bool-cases (ltb hi n)) [
      | inl y ↦ (hi, ground arith, ground arith, ground arith, ground arith)
      | inr y ↦ (n, ground arith, ground arith, ground arith, ground arith)
    ]
  ]

  clamped :
      (records : List Record) (n lo hi : ℕ)
      → (n ≤ lo) ⊎ ((r : Record) → In r records → n ≤ r.ttl)
      → (hi < lo) × (clamp n lo hi ≡ none)
        ⊎ ((t : ℕ) × (clamp n lo hi ≡ some t)
            × (lo ≤ t)
            × (t ≤ hi)
            × ((t ≡ lo) ⊎ ((r : Record) → In r records → t ≤ r.ttl)))
  clamped records n lo hi short = elim (Bool-cases (ltb hi lo)) [
    | inl above ↦ inl (ground arith, clamp-none n lo hi (ground arith))
    | inr le ↦
        let (t, is, lower, upper, least) = clamp-some n lo hi (ground arith) in
        inr (
          t,
          is,
          lower,
          upper,
          elim (Bool-cases (ltb lo t)) [
            | inr not_above ↦ inl (ground arith)
            | inl above ↦ inr (λ r m. elim short [
              | inl n_le ↦ absurd (ground arith)
              | inr each ↦ let n_le = each r m in ground arith
            ])
          ],
        )
  ]

  module _ (s : Option DnsServerConfig) (z : Option ZoneConfig) (global : ServerConfig)
      (message : Message) where
    negative :
        (n : ℕ)
        → is_negative message ≡ true
        → cascade
            (server_setting (λ c. c.cache_negative_ttl) s)
            (zone_setting (λ c. c.cache_negative_ttl) z)
            global.cache_negative_ttl
          ≡ n
        → resolve_cache_ttl hickory s z global message ≡ some n
    unfolding resolve_cache_ttl
    negative n e is = rw (e, is) refl

    is_negative-cases :
        (((response_code message ≡ nx_domain) ⊎ (answers message ≡ []))
          × (is_negative message ≡ true))
        ⊎ ((response_code message ≢ nx_domain)
            × (answers message ≢ [])
            × (is_negative message ≡ false))
    unfolding is_code
    is_negative-cases = elim (Bool-cases (is_code hickory (response_code message) nx_domain)) [
      | inl t ↦ inl (inl ((code_eq.decides (response_code message) nx_domain).0 t), ground arith)
      | inr f ↦ elim (is_empty-cases (answers message)) [
        | inl (e, is) ↦ inl (inr e, rw (f, is) refl)
        | inr (full, is) ↦ inr (
          λ same.
              (let t = (code_eq.decides (response_code message) nx_domain).1 same in
                absurd (ground arith)),
          full,
          rw (f, is) refl,
        )
      ]
    ]

    positive :
        (lo hi : ℕ)
        → is_negative message ≡ false
        → low s z global ≡ lo
        → high s z global ≡ hi
        → (hi < lo) × (resolve_cache_ttl hickory s z global message ≡ none)
          ⊎ ((t : ℕ) × (resolve_cache_ttl hickory s z global message ≡ some t)
              × (lo ≤ t)
              × (t ≤ hi)
              × ((t ≡ lo) ⊎ ((r : Record) → In r (answers message) → t ≤ r.ttl)))
    unfolding resolve_cache_ttl
    positive lo hi e is_lo is_hi = elim (Option-cases (min_ttl_of (answers message))) [
      | inl f ↦ rw (f, e, is_lo, is_hi) (clamped (answers message) lo lo hi (inl (omega arith)))
      | inr (k, f) ↦
          rw (f, e, is_lo, is_hi)
            (clamped (answers message) k lo hi
              (inr (λ r m. min_ttl_of-le (answers message) r k m f)))
    ]

    -- Let `lo`, `hi` and `neg` be the least time, the greatest and the one of negative answers, each
    -- of them the server's, or the zone's if the server sets none, or the global one if neither
    -- does. An answer that says that there is no such name, or has no record, is kept for `neg`. For
    -- every other, the computation panics if `hi` is below `lo`; if not, the answer is kept for a
    -- time from `lo` to `hi`, which is `lo` or no longer than each of its records allows.
    pub resolve_cache_ttl-settles :
        (lo hi neg : ℕ)
        → InForce (λ c. c.cache_min_ttl) (λ c. c.cache_min_ttl) global.cache_min_ttl s z lo
        → InForce (λ c. c.cache_max_ttl) (λ c. c.cache_max_ttl) global.cache_max_ttl s z hi
        → InForce
            (λ c. c.cache_negative_ttl)
            (λ c. c.cache_negative_ttl)
            global.cache_negative_ttl
            s
            z
            neg
        → (((response_code message ≡ nx_domain) ⊎ (answers message ≡ []))
            × (resolve_cache_ttl hickory s z global message ≡ some neg))
          ⊎ ((response_code message ≢ nx_domain)
              × (answers message ≢ [])
              × ((hi < lo) × (resolve_cache_ttl hickory s z global message ≡ none)
                  ⊎ ((t : ℕ) × (resolve_cache_ttl hickory s z global message ≡ some t)
                      × (lo ≤ t)
                      × (t ≤ hi)
                      × ((t ≡ lo) ⊎ ((r : Record) → In r (answers message) → t ≤ r.ttl)))))
    resolve_cache_ttl-settles lo hi neg at_least at_most for_none = elim is_negative-cases [
      | inl (why, e) ↦ inl (why, negative neg e (cascade-InForce _ _ _ s z neg for_none))
      | inr (found, full, e) ↦ inr (
        found,
        full,
        positive lo hi e (cascade-InForce _ _ _ s z lo at_least)
            (cascade-InForce _ _ _ s z hi at_most),
      )
    ]

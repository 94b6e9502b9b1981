-- ===== src/Routing/Manager/Cidr.antt =====
-- What `parse_cidr` accepts.
use leshy.Prelude.{
  ℕ, ◌≡◌, ◌≤◌, ◌<◌, refl, Option, none, some, arith, inl, inr, Option-cases, [], ◌∷◌,
}
use leshy.Prelude.Results.{ok}
use leshy.Prelude.Text.{Str, split_once, dot, decimal}
use leshy.Prelude.Word.{u32_mod}
use leshy.Config.{IpAddr, v4, v6}
use leshy.Net.{parse_u8, parse_ip, parse_v4, octets, parse_octet, at_most}
use leshy.Routing.Manager.{parse_cidr, longest}

at_most-le : (bound : ℕ) (o : Option ℕ) (n : ℕ) → at_most bound o ≡ some n → n ≤ bound
unfolding at_most
at_most-le bound none n e = absurd (ground arith)
at_most-le bound (some m) n e = ground arith

parse_octet-le : (s : Str) (n : ℕ) → parse_octet s ≡ some n → n ≤ 255
unfolding parse_octet
parse_octet-le [] n e = absurd (ground arith)
parse_octet-le (c ∷ s) n e = at_most-le 255 (decimal 0 (c ∷ s)) n (ground arith)

octets-lt :
    (a b c d : Option ℕ) (n : ℕ)
    → ((x : ℕ) → a ≡ some x → x ≤ 255)
    → ((x : ℕ) → b ≡ some x → x ≤ 255)
    → ((x : ℕ) → c ≡ some x → x ≤ 255)
    → ((x : ℕ) → d ≡ some x → x ≤ 255)
    → octets a b c d ≡ some n
    → n < u32_mod
unfolding octets
octets-lt (some a) (some b) (some c) (some d) n ha hb hc hd e =
    let xa = ha a refl in
    let xb = hb b refl in let xc = hc c refl in let xd = hd d refl in ground arith
octets-lt none b c d n ha hb hc hd e = absurd (ground arith)
octets-lt (some a) none c d n ha hb hc hd e = absurd (ground arith)
octets-lt (some a) (some b) none d n ha hb hc hd e = absurd (ground arith)
octets-lt (some a) (some b) (some c) none n ha hb hc hd e = absurd (ground arith)

pub parse_v4-lt : (s : Str) (n : ℕ) → parse_v4 s ≡ some n → n < u32_mod
unfolding parse_v4
parse_v4-lt s n e = elim (Option-cases (split_once dot s)) [
  | inl x ↦ absurd (ground arith)
  | inr ((a, s2), x) ↦ elim (Option-cases (split_once dot s2)) [
    | inl y ↦ absurd (ground arith)
    | inr ((b, s3), y) ↦ elim (Option-cases (split_once dot s3)) [
      | inl z ↦ absurd (ground arith)
      | inr ((c, d), z) ↦
          octets-lt (parse_octet a) (parse_octet b) (parse_octet c) (parse_octet d) n
            (parse_octet-le a) (parse_octet-le b) (parse_octet-le c) (parse_octet-le d)
            (ground arith)
    ]
  ]
]

-- An address of its family, and a prefix length that fits it.
abbrev pub IsCidr : IpAddr × ℕ → Type 0
IsCidr (v4 ip, prefix_len) = (ip < u32_mod) × (prefix_len ≤ 32)
IsCidr (v6 ip, prefix_len) = prefix_len ≤ 128

parse_ip-v4 :
    (parse_v6 : Str → Option ℕ) (s : Str) (ip : IpAddr)
    → parse_ip parse_v6 s ≡ some ip
    → (n : ℕ) → ip ≡ v4 n
    → n < u32_mod
unfolding parse_ip
parse_ip-v4 parse_v6 s ip e n same = elim (Option-cases (parse_v4 s)) [
  | inl x ↦ elim (Option-cases (parse_v6 s)) [
    | inl y ↦ absurd (ground arith)
    | inr (m, y) ↦ absurd (ground arith)
  ]
  | inr (m, x) ↦ parse_v4-lt s n (ground arith)
]

fits : (ip : IpAddr) (n : ℕ) → ((x : ℕ) → ip ≡ v4 x → x < u32_mod) → n ≤ longest ip → IsCidr (ip, n)
unfolding longest
fits (v4 ip) n h le = (h ip refl, le)
fits (v6 ip) n h le = le

-- What `parse_cidr` accepts is an address and a prefix length that fits its family: at most 32 for
-- IPv4 and at most 128 for IPv6, and an IPv4 address of 32 bits. The parser of IPv6 addresses is
-- any function.
pub parse_cidr-IsCidr :
    (parse_v6 : Str → Option ℕ) (cidr : Str) (ip : IpAddr) (prefix_len : ℕ)
    → parse_cidr parse_v6 cidr ≡ ok (ip, prefix_len)
    → IsCidr (ip, prefix_len)
unfolding parse_cidr
parse_cidr-IsCidr parse_v6 cidr ip prefix_len e = elim (Option-cases (split_once b'/' cidr)) [
  | inl x ↦ elim (Option-cases (parse_ip parse_v6 cidr)) [
    | inl y ↦ absurd (ground arith)
    | inr (a, y) ↦ fits ip prefix_len (parse_ip-v4 parse_v6 cidr ip (ground arith)) (ground arith)
  ]
  | inr ((l, r), x) ↦ elim (Option-cases (parse_ip parse_v6 l)) [
    | inl y ↦ absurd (ground arith)
    | inr (a, y) ↦ elim (Option-cases (parse_u8 r)) [
      | inl z ↦ absurd (ground arith)
      | inr (n, z) ↦ fits ip prefix_len (parse_ip-v4 parse_v6 l ip (ground arith)) (ground arith)
    ]
  ]
]

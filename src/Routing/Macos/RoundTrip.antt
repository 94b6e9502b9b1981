-- ===== src/Routing/Macos/RoundTrip.antt =====
-- The destination that `/sbin/route` is given, read back.
use leshy.Prelude.{
  ℕ, ◌≡◌, ◌≤◌, refl, ◌∙◌, inl, inr, true, Option, none, some, ◌∷◌, ◌++◌, arith, eqb, Bool-cases,
}
use leshy.Prelude.Results.{ok}
use leshy.Prelude.Text.{Str}
use leshy.Config.{IpAddr, v4, v6}
use leshy.Net.{parse_ip, parse_v4, show_u8, show_ip}
use leshy.Net.RoundTrip.{
  parse_v4-show_v4, show_v4-lacks, parse_u8-show_u8, lacks, split_once-lacks, split_once-none,
}
use leshy.Routing.Manager.{parse_cidr, longest}
use leshy.Routing.Manager.Cidr.{IsCidr}
use leshy.Routing.Macos.{destination, is_host}

-- What the text of an IPv6 address is: it is read back, has no slash and is no IPv4 address.
pub record Ipv6Text (show_v6 : ℕ → Str) (parse_v6 : Str → Option ℕ) (ip : ℕ) : Type 0 where
  pub parses : parse_v6 (show_v6 ip) ≡ some ip
  pub lacks_slash : lacks b'/' (show_v6 ip) ≡ true
  pub is_no_v4 : parse_v4 (show_v6 ip) ≡ none

abbrev pub Prints : (ℕ → Str) → (Str → Option ℕ) → IpAddr → Type 0
Prints show_v6 parse_v6 (v4 ip) = Unit
Prints show_v6 parse_v6 (v6 ip) = Ipv6Text show_v6 parse_v6 ip

module _ (show_v6 : ℕ → Str) (parse_v6 : Str → Option ℕ) where
  parse_ip-show_ip :
      (ip : IpAddr) (prefix_len : ℕ)
      → IsCidr (ip, prefix_len)
      → Prints show_v6 parse_v6 ip
      → (parse_ip parse_v6 (show_ip show_v6 ip) ≡ some ip)
        × (lacks b'/' (show_ip show_v6 ip) ≡ true)
        × (prefix_len ≤ longest ip)
        × (longest ip ≤ 128)
  unfolding parse_ip show_ip longest
  parse_ip-show_ip (v4 ip) prefix_len (lt, le) p =
      (rw (parse_ip, parse_v4-show_v4 ip lt) refl, show_v4-lacks ip lt, le, omega arith)
  parse_ip-show_ip (v6 ip) prefix_len le p =
      (rw (parse_ip, p.is_no_v4, p.parses) refl, p.lacks_slash, le, omega arith)

  parse_cidr-host :
      (ip : IpAddr) (s : Str)
      → lacks b'/' s ≡ true
      → parse_ip parse_v6 s ≡ some ip
      → parse_cidr parse_v6 s ≡ ok (ip, longest ip)
  unfolding parse_cidr
  parse_cidr-host ip s h e = rw (parse_cidr, split_once-none b'/' s h, e) refl

  parse_cidr-net :
      (ip : IpAddr) (s : Str) (n : ℕ)
      → lacks b'/' s ≡ true
      → parse_ip parse_v6 s ≡ some ip
      → n ≤ longest ip
      → longest ip ≤ 128
      → parse_cidr parse_v6 (s ++ b'/' ∷ show_u8 n) ≡ ok (ip, n)
  unfolding parse_cidr
  parse_cidr-net ip s n h e le most =
      rw
        (
          parse_cidr,
          split_once-lacks b'/' s (show_u8 n) h,
          e,
          parse_u8-show_u8 n (omega (arith, le, most)),
        )
        (ground arith)

  -- The destination that the adder hands to `/sbin/route` names the route: for an address and a
  -- prefix length that fit each other, `parse_cidr` reads it back as just these two, host routes
  -- without a length included. The text of an IPv6 address is the parsers' own.
  pub parse_cidr-destination :
      (ip : IpAddr) (prefix_len : ℕ)
      → IsCidr (ip, prefix_len)
      → Prints show_v6 parse_v6 ip
      → parse_cidr parse_v6 (destination show_v6 ip prefix_len) ≡ ok (ip, prefix_len)
  unfolding destination is_host
  parse_cidr-destination ip prefix_len cidr prints =
      let (parses, plain, le, most) = parse_ip-show_ip ip prefix_len cidr prints in
      elim (Bool-cases (eqb prefix_len (longest ip))) [
        | inl e ↦ rw e (parse_cidr-host ip (show_ip show_v6 ip) plain parses ∙ ground arith)
        | inr e ↦ rw e (parse_cidr-net ip (show_ip show_v6 ip) prefix_len plain parses le most)
      ]

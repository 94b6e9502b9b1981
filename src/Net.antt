-- ===== src/Net.antt =====
-- The parsers of the standard library that the program calls on addresses and prefix lengths:
-- `u8::from_str`, `Ipv4Addr::from_str` and `IpAddr::from_str`. The last takes the parser of IPv6
-- addresses as a parameter. And the printers: `Display` of `u8` and of `Ipv4Addr`.
pub mod RoundTrip
use leshy.Prelude.{
  ℕ, ◌+◌, ◌*◌, ◌/◌, ◌%◌, not, ◌&&◌, ◌||◌, Option, none, some, [], ◌∷◌, ◌++◌, eqb, ltb, leb,
  if◌then◌else◌, length, is_empty,
}
use leshy.Prelude.Text.{Str, dot, decimal, split_once}
use leshy.Config.{IpAddr, v4, v6}

-- A leading `+` is allowed.
unfoldable pub strip_plus : Str → Str
strip_plus [] = []
strip_plus (c ∷ s) = if eqb c b'+' then s else c ∷ s

unfoldable pub at_most : ℕ → Option ℕ → Option ℕ
at_most bound none = none
at_most bound (some n) = if leb n bound then some n else none

unfoldable pub parse_u8 : Str → Option ℕ
parse_u8 s =
    let digits = strip_plus s in if is_empty digits then none else at_most 255 (decimal 0 digits)

-- One to three digits, with no leading zero.
unfoldable pub parse_octet : Str → Option ℕ
parse_octet [] = none
parse_octet (c ∷ s) =
    if ltb 3 (length (c ∷ s)) || (eqb c b'0' && not (is_empty s))
    then none
    else at_most 255 (decimal 0 (c ∷ s))

unfoldable pub octets : Option ℕ → Option ℕ → Option ℕ → Option ℕ → Option ℕ
octets (some a) (some b) (some c) (some d) = some (((a * 256 + b) * 256 + c) * 256 + d)
octets _ _ _ _ = none

unfoldable pub parse_v4 : Str → Option ℕ
parse_v4 s = elim (split_once dot s) [
  | none ↦ none
  | some (a, rest) ↦ elim (split_once dot rest) [
    | none ↦ none
    | some (b, rest') ↦ elim (split_once dot rest') [
      | none ↦ none
      | some (c, d) ↦ octets (parse_octet a) (parse_octet b) (parse_octet c) (parse_octet d)
    ]
  ]
]

unfoldable pub parse_ip : (Str → Option ℕ) → Str → Option IpAddr
parse_ip parse_v6 s = elim (parse_v4 s) [
  | some ip ↦ some (v4 ip)
  | none ↦ elim (parse_v6 s) [ some ip ↦ some (v6 ip) | none ↦ none ]
]

-- the character of a decimal digit
abbrev pub digit : ℕ → ℕ
digit n = b'0' + n

unfoldable pub show_u8 : ℕ → Str
show_u8 n =
    if ltb n 10
    then digit n ∷ []
    else if ltb n 100
    then digit (n / 10) ∷ digit (n % 10) ∷ []
    else digit (n / 100) ∷ digit (n / 10 % 10) ∷ digit (n % 10) ∷ []

unfoldable pub show_v4 : ℕ → Str
show_v4 ip =
    show_u8 (ip / 16777216)
    ++ dot
      ∷ (show_u8 (ip / 65536 % 256) ++ dot ∷ (show_u8 (ip / 256 % 256) ++ dot ∷ show_u8 (ip % 256)))

unfoldable pub show_ip : (ℕ → Str) → IpAddr → Str
show_ip show_v6 (v4 ip) = show_v4 ip
show_ip show_v6 (v6 ip) = show_v6 ip

-- ===== src/Net/RoundTrip.antt =====
-- Parsing what was printed.
use leshy.Prelude.{
  ℕ, ◌+◌, ◌*◌, ◌/◌, ◌%◌, ◌≤◌, ◌<◌, ◌≡◌, refl, ◌∙◌, ap, Bool, true, false, none, some, [], ◌∷◌, ◌++◌,
  arith, eqb, if◌then◌else◌,
}
use leshy.Prelude.Text.{Str, dot, split_once, decimal}
use leshy.Prelude.Word.{u32_mod}
use leshy.Net.{strip_plus, at_most, parse_u8, parse_octet, octets, parse_v4, show_u8, show_v4}

parse_octet-show_u8 : (n : ℕ) → n ≤ 255 → parse_octet (show_u8 n) ≡ some n
unfolding show_u8 parse_octet decimal at_most
parse_octet-show_u8 n le = ground arith

pub parse_u8-show_u8 : (n : ℕ) → n ≤ 255 → parse_u8 (show_u8 n) ≡ some n
unfolding show_u8 parse_u8 strip_plus decimal at_most
parse_u8-show_u8 n le = ground arith

-- The text before a character that it does not have is split off whole.
abbrev pub lacks : ℕ → Str → Bool
lacks c [] = true
lacks c (x ∷ s) = if eqb x c then false else lacks c s

pub split_once-lacks :
    (c : ℕ) (s rest : Str) → lacks c s ≡ true → split_once c (s ++ c ∷ rest) ≡ some (s, rest)
unfolding split_once
split_once-lacks c [] rest h = ground arith
split_once-lacks c (x ∷ s) rest h = ground (arith, split_once-lacks c s rest)

pub split_once-none : (c : ℕ) (s : Str) → lacks c s ≡ true → split_once c s ≡ none
unfolding split_once
split_once-none c [] h = refl
split_once-none c (x ∷ s) h = ground (arith, split_once-none c s)

show_u8-lacks : (c n : ℕ) → n ≤ 255 → c < b'0' → lacks c (show_u8 n) ≡ true
unfolding show_u8
show_u8-lacks c n le lt = ground arith

parse_v4_parts :
    (a b c d : Str)
    → lacks dot a ≡ true
    → lacks dot b ≡ true
    → lacks dot c ≡ true
    → parse_v4 (a ++ dot ∷ (b ++ dot ∷ (c ++ dot ∷ d)))
      ≡ octets (parse_octet a) (parse_octet b) (parse_octet c) (parse_octet d)
unfolding parse_v4
parse_v4_parts a b c d la lb lc = rw (
  parse_v4,
  split_once-lacks dot a (b ++ dot ∷ (c ++ dot ∷ d)) la,
  split_once-lacks dot b (c ++ dot ∷ d) lb,
  split_once-lacks dot c d lc,
)

octets-show_u8 :
    (a b c d : ℕ)
    → a ≤ 255
    → b ≤ 255
    → c ≤ 255
    → d ≤ 255
    → octets
        (parse_octet (show_u8 a))
        (parse_octet (show_u8 b))
        (parse_octet (show_u8 c))
        (parse_octet (show_u8 d))
      ≡ some (((a * 256 + b) * 256 + c) * 256 + d)
unfolding octets
octets-show_u8 a b c d la lb lc ld = rw (
  parse_octet-show_u8 a la,
  parse_octet-show_u8 b lb,
  parse_octet-show_u8 c lc,
  parse_octet-show_u8 d ld,
)

show_u8-lacks-dot : (n : ℕ) → n ≤ 255 → lacks dot (show_u8 n) ≡ true
show_u8-lacks-dot n le = show_u8-lacks dot n le (omega arith)

from_bytes :
    (ip : ℕ)
    → ((ip / 16777216 * 256 + ip / 65536 % 256) * 256 + ip / 256 % 256) * 256 + ip % 256 ≡ ip
from_bytes ip = omega arith

-- An address of 32 bits is read back from its print.
pub parse_v4-show_v4 : (ip : ℕ) → ip < u32_mod → parse_v4 (show_v4 ip) ≡ some ip
unfolding show_v4
parse_v4-show_v4 ip lt =
    parse_v4_parts (show_u8 (ip / 16777216)) (show_u8 (ip / 65536 % 256)) (show_u8 (ip / 256 % 256))
      (show_u8 (ip % 256)) (show_u8-lacks-dot (ip / 16777216) (omega arith))
      (show_u8-lacks-dot (ip / 65536 % 256) (omega arith))
      (show_u8-lacks-dot (ip / 256 % 256) (omega arith))
    ∙ octets-show_u8 (ip / 16777216) (ip / 65536 % 256) (ip / 256 % 256) (ip % 256) (omega arith)
        (omega arith) (omega arith) (omega arith)
    ∙ ap some (from_bytes ip)

lacks-append :
    (c x : ℕ) (s rest : Str)
    → lacks c s ≡ true
    → eqb x c ≡ false
    → lacks c rest ≡ true
    → lacks c (s ++ x ∷ rest) ≡ true
lacks-append c x [] rest h d r = ground arith
lacks-append c x (y ∷ s) rest h d r = ground (arith, lacks-append c x s rest)

pub show_v4-lacks : (ip : ℕ) → ip < u32_mod → lacks b'/' (show_v4 ip) ≡ true
unfolding show_v4
show_v4-lacks ip lt =
    let part : (n : ℕ) → n ≤ 255 → lacks b'/' (show_u8 n) ≡ true =
      λ n le. show_u8-lacks b'/' n le (omega arith) in
    lacks-append b'/' dot (show_u8 (ip / 16777216))
      (show_u8 (ip / 65536 % 256) ++ dot ∷ (show_u8 (ip / 256 % 256) ++ dot ∷ show_u8 (ip % 256)))
      (part (ip / 16777216) (omega arith)) refl
      (lacks-append b'/' dot (show_u8 (ip / 65536 % 256))
        (show_u8 (ip / 256 % 256) ++ dot ∷ show_u8 (ip % 256))
        (part (ip / 65536 % 256) (omega arith)) refl
        (lacks-append b'/' dot (show_u8 (ip / 256 % 256)) (show_u8 (ip % 256))
          (part (ip / 256 % 256) (omega arith)) refl (part (ip % 256) (omega arith))))

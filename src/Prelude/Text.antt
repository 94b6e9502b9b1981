-- ===== src/Prelude/Text.antt =====
-- A Rust `str` as the list of its characters' code points, and the methods that the program uses.
use Prim.Native.Nat.{ℕ, ◌+◌, ◌-◌, ◌*◌}
use Prim.Native.Char.{code}
use Prim.Native.String.{String}
use mathlib.Core.Bool.{Bool, true, ◌&&◌, ◌||◌}
use mathlib.Core.Option.{Option, none, some}
use mathlib.Core.List.{List, [], ◌∷◌}
use leshy.Prelude.Tests.{eqb, leb, if◌then◌else◌}
use leshy.Prelude.Lists.{is_empty}

abbrev pub Str : Type 0
Str = List ℕ

abbrev pub codes : String → Str
codes String.[] = []
codes (String.◌∷◌ c s) = code c ∷ codes s

abbrev pub dot : ℕ
dot = b'.'

-- `&s[s.find(c)? + 1..]`
unfoldable pub after : ℕ → Str → Option Str
after c [] = none
after c (x ∷ s) = if eqb x c then some s else after c s

-- `s.split_once(c)`
unfoldable pub split_once : ℕ → Str → Option (Str × Str)
split_once c [] = none
split_once c (x ∷ s) =
    let rest = split_once c s in
    if eqb x c then some ([], s) else elim rest [ none ↦ none | some (l, r) ↦ some (x ∷ l, r) ]

-- `s.trim_end_matches(c)`
unfoldable pub trim_end_matches : ℕ → Str → Str
trim_end_matches c [] = []
trim_end_matches c (x ∷ s) =
    let rest = trim_end_matches c s in if is_empty rest && eqb x c then [] else x ∷ rest

abbrev pub is_digit : ℕ → Bool
is_digit c = leb b'0' c && leb c b'9'

-- The value of a nonempty run of decimal digits, read from the left.
unfoldable pub decimal : ℕ → Str → Option ℕ
decimal acc [] = some acc
decimal acc (c ∷ s) =
    let rest = decimal (acc * 10 + (c - b'0')) s in if is_digit c then rest else none

-- The code points with the property White_Space.
unfoldable pub is_whitespace : ℕ → Bool
is_whitespace c =
    (leb 9 c && leb c 13)
    || eqb c 32
    || eqb c 133
    || eqb c 160
    || eqb c 5760
    || (leb 8192 c && leb c 8202)
    || eqb c 8232
    || eqb c 8233
    || eqb c 8239
    || eqb c 8287
    || eqb c 12288

unfoldable pub trim_start : Str → Str
trim_start [] = []
trim_start (c ∷ s) = let rest = trim_start s in if is_whitespace c then rest else c ∷ s

unfoldable pub trim_end : Str → Str
trim_end [] = []
trim_end (c ∷ s) =
    let rest = trim_end s in if is_empty rest && is_whitespace c then [] else c ∷ rest

unfoldable pub trim : Str → Str
trim s = trim_end (trim_start s)

unfoldable pub starts_with : Str → Str → Bool
starts_with p [] = is_empty p
starts_with [] (c ∷ s) = true
starts_with (x ∷ p) (c ∷ s) = eqb x c && starts_with p s

-- `s.contains(p)`
unfoldable pub contains : Str → Str → Bool
contains p [] = is_empty p
contains p (c ∷ s) = starts_with p (c ∷ s) || contains p s

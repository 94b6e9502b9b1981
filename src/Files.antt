-- ===== src/Files.antt =====
-- What the program uses of `std::path` and of the file system.
-- A path is whether it is absolute and its components; the texts are those of UTF-8 names.
use leshy.Prelude.{
  Bool, true, false, not, ◌&&◌, Option, none, some, List, [], ◌∷◌, ◌++◌, eqb, if◌then◌else◌,
  is_empty, filter, list_eq, nat_eq, ◌==◌,
}
use leshy.Prelude.Results.{Result}
use leshy.Prelude.Text.{Str, dot}

pub record FilePath : Type 0 where
  pub absolute : Bool
  pub components : List Str

-- The texts between the slashes.
unfoldable pub split_slash : Str → List Str
split_slash [] = [] ∷ []
split_slash (c ∷ s) = elim (split_slash s) [
  | [] ↦ []
  | part ∷ parts ↦ if eqb c b'/' then [] ∷ part ∷ parts else (c ∷ part) ∷ parts
]

-- A `.` is kept only at the start of a relative path.
unfoldable pub normal : List Str → List Str
normal parts = filter (λ p. not (is_empty p) && not (p == dot ∷ [])) parts

-- `PathBuf::from`, as its components
unfoldable pub from : Str → FilePath
from [] = record { absolute = false; components = [] }
from (c ∷ s) =
    let parts = split_slash (c ∷ s) in
    if eqb c b'/' then record { absolute = true; components = normal parts } else record {
      absolute = false;
      components = elim parts [
        | [] ↦ []
        | part ∷ rest ↦ if part == dot ∷ [] then part ∷ normal rest else normal (part ∷ rest)
      ];
    }

unfoldable pub drop_last {ℓ} : {A : Type ℓ} → List A → List A
drop_last [] = []
drop_last (x ∷ xs) = let rest = drop_last xs in if is_empty xs then [] else x ∷ rest

unfoldable pub parent : FilePath → Option FilePath
parent p =
    if is_empty p.components then none else some (record p { components = drop_last p.components })

unfoldable pub join : FilePath → FilePath → FilePath
join p q = if q.absolute then q else record p { components = p.components ++ q.components }

-- `DirEntry::path`
unfoldable pub entry_path : FilePath → Str → FilePath
entry_path dir name = record dir { components = dir.components ++ name ∷ [] }

-- The text after the last dot, and whether there is anything before that dot.
unfoldable pub after_last_dot : Bool → Str → Option Str
after_last_dot preceded [] = none
after_last_dot preceded (c ∷ s) =
    let deeper = after_last_dot true s in
    elim deeper [ some ext ↦ some ext | none ↦ if eqb c dot && preceded then some s else none ]

-- `Path::extension` of a name that is not `..`; a leading dot begins no extension
unfoldable pub extension : Str → Option Str
extension name = after_last_dot false name

-- `std::fs`, at one moment. An entry of a directory that cannot be read is `none`.
pub record FileSystem : Type 0 where
  pub read_to_string : FilePath → Result Str Str
  pub exists : FilePath → Bool
  pub is_dir : FilePath → Bool
  pub read_dir : FilePath → Result (List (Option Str)) Str

-- ===== src/Text.antt =====
-- Methods of JavaScript's `String`: `split` at a one-character separator, and `trim` on the UTF-16
-- code units of a text.
pub mod Numbers
use Prim.Native.Char.{Char, code}
use Prim.Native.String.{◌++◌}
use i_transfer.Base.{
  ℕ, String, List, [], ◌∷◌, Bool, Option, none, some, ◌&&◌, ◌||◌, eqb, leb, if◌then◌else◌,
}

abbrev pub extend_first : Char → List String → List String
extend_first ch [] = String.◌∷◌ ch "" ∷ []
extend_first ch (part ∷ parts) = String.◌∷◌ ch part ∷ parts

-- `text.split(separator)`, the separator by its code.
unfoldable pub split : ℕ → String → List String
split separator String.[] = "" ∷ []
split separator (String.◌∷◌ ch text) =
    let parts = split separator text in
    if eqb (code ch) separator then "" ∷ parts else extend_first ch parts

-- White space and line terminators of ECMAScript.
is_space : ℕ → Bool
is_space c =
    (leb 9 c && leb c 13)
    || eqb c 32
    || eqb c 160
    || eqb c 5760
    || (leb 8192 c && leb c 8202)
    || eqb c 8232
    || eqb c 8233
    || eqb c 8239
    || eqb c 8287
    || eqb c 12288
    || eqb c 65279

-- A space is kept only before something that is kept.
close : ℕ → List ℕ → List ℕ
close c [] = if is_space c then [] else c ∷ []
close c (d ∷ ds) = c ∷ d ∷ ds

trim_start : List ℕ → List ℕ
trim_start [] = []
trim_start (c ∷ cs) = let rest = trim_start cs in if is_space c then rest else c ∷ cs

trim_end : List ℕ → List ℕ
trim_end [] = []
trim_end (c ∷ cs) = close c (trim_end cs)

-- `text.trim()`
unfoldable pub trim : List ℕ → List ℕ
unfolding trim_start trim_end close is_space
trim cs = trim_end (trim_start cs)

-- `text || null`
abbrev pub or_null : List ℕ → Option (List ℕ)
or_null [] = none
or_null (c ∷ cs) = some (c ∷ cs)

-- The code points of a text: its UTF-16 units, if it is ASCII.
abbrev pub codes : String → List ℕ
codes String.[] = []
codes (String.◌∷◌ c s) = code c ∷ codes s

-- A template literal of these parts.
abbrev pub concat : List String → String
concat [] = ""
concat (part ∷ parts) = part ++ concat parts

abbrev pub extend_head : ℕ → List (List ℕ) → List (List ℕ)
extend_head c [] = (c ∷ []) ∷ []
extend_head c (part ∷ parts) = (c ∷ part) ∷ parts

-- `text.split(separator)` on the UTF-16 code units of a text.
unfoldable pub split_units : ℕ → List ℕ → List (List ℕ)
split_units separator [] = [] ∷ []
split_units separator (c ∷ cs) =
    let parts = split_units separator cs in
    if eqb c separator then [] ∷ parts else extend_head c parts

-- ===== src/File/Name.antt =====
-- `createAvailableFileName` of backend/src/file/local.service.ts, on names as their UTF-16 code
-- units. The search takes one candidate for each used name and one more, which is enough.
pub mod Available
use i_transfer.Base.{
  ℕ, zero, suc, ◌+◌, ◌-◌, ◌/◌, ◌%◌, ◌<◌, Bool, true, false, not, ◌&&◌, ◌||◌, Option, none, some,
  List, [], ◌∷◌, ◌++◌, eqb, ltb, leb, length, if◌then◌else◌,
}

-- `===` on texts.
unfoldable pub name_eq : List ℕ → List ℕ → Bool
name_eq [] [] = true
name_eq (a ∷ as') (b ∷ bs) = eqb a b && name_eq as' bs
name_eq _ _ = false

-- `used.has(name)`
unfoldable pub has : List (List ℕ) → List ℕ → Bool
unfolding name_eq
has [] name = false
has (x ∷ xs) name = name_eq x name || has xs name

-- `name.lastIndexOf(".")`, and none for -1.
unfoldable pub last_dot : List ℕ → Option ℕ
last_dot [] = none
last_dot (c ∷ cs) = elim (last_dot cs) [
  | some i ↦ some (suc i)
  | none ↦ if eqb c b'.' then some 0 else none
]

-- `name.slice(0, i)` and `name.slice(i)`
unfoldable pub take : ℕ → List ℕ → List ℕ
take zero cs = []
take (suc n) [] = []
take (suc n) (c ∷ cs) = c ∷ take n cs

unfoldable pub drop : ℕ → List ℕ → List ℕ
drop zero cs = cs
drop (suc n) [] = []
drop (suc n) (c ∷ cs) = drop n cs

-- The decimal digits of a number, in front of a text. The fuel is the number itself.
unfoldable pub digits_from : ℕ → ℕ → List ℕ → List ℕ
digits_from zero n rest = (48 + n % 10) ∷ rest
digits_from (suc fuel) n rest =
    let more = digits_from fuel (n / 10) ((48 + n % 10) ∷ rest) in
    if ltb n 10 then (48 + n % 10) ∷ rest else more

unfoldable pub decimal : ℕ → List ℕ
unfolding digits_from
decimal n = digits_from n n []

-- `dotIndex > 0`
split_at : Option ℕ → List ℕ → List ℕ × List ℕ
split_at none name = (name, [])
split_at (some zero) name = (name, [])
split_at (some (suc i)) name = (take (suc i) name, drop (suc i) name)

unfoldable pub base_and_extension : List ℕ → List ℕ × List ℕ
unfolding split_at last_dot take drop
base_and_extension name = split_at (last_dot name) name

-- `${basename} (${index})${extension}`
unfoldable pub candidate : List ℕ → List ℕ → ℕ → List ℕ
unfolding decimal
candidate basename extension index =
    basename ++ (b' ' ∷ b'(' ∷ (decimal index ++ (b')' ∷ extension)))

unfoldable pub search_from : ℕ → List (List ℕ) → (ℕ → List ℕ) → ℕ → List ℕ
search_from zero used name_at index = name_at index
search_from (suc fuel) used name_at index =
    let rest = search_from fuel used name_at (index + 1) in
    if has used (name_at index) then rest else name_at index

unfoldable pub create_available_file_name : List ℕ → List (List ℕ) → List ℕ
unfolding has base_and_extension candidate search_from
create_available_file_name name used =
    if has used name
    then (let (basename, extension) = base_and_extension name in
        search_from (length used) used (candidate basename extension) 2)
    else name

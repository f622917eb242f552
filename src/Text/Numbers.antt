-- ===== src/Text/Numbers.antt =====
-- `parseInt` and the decimal digits of an integer, on the UTF-16 code units of a text.
use i_transfer.Base.{
  ℕ, zero, suc, ◌+◌, ◌-◌, ◌*◌, ◌/◌, ◌%◌, ◌≤◌, ◌≡◌, refl, ap, ◌∙◌, Bool, true, false, ◌&&◌, Option,
  none, some, List, [], ◌∷◌, ℤ, pos, negsuc, neg, eqb, leb, ltb, if◌then◌else◌, Bool-cases, inl,
  inr, arith,
}
use mathlib.Core.Option
use i_transfer.File.Name.{decimal, digits_from}
use i_transfer.Text.{trim_start, is_space}

is_digit : ℕ → Bool
is_digit c = leb 48 c && leb c 57

-- The digits at the front of a text, after others that gave the first number.
read_digits : ℕ → List ℕ → ℕ
read_digits acc [] = acc
read_digits acc (c ∷ cs) =
    let more = read_digits (acc * 10 + (c - 48)) cs in if is_digit c then more else acc

-- `NaN` is none.
parse_digits : List ℕ → Option ℕ
parse_digits [] = none
parse_digits (c ∷ cs) = if is_digit c then some (read_digits 0 (c ∷ cs)) else none

parse_signed : List ℕ → Option ℤ
parse_signed [] = none
parse_signed (c ∷ cs) =
    if eqb c b'-'
    then Option.map neg (parse_digits cs)
    else if eqb c b'+'
    then Option.map pos (parse_digits cs)
    else Option.map pos (parse_digits (c ∷ cs))

-- `parseInt(text, 10)`
unfoldable pub parse_int : List ℕ → Option ℤ
unfolding parse_signed parse_digits read_digits is_digit trim_start is_space
parse_int text = parse_signed (trim_start text)

-- `number.toString()`
unfoldable pub print_int : ℤ → List ℕ
unfolding decimal
print_int (pos n) = decimal n
print_int (negsuc n) = b'-' ∷ decimal (n + 1)

starts_with_digit : List ℕ → Bool
starts_with_digit [] = false
starts_with_digit (c ∷ cs) = is_digit c

digit-IsDigit : (n : ℕ) → is_digit (48 + n % 10) ≡ true
unfolding is_digit
digit-IsDigit n = ground arith

digits_from-starts :
    (fuel n : ℕ) (rest : List ℕ) → starts_with_digit (digits_from fuel n rest) ≡ true
unfolding digits_from starts_with_digit
digits_from-starts zero n rest = digit-IsDigit n
digits_from-starts (suc fuel) n rest = elim (Bool-cases (ltb n 10)) [
  | inl small ↦ rw small (digit-IsDigit n)
  | inr large ↦ rw large (digits_from-starts fuel (n / 10) ((48 + n % 10) ∷ rest))
]

read_digits-digits_from :
    (fuel n : ℕ) (rest : List ℕ)
    → n ≤ fuel
    → read_digits 0 (digits_from fuel n rest) ≡ read_digits n rest
unfolding digits_from read_digits
read_digits-digits_from zero n rest h =
    rw (digit-IsDigit n) (ap (λ m. read_digits m rest) (omega arith))
read_digits-digits_from (suc fuel) n rest h = elim (Bool-cases (ltb n 10)) [
  | inl small ↦ rw (small, digit-IsDigit n) (ap (λ m. read_digits m rest) (ground arith))
  | inr large ↦ rw large (
      read_digits-digits_from fuel (n / 10) ((48 + n % 10) ∷ rest) (ground arith)
      ∙ rw (digit-IsDigit n) (ap (λ m. read_digits m rest) (omega arith)))
]

parse_digits-starting :
    (text : List ℕ) → starts_with_digit text ≡ true → parse_digits text ≡ some (read_digits 0 text)
unfolding parse_digits starts_with_digit
parse_digits-starting [] h = cc
parse_digits-starting (c ∷ cs) h = rw h refl

parse_digits-decimal : (n : ℕ) → parse_digits (decimal n) ≡ some n
unfolding decimal read_digits
parse_digits-decimal n =
    parse_digits-starting (decimal n) (digits_from-starts n n [])
    ∙ ap some (read_digits-digits_from n n [] (omega arith))

digit-not-space : (c : ℕ) → is_digit c ≡ true → is_space c ≡ false
unfolding is_digit is_space
digit-not-space c h = ground arith

digit-not-sign : (c : ℕ) → is_digit c ≡ true → (eqb c b'-' ≡ false) × (eqb c b'+' ≡ false)
unfolding is_digit
digit-not-sign c h = (ground arith, ground arith)

-- A text that starts with a digit has no sign and no space in front.
parse_int-starting :
    (text : List ℕ)
    → starts_with_digit text ≡ true
    → parse_int text ≡ Option.map pos (parse_digits text)
unfolding parse_int starts_with_digit trim_start parse_signed
parse_int-starting [] h = cc
parse_int-starting (c ∷ cs) h =
    let (no_minus, no_plus) = digit-not-sign c h in
    rw (digit-not-space c h, parse_int, trim_start) (rw (no_minus, parse_signed) (rw no_plus refl))

pub parse_int-print_int : (z : ℤ) → parse_int (print_int z) ≡ some z
unfolding print_int parse_int trim_start parse_signed is_space decimal
parse_int-print_int (pos n) =
    parse_int-starting (decimal n) (digits_from-starts n n [])
    ∙ ap (Option.map pos) (parse_digits-decimal n)
parse_int-print_int (negsuc n) =
    ap (Option.map neg) (parse_digits-decimal (n + 1)) ∙ ap some (ground arith)

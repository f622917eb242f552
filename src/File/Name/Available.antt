-- ===== src/File/Name/Available.antt =====
-- The search for a free name.
use mathlib.Core.List.{append_cancel_left, append_cancel_right}
use i_transfer.Base.{
  ℕ, zero, suc, ◌+◌, ◌-◌, ◌*◌, ◌/◌, ◌%◌, ◌≤◌, ◌<◌, ◌≡◌, ◌↔◌, refl, sym, ap, ◌∙◌, true, false,
  Bool-cases, List, [], ◌∷◌, ◌++◌, inl, inr, arith, ltb, length, if◌then◌else◌,
}
use i_transfer.File.Name.{
  name_eq, has, decimal, digits_from, candidate, search_from, base_and_extension,
  create_available_file_name,
}

pub name_eq_iff : (a b : List ℕ) → (name_eq a b ≡ true) ↔ (a ≡ b)
unfolding name_eq
name_eq_iff [] [] = (λ h. refl, λ h. refl)
name_eq_iff [] (b ∷ bs) = (λ h. cc, λ h. cc)
name_eq_iff (a ∷ as') [] = (λ h. cc, λ h. cc)
name_eq_iff (a ∷ as') (b ∷ bs) = ground (arith, name_eq_iff as' bs)

-- The number that a list of digits stands for.
value : ℕ → List ℕ → ℕ
value acc [] = acc
value acc (d ∷ ds) = value (acc * 10 + (d - 48)) ds

value-digits_from :
    (fuel n : ℕ) (rest : List ℕ) → n ≤ fuel → value 0 (digits_from fuel n rest) ≡ value n rest
unfolding digits_from value
value-digits_from zero n rest h = ap (λ m. value m rest) (omega arith)
value-digits_from (suc fuel) n rest h = elim (Bool-cases (ltb n 10)) [
  | inl small ↦ rw small (ap (λ m. value m rest) (ground arith))
  | inr large ↦ rw large (
      value-digits_from fuel (n / 10) ((48 + n % 10) ∷ rest) (ground arith)
      ∙ ap (λ m. value m rest) (omega arith))
]

decimal-injective : (i j : ℕ) → decimal i ≡ decimal j → i ≡ j
unfolding decimal value
decimal-injective i j e =
    sym (value-digits_from i i [] (omega arith))
    ∙ ap (value 0) e
    ∙ value-digits_from j j [] (omega arith)

candidate-injective :
    (basename extension : List ℕ) (i j : ℕ)
    → candidate basename extension i ≡ candidate basename extension j
    → i ≡ j
unfolding candidate
candidate-injective basename extension i j e =
    let tails : b' ' ∷ b'(' ∷ (decimal i ++ (b')' ∷ extension))
        ≡ b' ' ∷ b'(' ∷ (decimal j ++ (b')' ∷ extension)) =
      append_cancel_left basename _ _ e in
    let digits : decimal i ++ (b')' ∷ extension) ≡ decimal j ++ (b')' ∷ extension) = cc in
    decimal-injective i j (append_cancel_right (decimal i) (decimal j) (b')' ∷ extension) digits)

-- The list without a name.
without : List ℕ → List (List ℕ) → List (List ℕ)
without name [] = []
without name (x ∷ xs) = let rest = without name xs in if name_eq x name then rest else x ∷ rest

has-without :
    (name other : List ℕ) (xs : List (List ℕ))
    → name_eq name other ≡ false
    → has (without name xs) other ≡ has xs other
unfolding has without
has-without name other [] ne = refl
has-without name other (x ∷ xs) ne = ground (
  arith,
  has-without name other xs ne,
  name_eq_iff x name,
  name_eq_iff x other,
  name_eq_iff name other,
)

length-without-le : (name : List ℕ) (xs : List (List ℕ)) → length (without name xs) ≤ length xs
unfolding without
length-without-le name [] = omega arith
length-without-le name (x ∷ xs) = ground (arith, length-without-le name xs)

length-without :
    (name : List ℕ) (xs : List (List ℕ)) → has xs name ≡ true → length (without name xs) < length xs
unfolding has without
length-without name [] h = cc
length-without name (x ∷ xs) h = ground (arith, length-without name xs, length-without-le name xs)

-- `pending` holds the used names that may still come up; it shrinks with every candidate in use.
search_from-free :
    (fuel : ℕ) (used pending : List (List ℕ)) (name_at : ℕ → List ℕ) (index : ℕ)
    → ((i j : ℕ) → name_at i ≡ name_at j → i ≡ j)
    → length pending ≤ fuel
    → ((j : ℕ) → index ≤ j → has used (name_at j) ≡ has pending (name_at j))
    → has used (search_from fuel used name_at index) ≡ false
unfolding search_from
search_from-free zero used [] name_at index injective enough same =
    unfold has in (same index (omega arith))
search_from-free zero used (p ∷ pending) name_at index injective enough same = absurd (omega arith)
search_from-free (suc fuel) used pending name_at index injective enough same =
    elim (Bool-cases (has used (name_at index))) [
      | inr free ↦ rw free free
      | inl taken ↦ rw taken (
          search_from-free fuel used (without (name_at index) pending) name_at (index + 1) injective
            (omega (
              arith,
              length-without (name_at index) pending (sym (same index (omega arith)) ∙ taken),
            ))
            (λ j h.
              same j (omega arith)
              ∙ sym (has-without (name_at index) (name_at j) pending (ne j h))))
    ]
  where
    ne : (j : ℕ) → index + 1 ≤ j → name_eq (name_at index) (name_at j) ≡ false
    ne j h = elim (Bool-cases (name_eq (name_at index) (name_at j))) [
      | inr differ ↦ differ
      | inl same ↦ absurd (omega (arith, injective index j ((name_eq_iff _ _).0 same)))
    ]

-- Whatever the names in use, the name that is chosen is not among them.
pub has-create_available_file_name :
    (name : List ℕ) (used : List (List ℕ)) → has used (create_available_file_name name used) ≡ false
unfolding create_available_file_name
has-create_available_file_name name used = elim (Bool-cases (has used name)) [
  | inr free ↦ rw free free
  | inl taken ↦
      let (basename, extension) = base_and_extension name in
      rw taken (
        search_from-free (length used) used used (candidate basename extension) 2
          (candidate-injective basename extension) (omega arith) (λ j h. refl))
]

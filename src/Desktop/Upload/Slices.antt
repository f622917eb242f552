-- ===== src/Desktop/Upload/Slices.antt =====
-- How the slices of a file fit together, and how many there are.
use native.Mathlib.Nat.{div-add-mod', mod-lt, mul-le-mul_right, mul-add-div_right, div-eq_of_lt}
use i_transfer.Base.{
  ℕ, zero, suc, ◌+◌, ◌-◌, ◌*◌, ◌/◌, ◌%◌, ◌≤◌, ◌<◌, ◌≡◌, refl, ap, sym, ◌∙◌, List, [], ◌∷◌, ◌++◌,
  arith, length, eqb, Bool-cases, inl, inr,
}
use i_transfer.Desktop.Upload.{slice, chunk_count}
use i_transfer.File.Name.{take, drop}

take-nothing : (n : ℕ) → take n [] ≡ []
unfolding take
take-nothing zero = refl
take-nothing (suc n) = refl

take-append_drop :
    (m n : ℕ) (bytes : List ℕ) → take m bytes ++ take n (drop m bytes) ≡ take (m + n) bytes
unfolding take drop
take-append_drop zero n bytes = ap (λ k. take k bytes) (omega arith)
take-append_drop (suc m) n [] = take-nothing n ∙ sym (take-nothing (suc m + n))
take-append_drop (suc m) n (b ∷ bytes) =
    ap (◌∷◌ b) (take-append_drop m n bytes) ∙ ap (λ k. take k (b ∷ bytes)) succ
  where
    succ : suc (m + n) ≡ suc m + n
    succ = omega arith

length-append : (xs ys : List ℕ) → length (xs ++ ys) ≡ length xs + length ys
length-append [] ys = omega arith
length-append (x ∷ xs) ys = omega (arith, length-append xs ys)

length-take-le : (n : ℕ) (bytes : List ℕ) → length (take n bytes) ≤ n
unfolding take
length-take-le zero bytes = omega arith
length-take-le (suc n) [] = omega arith
length-take-le (suc n) (b ∷ bytes) = omega (arith, length-take-le n bytes)

length-take-le_self : (n : ℕ) (bytes : List ℕ) → length (take n bytes) ≤ length bytes
unfolding take
length-take-le_self zero bytes = omega arith
length-take-le_self (suc n) [] = omega arith
length-take-le_self (suc n) (b ∷ bytes) = omega (arith, length-take-le_self n bytes)

pub length-take : (n : ℕ) (bytes : List ℕ) → n ≤ length bytes → length (take n bytes) ≡ n
unfolding take
length-take zero bytes h = omega arith
length-take (suc n) [] h = absurd (omega arith)
length-take (suc n) (b ∷ bytes) h = omega (arith, length-take n bytes)

pub take_all : (n : ℕ) (bytes : List ℕ) → length bytes ≤ n → take n bytes ≡ bytes
unfolding take
take_all zero [] h = refl
take_all zero (b ∷ bytes) h = absurd (omega arith)
take_all (suc n) [] h = refl
take_all (suc n) (b ∷ bytes) h = ap (◌∷◌ b) (take_all n bytes (omega arith))

module _ (bytes : List ℕ) (index chunk_size : ℕ) where
  pub take-append_slice :
      take (index * chunk_size) bytes ++ slice bytes (index * chunk_size) ((index + 1) * chunk_size)
      ≡ take ((index + 1) * chunk_size) bytes
  unfolding slice
  take-append_slice =
      take-append_drop (index * chunk_size) _ bytes ∙ ap (λ n. take n bytes) (grind arith)

  pub length-slice-le :
      length (slice bytes (index * chunk_size) ((index + 1) * chunk_size)) ≤ chunk_size
  unfolding slice
  length-slice-le =
      let le =
        length-take-le ((index + 1) * chunk_size - index * chunk_size)
          (drop (index * chunk_size) bytes) in
      grind arith

  pub taken-within :
      length (take (index * chunk_size) bytes)
        + length (slice bytes (index * chunk_size) ((index + 1) * chunk_size))
      ≤ length bytes
  taken-within = omega (
    arith,
    length-append (take (index * chunk_size) bytes)
        (slice bytes (index * chunk_size) ((index + 1) * chunk_size)),
    ap length take-append_slice,
    length-take-le_self ((index + 1) * chunk_size) bytes,
  )

suc-mul : (m n : ℕ) → suc m * n ≡ m * n + n
suc-mul m n = grind arith

-- Every chunk but the last is whole, and the chunks hold the whole file.
pub chunk_count_bounds :
    (size chunk_size : ℕ)
    → 0 < chunk_size
    → (0 < chunk_count size chunk_size)
      × (size ≤ chunk_count size chunk_size * chunk_size)
      × ((index : ℕ) → index < chunk_count size chunk_size → index * chunk_size ≤ size)
unfolding chunk_count
chunk_count_bounds size chunk_size positive =
    let c = (size + chunk_size - 1) / chunk_size in
    let split : c * chunk_size + (size + chunk_size - 1) % chunk_size ≡ size + chunk_size - 1 =
      div-add-mod' (size + chunk_size - 1) chunk_size in
    let small : (size + chunk_size - 1) % chunk_size < chunk_size =
      mod-lt (size + chunk_size - 1) positive in
    elim (Bool-cases (eqb c 0)) [
      | inl empty ↦
          let none_left : c ≡ 0 = ground arith in
          rw empty (
            omega arith,
            (let z : c * chunk_size ≡ 0 = rw none_left (omega arith) in omega arith),
            λ index first. (let i : index ≡ 0 = omega arith in rw i (omega arith)),
          )
      | inr more ↦ rw more (
        ground arith,
        omega arith,
        λ index before.
            (let le = mul-le-mul_right chunk_size before in
              let step = suc-mul index chunk_size in omega arith),
      )
    ]

-- A whole number of chunks is followed by the chunk of that number.
pub next_chunk :
    (index chunk_size : ℕ)
    → 0 < chunk_size
    → (index * chunk_size + chunk_size - 1) / chunk_size ≡ index
next_chunk index chunk_size positive =
    ap (λ n. n / chunk_size) (omega arith)
    ∙ mul-add-div_right positive index (chunk_size - 1)
    ∙ (rw (div-eq_of_lt (below chunk_size positive)) (omega arith))
  where
    below : (n : ℕ) → 0 < n → n - 1 < n
    below n h = omega arith

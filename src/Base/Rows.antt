-- ===== src/Base/Rows.antt =====
-- Tables as lists of rows: the queries, updates and deletions that the services make, over a test
-- on the row, and how they combine.
use Prim.Native.Nat.{ℕ, suc, ◌+◌}
use mathlib.Core.Path.{◌≡◌, refl}
use mathlib.Core.Bool.{Bool, true, false, ◌&&◌}
use mathlib.Core.Option
use mathlib.Core.Option.{Option, none, some}
use mathlib.Core.List.{List, [], ◌∷◌}
use native.Mathlib.Omega.{arith}
use mathlib.Core.Logic.{inl, inr}
use i_transfer.Base.Tests.{if◌then◌else◌, Bool-cases}

module _ {ℓ} {A : Type ℓ} where
  abbrev pub length : List A → ℕ
  length [] = 0
  length (x ∷ xs) = suc (length xs)

  -- The first row that passes the test.
  unfoldable pub find? : (A → Bool) → List A → Option A
  find? p [] = none
  find? p (x ∷ xs) = if p x then some x else find? p xs

  unfoldable pub select : (A → Bool) → List A → List A
  select p [] = []
  select p (x ∷ xs) = let rest = select p xs in if p x then x ∷ rest else rest

  unfoldable pub update_where : (A → Bool) → (A → A) → List A → List A
  update_where p f [] = []
  update_where p f (x ∷ xs) = (if p x then f x else x) ∷ update_where p f xs

  unfoldable pub delete_where : (A → Bool) → List A → List A
  delete_where p [] = []
  delete_where p (x ∷ xs) = let rest = delete_where p xs in if p x then rest else x ∷ rest

  unfoldable pub count : (A → Bool) → List A → ℕ
  count p [] = 0
  count p (x ∷ xs) = (if p x then 1 else 0) + count p xs

  unfoldable pub total : (A → ℕ) → List A → ℕ
  total f [] = 0
  total f (x ∷ xs) = f x + total f xs

  abbrev pub All {κ} : (A → Type κ) → List A → Type κ
  All P [] = Unit
  All P (x ∷ xs) = P x × All P xs

-- An update that keeps the outcome of the test `q` keeps what `q` finds, up to the update itself.
pub find?-update_where {ℓ} :
    {A : Type ℓ} (q p : A → Bool) (f : A → A) (xs : List A)
    → ((x : A) → q (f x) ≡ q x)
    → find? q (update_where p f xs) ≡ Option.map (λ x. if p x then f x else x) (find? q xs)
unfolding find? update_where
find?-update_where q p f [] h = refl
find?-update_where q p f (x ∷ xs) h = ground (arith, h x, find?-update_where q p f xs h)

pub find?-delete_where_self {ℓ} :
    {A : Type ℓ} (p : A → Bool) (xs : List A) → find? p (delete_where p xs) ≡ none
unfolding find? delete_where
find?-delete_where_self p [] = refl
find?-delete_where_self p (x ∷ xs) = ground (arith, find?-delete_where_self p xs)

-- A row that the deletion spares is still found.
pub find?-delete_where {ℓ} :
    {A : Type ℓ} (q p : A → Bool) (xs : List A)
    → ((x : A) → q x ≡ true → p x ≡ false)
    → find? q (delete_where p xs) ≡ find? q xs
unfolding find? delete_where
find?-delete_where q p [] h = refl
find?-delete_where q p (x ∷ xs) h = ground (arith, h x, find?-delete_where q p xs h)

pub find?-holds {ℓ} :
    {A : Type ℓ} (p : A → Bool) (xs : List A) {x : A} → find? p xs ≡ some x → p x ≡ true
unfolding find?
find?-holds p [] h = cc
find?-holds p (y ∷ xs) {x} h = elim (Bool-cases (p y)) [
  | inl found ↦ ground (arith)
  | inr other ↦ find?-holds p xs (rw other at h)
]

-- What the first test finds, and the second accepts, both find together.
pub find?-and {ℓ} :
    {A : Type ℓ} (p q : A → Bool) (xs : List A) {x : A}
    → find? p xs ≡ some x
    → q x ≡ true
    → find? (λ y. p y && q y) xs ≡ some x
unfolding find?
find?-and p q [] found holds = cc
find?-and p q (y ∷ xs) {x} found holds = elim (Bool-cases (p y)) [
  | inl here ↦
      let same : y ≡ x = ground arith in
      let both : q y ≡ true = rw same holds in ground (arith, here, both)
  | inr other ↦ ground (arith, other, find?-and p q xs (rw other at found) holds)
]

-- What is found after a deletion was not deleted.
pub find?-delete_where_spared {ℓ} :
    {A : Type ℓ} (q p : A → Bool) (xs : List A) {x : A}
    → find? q (delete_where p xs) ≡ some x
    → p x ≡ false
unfolding find? delete_where
find?-delete_where_spared q p [] found = cc
find?-delete_where_spared q p (y ∷ xs) {x} found = elim (Bool-cases (p y)) [
  | inl gone ↦ find?-delete_where_spared q p xs (rw gone at found)
  | inr kept ↦ elim (Bool-cases (q y)) [
    | inl here ↦ let same : y ≡ x = ground arith in rw (← same) kept
    | inr other ↦ find?-delete_where_spared q p xs (rw (kept, other) at found)
  ]
]

-- ===== src/Base/Keys.antt =====
-- Tables with a key: no two rows have the same key, and a write by key meets one row.
use mathlib.Core.Path.{◌≡◌, refl}
use mathlib.Core.Bool.{Bool, false}
use mathlib.Core.Option.{none, some}
use mathlib.Core.List.{List, [], ◌∷◌}
use mathlib.Core.Logic.{inl, inr}
use native.Mathlib.Omega.{arith}
use text.Mathlib.Text.{◌==◌}
use text.Mathlib.TextEquality.{eq_iff}
use Prim.Native.Nat.{◌+◌}
use Prim.Native.String.{String}
use i_transfer.Base.Tests.{if◌then◌else◌, Bool-cases}
use i_transfer.Base.Rows.{All, count, find?, update_where, delete_where}

module _ {ℓ} {A : Type ℓ} (key : A → String) where
  -- No row has this key.
  abbrev pub IsFree : String → List A → Type 0
  IsFree k [] = Unit
  IsFree k (x ∷ xs) = ((key x == k) ≡ false) × IsFree k xs

  abbrev pub HasDistinctKeys : List A → Type 0
  HasDistinctKeys [] = Unit
  HasDistinctKeys (x ∷ xs) = IsFree (key x) xs × HasDistinctKeys xs

  pub find?-IsFree : (k : String) (xs : List A) → find? (λ x. key x == k) xs ≡ none → IsFree k xs
  unfolding find?
  find?-IsFree k [] h = tt
  find?-IsFree k (x ∷ xs) h =
      let other : (key x == k) ≡ false = ground arith in (other, find?-IsFree k xs (ground arith))

  IsFree-find? : (k : String) (xs : List A) → IsFree k xs → find? (λ x. key x == k) xs ≡ none
  unfolding find?
  IsFree-find? k [] h = refl
  IsFree-find? k (x ∷ xs) (other, h) = ground (arith, IsFree-find? k xs h)

  IsFree-update_where :
      (k : String) (p : A → Bool) (f : A → A) (xs : List A)
      → ((x : A) → key (f x) ≡ key x)
      → IsFree k xs
      → IsFree k (update_where p f xs)
  unfolding update_where
  IsFree-update_where k p f [] keeps h = tt
  IsFree-update_where k p f (x ∷ xs) keeps (other, h) =
      (ground (arith, keeps x), IsFree-update_where k p f xs keeps h)

  pub HasDistinctKeys-update_where :
      (p : A → Bool) (f : A → A) (xs : List A)
      → ((x : A) → key (f x) ≡ key x)
      → HasDistinctKeys xs
      → HasDistinctKeys (update_where p f xs)
  unfolding update_where
  HasDistinctKeys-update_where p f [] keeps h = tt
  HasDistinctKeys-update_where p f (x ∷ xs) keeps (free, h) = elim (Bool-cases (p x)) [
    | inl hit ↦ rw hit (
      rw (keeps x) (IsFree-update_where (key x) p f xs keeps free),
      HasDistinctKeys-update_where p f xs keeps h,
    )
    | inr miss ↦
        rw miss (
          IsFree-update_where (key x) p f xs keeps free,
          HasDistinctKeys-update_where p f xs keeps h,
        )
  ]

  IsFree-delete_where :
      (k : String) (p : A → Bool) (xs : List A) → IsFree k xs → IsFree k (delete_where p xs)
  unfolding delete_where
  IsFree-delete_where k p [] h = tt
  IsFree-delete_where k p (x ∷ xs) (other, h) = elim (Bool-cases (p x)) [
    | inl hit ↦ rw hit (IsFree-delete_where k p xs h)
    | inr miss ↦ rw miss (other, IsFree-delete_where k p xs h)
  ]

  pub HasDistinctKeys-delete_where :
      (p : A → Bool) (xs : List A) → HasDistinctKeys xs → HasDistinctKeys (delete_where p xs)
  unfolding delete_where
  HasDistinctKeys-delete_where p [] h = tt
  HasDistinctKeys-delete_where p (x ∷ xs) (free, h) = elim (Bool-cases (p x)) [
    | inl hit ↦ rw hit (HasDistinctKeys-delete_where p xs h)
    | inr miss ↦
        rw miss (IsFree-delete_where (key x) p xs free, HasDistinctKeys-delete_where p xs h)
  ]

  -- An update by a key that no row has changes nothing.
  pub update_where-IsFree :
      (k : String) (f : A → A) (xs : List A)
      → IsFree k xs
      → update_where (λ x. key x == k) f xs ≡ xs
  unfolding update_where
  update_where-IsFree k f [] h = refl
  update_where-IsFree k f (x ∷ xs) (other, h) = rw (other, update_where-IsFree k f xs h) refl

  -- What holds of every row, and of the one that is written, holds of every row after the write.
  pub All-update_where {κ} :
      (P : A → Type κ) (k : String) (f : A → A) (xs : List A) {s : A}
      → HasDistinctKeys xs
      → find? (λ x. key x == k) xs ≡ some s
      → P (f s)
      → All P xs
      → All P (update_where (λ x. key x == k) f xs)
  unfolding find? update_where
  All-update_where P k f [] distinct found written all = tt
  All-update_where P k f (x ∷ xs) {s} (free, distinct) found written (here, all) =
      elim (Bool-cases (key x == k)) [
        | inl hit ↦
            let same : x ≡ s = ground arith in
            let free' : IsFree k xs = rw (← (eq_iff (key x) k).0 hit) free in
            rw (hit, update_where-IsFree k f xs free') (rw same written, all)
        | inr miss ↦ rw miss (here, All-update_where P k f xs distinct (ground arith) written all)
      ]

pub All-delete_where {ℓ κ} :
    {A : Type ℓ} (P : A → Type κ) (p : A → Bool) (xs : List A)
    → All P xs
    → All P (delete_where p xs)
unfolding delete_where
All-delete_where P p [] h = tt
All-delete_where P p (x ∷ xs) (here, h) = elim (Bool-cases (p x)) [
  | inl hit ↦ rw hit (All-delete_where P p xs h)
  | inr miss ↦ rw miss (here, All-delete_where P p xs h)
]

-- How many rows pass a test, before and after a write by key.
module _ {ℓ} {A : Type ℓ} (key : A → String) (p : A → Bool) (k : String) where
  pub count-update_where :
      (f : A → A) (xs : List A) {s : A}
      → HasDistinctKeys key xs
      → find? (λ x. key x == k) xs ≡ some s
      → count p (update_where (λ x. key x == k) f xs) + (if p s then 1 else 0)
        ≡ count p xs + (if p (f s) then 1 else 0)
  unfolding find? update_where count
  count-update_where f [] distinct found = ground arith
  count-update_where f (x ∷ xs) {s} (free, distinct) found = elim (Bool-cases (key x == k)) [
    | inl hit ↦
        let same : x ≡ s = ground arith in
        let free' : IsFree key k xs = rw (← (eq_iff (key x) k).0 hit) free in
        rw (hit, update_where-IsFree key k f xs free', same) (omega arith)
    | inr miss ↦
        let later : find? (λ x. key x == k) xs ≡ some s = ground arith in
        rw miss (ground (arith, count-update_where f xs distinct later))
  ]

  delete_where-IsFree : (xs : List A) → IsFree key k xs → delete_where (λ x. key x == k) xs ≡ xs
  unfolding delete_where
  delete_where-IsFree [] h = refl
  delete_where-IsFree (x ∷ xs) (other, h) = rw (other, delete_where-IsFree xs h) refl

  pub count-delete_where :
      (xs : List A) {s : A}
      → HasDistinctKeys key xs
      → find? (λ x. key x == k) xs ≡ some s
      → count p (delete_where (λ x. key x == k) xs) + (if p s then 1 else 0) ≡ count p xs
  unfolding find? delete_where count
  count-delete_where [] distinct found = ground arith
  count-delete_where (x ∷ xs) {s} (free, distinct) found = elim (Bool-cases (key x == k)) [
    | inl hit ↦
        let same : x ≡ s = ground arith in
        let free' : IsFree key k xs = rw (← (eq_iff (key x) k).0 hit) free in
        rw (hit, delete_where-IsFree xs free', same) (omega arith)
    | inr miss ↦
        let later : find? (λ x. key x == k) xs ≡ some s = ground arith in
        rw miss (ground (arith, count-delete_where xs distinct later))
  ]

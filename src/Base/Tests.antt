-- ===== src/Base/Tests.antt =====
-- Boolean tests on the native numbers, JavaScript's truthiness of optional values, and case splits
-- that keep the equation.
use Prim.Native.Nat.{ℕ, compare, Ordering}
use Prim.Native.String.{String}
use mathlib.Core.Path.{◌≡◌, refl, ap, sym}
use text.Mathlib.TextEquality.{eq_iff}
use mathlib.Core.Logic.{◌⊎◌, inl, inr}
use mathlib.Core.Bool.{Bool, true, false}
use mathlib.Core.Option.{Option, none, some}
use text.Mathlib.Text.{◌==◌}

abbrev pub ltb : ℕ → ℕ → Bool
ltb a b = elim (compare a b) [ Ordering.lt ↦ true | _ ↦ false ]

abbrev pub leb : ℕ → ℕ → Bool
leb a b = elim (compare a b) [ Ordering.gt ↦ false | _ ↦ true ]

abbrev pub eqb : ℕ → ℕ → Bool
eqb a b = elim (compare a b) [ Ordering.eq ↦ true | _ ↦ false ]

infix 1 if◌then◌else◌
abbrev pub if◌then◌else◌ {ℓ} : {A : Type ℓ} → Bool → A → A → A
if true then x else y = x
if false then x else y = y

abbrev pub is_some {ℓ} : {A : Type ℓ} → Option A → Bool
is_some none = false
is_some (some a) = true

abbrev pub get_or {ℓ} : {A : Type ℓ} → A → Option A → A
get_or d none = d
get_or d (some a) = a

-- An optional text in a test: `undefined`, `null` and `""` are falsy.
abbrev pub truthy : Option String → Option String
truthy none = none
truthy (some s) = if s == "" then none else some s

-- An optional number in a test: `undefined`, `null` and `0` are falsy.
abbrev pub truthy_num : Option ℕ → Option ℕ
truthy_num none = none
truthy_num (some n) = if eqb n 0 then none else some n

-- `a === b` where either side may be `undefined` or `null`, and two absent values are not compared.
abbrev pub same : Option String → Option String → Bool
same (some a) (some b) = a == b
same _ _ = false

pub Bool-cases : (b : Bool) → (b ≡ true) ⊎ (b ≡ false)
Bool-cases true = inl refl
Bool-cases false = inr refl

pub Option-cases {ℓ} : {A : Type ℓ} (o : Option A) → (o ≡ none) ⊎ ((a : A) × (o ≡ some a))
Option-cases none = inl refl
Option-cases (some a) = inr (a, refl)

pub same_eq : (a : Option String) (b : String) → same a (some b) ≡ true → a ≡ some b
same_eq none b h = cc
same_eq (some a) b h = ap some ((eq_iff a b).0 h)

pub same_sound :
    (a b : Option String) → same a b ≡ true → (x : String) × (a ≡ some x) × (b ≡ some x)
same_sound none b h = cc
same_sound (some a) none h = cc
same_sound (some a) (some b) h = (a, refl, ap some (sym ((eq_iff a b).0 h)))

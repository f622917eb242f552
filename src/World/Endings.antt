-- ===== src/World/Endings.antt =====
-- How a handler ends: what holds where it returns, and what holds where it throws.
use mathlib.Core.Path.{◌≡◌, refl, sym, ap, ◌∙◌, transport}
use i_transfer.Base.{Bool, true, false, if◌then◌else◌}
use mathlib.Core.Option.{Option, none, some}
use i_transfer.World.State.{World}
use i_transfer.World.Handler.{
  App, Exception, Outcome, ok, throws, resume, throw, throw_if, or_throw,
}

-- The first condition at a result, the second at an exception.
abbrev pub Ends :
    {A : Type 0} (returned : A → World → Type 0) (thrown : World → Type 0)
    → Outcome A × World
    → Type 0
Ends returned thrown (ok a, w) = returned a w
Ends returned thrown (throws e, w) = thrown w

module _ {A : Type 0} (returned : A → World → Type 0) (thrown : World → Type 0) where
  pub Ends-resume :
      {B : Type 0} (r : Outcome B × World) (k : B → App A)
      → Ends (λ b w. Ends returned thrown (k b w)) thrown r
      → Ends returned thrown (resume r k)
  Ends-resume (ok b, w) k holds = holds
  Ends-resume (throws e, w) k holds = holds

  pub Ends-or_throw :
      (e : Exception) (o : Option A) (w : World)
      → thrown w
      → ((a : A) → o ≡ some a → returned a w)
      → Ends returned thrown (or_throw e o w)
  Ends-or_throw e none w missing there = missing
  Ends-or_throw e (some a) w missing there = there a refl

  pub Ends-ok :
      (r : Outcome A × World) (a : A) (w : World)
      → r ≡ (ok a, w)
      → Ends returned thrown r
      → returned a w
  Ends-ok r a w same ends = transport (λ i. Ends returned thrown (same i)) ends

  pub Ends-throws :
      (r : Outcome A × World) (e : Exception) (w : World)
      → r ≡ (throws e, w)
      → Ends returned thrown r
      → thrown w
  Ends-throws r e w same ends = transport (λ i. Ends returned thrown (same i)) ends

pub Ends-throw_if :
    (returned : Unit {0} → World → Type 0) (thrown : World → Type 0) (b : Bool) (e : Exception)
    (w : World)
    → thrown w
    → (b ≡ false → returned tt w)
    → Ends returned thrown (throw_if b e w)
Ends-throw_if returned thrown true e w refused passed = refused
Ends-throw_if returned thrown false e w refused passed = passed refl

pub Ends-reads :
    {A : Type 0} (returned : A → World → Type 0) (thrown : World → Type 0) (r : Outcome A × World)
    (w : World)
    → r.1 ≡ w
    → thrown w
    → ((a : A) → r ≡ (ok a, w) → returned a w)
    → Ends returned thrown r
Ends-reads returned thrown (ok a, w') w same refused passed =
    transport (λ i. returned a (sym same i)) (passed a (λ i. (ok a, same i)))
Ends-reads returned thrown (throws e, w') w same refused passed =
    transport (λ i. thrown (sym same i)) refused

-- A weaker condition at each end.
pub Ends-weaken :
    {A : Type 0} (returned later : A → World → Type 0) (thrown other : World → Type 0)
    (r : Outcome A × World)
    → Ends returned thrown r
    → ((a : A) (w : World) → returned a w → later a w)
    → ((w : World) → thrown w → other w)
    → Ends later other r
Ends-weaken returned later thrown other (ok a, w) ends f g = f a w ends
Ends-weaken returned later thrown other (throws e, w) ends f g = g w ends

pub Ends-trivial :
    {A : Type 0} (P : Type 0) → P → (r : Outcome A × World) → Ends (λ _ _. Unit {0}) (λ _. P) r
Ends-trivial P p (ok a, w) = tt
Ends-trivial P p (throws e, w) = p

-- A condition on the state alone holds at both ends.
pub Ends-of :
    {A : Type 0} (P : World → Type 0) (r : Outcome A × World) → P r.1 → Ends (λ _ w. P w) P r
Ends-of P (ok a, w) p = p
Ends-of P (throws e, w) p = p

pub Ends-state :
    {A : Type 0} (P : World → Type 0) (r : Outcome A × World) → Ends (λ _ w. P w) P r → P r.1
Ends-state P (ok a, w) p = p
Ends-state P (throws e, w) p = p

-- What both steps keep, the two together keep.
pub resume-state :
    {A B : Type 0} (P : World → Type 0) (r : Outcome B × World) (k : B → App A)
    → P r.1
    → ((b : B) (w : World) → P w → P (k b w).1)
    → P (resume r k).1
resume-state P (ok b, w) k p keeps = keeps b w p
resume-state P (throws e, w) k p keeps = p

-- A handler that goes on after a refusal, a missing value, a choice.
module _ {A : Type 0} (returned : A → World → Type 0) (thrown : World → Type 0) where
  pub Ends-guard :
      (b : Bool) (e : Exception) (w : World) (k : Unit {0} → App A)
      → thrown w
      → (b ≡ false → Ends returned thrown (k tt w))
      → Ends returned thrown (resume (throw_if b e w) k)
  Ends-guard true e w k refused passed = refused
  Ends-guard false e w k refused passed = passed refl

  pub Ends-need :
      {B : Type 0} (e : Exception) (o : Option B) (w : World) (k : B → App A)
      → thrown w
      → ((b : B) → o ≡ some b → Ends returned thrown (k b w))
      → Ends returned thrown (resume (or_throw e o w) k)
  Ends-need e none w k missing there = missing
  Ends-need e (some b) w k missing there = there b refl

  pub Ends-call :
      {B : Type 0} (r : Outcome B × World) (k : B → App A)
      → ((w : World) → thrown w)
      → ((b : B) (w : World) → r ≡ (ok b, w) → Ends returned thrown (k b w))
      → Ends returned thrown (resume r k)
  Ends-call (ok b, w) k failed holds = holds b w refl
  Ends-call (throws e, w) k failed holds = failed w

  pub Ends-if :
      (b : Bool) (m n : App A) (w : World)
      → (b ≡ true → Ends returned thrown (m w))
      → (b ≡ false → Ends returned thrown (n w))
      → Ends returned thrown ((if b then m else n) w)
  Ends-if true m n w on off = on refl
  Ends-if false m n w on off = off refl

  pub Ends-match :
      {B : Type 0} (o : Option B) (n : App A) (k : B → App A) (w : World)
      → (o ≡ none → Ends returned thrown (n w))
      → ((b : B) → o ≡ some b → Ends returned thrown (k b w))
      → Ends returned thrown ((elim o as (λ _. App A) [ none ↦ n | some b ↦ k b ]) w)
  Ends-match none n k w missing there = missing refl
  Ends-match (some b) n k w missing there = there b refl

pub Ends-is :
    {A : Type 0} (returned : A → World → Type 0) (thrown : World → Type 0) (r : Outcome A × World)
    (a : A) (w : World)
    → r ≡ (ok a, w)
    → returned a w
    → Ends returned thrown r
Ends-is returned thrown r a w same holds = transport (λ i. Ends returned thrown (sym same i)) holds

pub Ends-any :
    {A : Type 0} (returned : A → World → Type 0) (thrown : World → Type 0) (r : Outcome A × World)
    → ((a : A) (w : World) → returned a w)
    → ((w : World) → thrown w)
    → Ends returned thrown r
Ends-any returned thrown (ok a, w) holds failed = holds a w
Ends-any returned thrown (throws e, w) holds failed = failed w

module _ {A : Type 0} (returned : A → World → Type 0) (thrown : World → Type 0) where
  pub Ends-then :
      {B : Type 0} (middle : B → World → Type 0) (r : Outcome B × World) (k : B → App A)
      → Ends middle thrown r
      → ((b : B) (w : World) → middle b w → Ends returned thrown (k b w))
      → Ends returned thrown (resume r k)
  Ends-then middle (ok b, w) k ends next = next b w ends
  Ends-then middle (throws e, w) k ends next = ends

  -- An exception that goes on after a last step.
  pub Ends-undone :
      {B : Type 0} (r : Outcome B × World) (e : Exception)
      → thrown r.1
      → Ends returned thrown (resume r (λ _. throw e))
  Ends-undone (ok b, w) e left = left
  Ends-undone (throws f, w) e left = left

  -- A step that changes nothing.
  pub Ends-keeping :
      {B : Type 0} (r : Outcome B × World) (k : B → App A) (w : World)
      → r.1 ≡ w
      → thrown w
      → ((b : B) → Ends returned thrown (k b w))
      → Ends returned thrown (resume r k)
  Ends-keeping (ok b, w') k w same refused next =
      transport (λ i. Ends returned thrown (k b (sym same i))) (next b)
  Ends-keeping (throws e, w') k w same refused next = transport (λ i. thrown (sym same i)) refused

-- What a step keeps and the rest keeps, the two together keep.
pub Ends-keep :
    {A B : Type 0} (P : World → Type 0) (r : Outcome B × World) (k : B → App A)
    → P r.1
    → ((b : B) (w : World) → P w → Ends (λ _ w'. P w') P (k b w))
    → Ends (λ _ w'. P w') P (resume r k)
Ends-keep P (ok b, w) k p keeps = keeps b w p
Ends-keep P (throws e, w) k p keeps = p

-- A row that is there.
pub Ends-there :
    {A B : Type 0} (returned : A → World → Type 0) (thrown : World → Type 0) (e : Exception)
    (o : Option B) (w : World) (k : B → App A) (b : B)
    → o ≡ some b
    → Ends returned thrown (k b w)
    → Ends returned thrown (resume (or_throw e o w) k)
Ends-there returned thrown e o w k b there ends =
    transport (λ i. Ends returned thrown (resume (or_throw e (sym there i) w) k)) ends

-- A first step whose result is known.
module _ {A B : Type 0} (returned : A → World → Type 0) (thrown : World → Type 0) where
  pub Ends-after :
      (r : Outcome B × World) (k : B → App A) (b : B) (w : World)
      → r ≡ (ok b, w)
      → Ends returned thrown (k b w)
      → Ends returned thrown (resume r k)
  Ends-after r k b w same ends = transport (λ i. Ends returned thrown (resume (sym same i) k)) ends

  pub Ends-refused :
      (r : Outcome B × World) (k : B → App A) (e : Exception) (w : World)
      → r ≡ (throws e, w)
      → thrown w
      → Ends returned thrown (resume r k)
  Ends-refused r k e w same refused =
      transport (λ i. Ends returned thrown (resume (sym same i) k)) refused

-- A step that returns, a test that lets pass, a value that is there.
pub resume-to :
    {A B : Type 0} {t : Outcome A × World} (r : Outcome B × World) (k : B → App A) (b : B)
    (w : World)
    → r ≡ (ok b, w)
    → k b w ≡ t
    → resume r k ≡ t
resume-to r k b w same rest = ap (λ x. resume x k) same ∙ rest

pub throw_if-passes :
    (b : Bool) (e : Exception) (w : World) → b ≡ false → throw_if b e w ≡ (ok tt, w)
throw_if-passes b e w h = rw h refl

pub or_throw-some :
    {A : Type 0} (e : Exception) (o : Option A) (w : World) (a : A)
    → o ≡ some a
    → or_throw e o w ≡ (ok a, w)
or_throw-some e o w a h = rw h refl

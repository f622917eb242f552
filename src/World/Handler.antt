-- ===== src/World/Handler.antt =====
-- A request handler: it reads and writes the state, and returns or throws. What was written before
-- a throw stays written.
use i_transfer.Base.{ℕ, String, Bool, true, false, Option, none, some}
use mathlib.Core.Path.{◌≡◌, refl}
use mathlib.Core.Logic.{◌⊎◌, inl, inr}
use i_transfer.World.State.{World}

-- The exceptions of @nestjs/common by their class and message, with the `error` field where the
-- code gives one; what Prisma throws for a missing row and for
-- a key that is taken; a property read of `null`; what
-- Node's file system throws.
pub data Exception : Type 0 where
  bad_request : String → Exception
  unexpected_chunk : (expected_chunk_index : ℕ) → Exception
  unauthorized : String → Exception
  forbidden : (message error : String) → Exception
  not_found : String → Exception
  conflict : String → Exception
  payload_too_large : String → Exception
  internal_server_error : String → Exception
  record_not_found : Exception
  unique_violation : Exception
  null_dereference : Exception
  file_system_error : Exception
  database_error : Exception
  service_unavailable : String → Exception

pub data Outcome {ℓ} (A : Type ℓ) : Type ℓ where
  ok : A → Outcome A
  throws : Exception → Outcome A

abbrev pub App {ℓ} : Type ℓ → Type ℓ
App A = World → Outcome A × World

abbrev pub resume {ℓ κ} :
    {A : Type ℓ} {B : Type κ} → Outcome A × World → (A → App B) → Outcome B × World
resume (ok a, w) k = k a w
resume (throws e, w) k = (throws e, w)

infixl 5 ◌>>=◌ ◌>>◌
abbrev pub ◌>>=◌ {ℓ κ} : {A : Type ℓ} {B : Type κ} → App A → (A → App B) → App B
◌>>=◌ m k w = resume (m w) k

abbrev pub ◌>>◌ {ℓ κ} : {A : Type ℓ} {B : Type κ} → App A → App B → App B
m >> k = m >>= λ _. k

abbrev pub pure {ℓ} : {A : Type ℓ} → A → App A
pure a w = (ok a, w)

abbrev pub throw {ℓ} : {A : Type ℓ} → Exception → App A
throw e w = (throws e, w)

abbrev pub gets {ℓ} : {A : Type ℓ} → (World → A) → App A
gets f w = (ok (f w), w)

abbrev pub modify : (World → World) → App (Unit {0})
modify f w = (ok tt, f w)

-- `if (b) throw e;`
abbrev pub throw_if : Bool → Exception → App (Unit {0})
throw_if true e w = (throws e, w)
throw_if false e w = (ok tt, w)

-- A row that the code goes on with, or an exception where there is none.
abbrev pub or_throw {ℓ} : {A : Type ℓ} → Exception → Option A → App A
or_throw e none w = (throws e, w)
or_throw e (some a) w = (ok a, w)

-- `try { … } catch { … }`
abbrev pub caught {ℓ} : {A : Type ℓ} → Outcome A × World → App A → Outcome A × World
caught (ok a, w) handler = (ok a, w)
caught (throws e, w) handler = handler w

abbrev pub recover {ℓ} : {A : Type ℓ} → App A → App A → App A
recover m handler w = caught (m w) handler

-- The result of a request, and the state that it leaves.
abbrev pub returns {ℓ} : {A : Type ℓ} → Outcome A → Option A
returns (ok a) = some a
returns (throws e) = none

pub Outcome-cases {ℓ} :
    {A : Type ℓ} (o : Outcome A) → ((a : A) × (o ≡ ok a)) ⊎ ((e : Exception) × (o ≡ throws e))
Outcome-cases (ok a) = inl (a, refl)
Outcome-cases (throws e) = inr (e, refl)

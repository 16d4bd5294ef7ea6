-- ===== src/Action.antt =====
-- Requests that read and write the stored state and may throw an exception of NestJS. What was
-- written before a throw stays written, so the state comes back beside the error too.
pub mod Laws
use nexusflow_backend.Prelude.{Bool, true, false, String, Option, none, some}

-- The exceptions of @nestjs/common that the services throw, with their messages.
pub data HttpError : Type 0 where
  bad_request unauthorized forbidden not_found internal_server_error : String → HttpError
  -- A `BadRequestException` about one node of a flow: its id, the message and the code.
  bad_node : String → String → String → HttpError

pub data Result {ℓ} (A : Type ℓ) : Type ℓ where
  ok : A → Result A
  err : HttpError → Result A

abbrev pub Action {ℓ} : Type ℓ → Type ℓ → Type ℓ
Action S A = S → Result A × S

module _ {ℓ} {S A : Type ℓ} where
  abbrev pub pure : A → Action S A
  pure a s = (ok a, s)

  abbrev pub throw : HttpError → Action S A
  throw e s = (err e, s)

  -- A computation that reads no state.
  abbrev pub lift : Result A → Action S A
  lift r s = (r, s)

  abbrev pub reads : (S → A) → Action S A
  reads f s = (ok (f s), s)

  -- `if (value === null) throw e`
  abbrev pub or_throw : HttpError → Option A → Action S A
  or_throw e none s = (err e, s)
  or_throw e (some a) s = (ok a, s)

module _ {S : Type 0} where
  abbrev pub writes : (S → S) → Action S (Unit {0})
  writes f s = (ok tt, f s)

  -- `if (test) throw e`
  abbrev pub throw_if : Bool → HttpError → Action S (Unit {0})
  throw_if true e s = (err e, s)
  throw_if false e s = (ok tt, s)

module _ {ℓ} {S A B : Type ℓ} where
  -- What follows a computation: nothing, if it threw.
  abbrev pub continue : Result A → (A → Action S B) → Action S B
  continue (ok a) f s = f a s
  continue (err e) f s = (err e, s)

  infixl 10 ◌>>=◌ ◌>>◌
  abbrev pub ◌>>=◌ : Action S A → (A → Action S B) → Action S B
  ◌>>=◌ m f s = let (r, s') = m s in continue r f s'

  abbrev pub ◌>>◌ : Action S A → Action S B → Action S B
  ◌>>◌ m k s = let (r, s') = m s in continue r (λ _. k) s'

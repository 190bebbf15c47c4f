-- ===== src/Exec.antt =====
-- A call on the engine thread: it runs on a state and returns, throws, or dies with the process.
use daichod.Base.{Option, none, some, Bool, true, false}
use daichod.Rpc.Error.{Exception, ShimError, shim}

-- `aborted` is `std::abort`: nothing catches it.
pub data Result {ℓ} (A : Type ℓ) : Type ℓ where
  ok : A → Result A
  err : Exception → Result A
  aborted : Result A

abbrev pub Exec {ℓ} : Type 0 → Type ℓ → Type ℓ
Exec S A = S → Result A × S

module _ {ℓ} {S : Type 0} {A : Type ℓ} where
  abbrev pub pure : A → Exec S A
  pure a s = (ok a, s)

  abbrev pub throw : Exception → Exec S A
  throw e s = (err e, s)

  -- An `Option` that must be there, or the exception.
  abbrev pub or_throw : Option A → Exception → Exec S A
  or_throw none e = throw e
  or_throw (some a) e = pure a

abbrev pub guard : {S : Type 0} → Bool → Exception → Exec S (Unit {0})
guard true e = pure tt
guard false e = throw e

module _ {ℓ κ} {S : Type 0} {A : Type ℓ} {B : Type κ} where
  abbrev pub continue : Result A × S → (A → Exec S B) → Result B × S
  continue (ok a, s) f = f a s
  continue (err e, s) f = (err e, s)
  continue (aborted, s) f = (aborted, s)

  infixl 5 ◌>>=◌
  abbrev pub ◌>>=◌ : Exec S A → (A → Exec S B) → Exec S B
  ◌>>=◌ m f s = continue (m s) f

infixl 5 ◌>>◌
abbrev pub ◌>>◌ {ℓ} : {S : Type 0} {B : Type ℓ} → Exec S (Unit {0}) → Exec S B → Exec S B
m >> k = m >>= λ _. k

-- `try { m } catch (const ShimError& e) { handler(e) }`: no other exception is caught.
module _ {ℓ} {S : Type 0} {A : Type ℓ} where
  abbrev pub recover : Result A × S → (ShimError → Exec S A) → Result A × S
  recover (err (shim e), s) h = h e s
  recover (r, s) h = (r, s)

  abbrev pub catch_shim : Exec S A → (ShimError → Exec S A) → Exec S A
  catch_shim m h s = recover (m s) h

-- Runs a call on a part of the state.
module _ {ℓ} {S T : Type 0} {A : Type ℓ} where
  abbrev pub put_back : (T → S → S) → S → Result A × T → Result A × S
  put_back put s (r, t) = (r, put t s)

  abbrev pub on : (S → T) → (T → S → S) → Exec T A → Exec S A
  on get put m s = put_back put s (m (get s))

-- ===== src/Py/Async.antt =====
-- A coroutine over the state `S` of everything outside it: it ends with a value or an exception,
-- and what it did to the state before an exception stays done.
pub mod OnlyCancelled
pub mod Keeps
use mq.Base.{Bool, true, false, Option, ◌≡◌, refl, if◌then◌else◌}
use mq.Py.Exceptions.{Exn, Result, ok, raise, is_exception}

abbrev pub Async : Type 0 → Type 0 → Type 0
Async S A = S → Result A × S

module _ {S A : Type 0} where
  abbrev pub pure : A → Async S A
  pure a s = (ok a, s)

  abbrev pub throw : Exn → Async S A
  throw e s = (raise e, s)

  abbrev pub lift : Result A → Async S A
  lift r s = (r, s)

module _ {S A B : Type 0} where
  abbrev pub resume : Result A → (A → Async S B) → Async S B
  resume (ok a) f s = f a s
  resume (raise e) f s = (raise e, s)

  infixl 5 ◌>>=◌
  abbrev pub ◌>>=◌ : Async S A → (A → Async S B) → Async S B
  ◌>>=◌ m f s = resume (m s).0 f (m s).1

module _ {S B : Type 0} where
  infixl 5 ◌>>◌
  abbrev pub ◌>>◌ : Async S (Unit {0}) → Async S B → Async S B
  m >> k = m >>= λ _. k

-- An exception of the `finally` block takes the place of the outcome.
abbrev pub outcome : {A : Type 0} → Result A → Result (Unit {0}) → Result A
outcome r (ok _) = r
outcome r (raise e) = raise e

module _ {S A : Type 0} where
  abbrev pub handle : Result A → (Exn → Async S A) → Async S A
  handle (ok a) h s = (ok a, s)
  handle (raise e) h s = if is_exception e then h e s else (raise e, s)

  -- `try: m` with `except Exception as exc: h exc`, after which the block has the handler's value.
  abbrev pub try_except : Async S A → (Exn → Async S A) → Async S A
  try_except m h s = handle (m s).0 h (m s).1

  -- `try: m` with `finally: cleanup`
  abbrev pub try_finally : Async S A → Async S (Unit {0}) → Async S A
  try_finally m cleanup s = (outcome (m s).0 (cleanup (m s).1).0, (cleanup (m s).1).1)

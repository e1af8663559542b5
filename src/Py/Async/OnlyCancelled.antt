-- ===== src/Py/Async/OnlyCancelled.antt =====
-- Coroutines that no `Exception` escapes from, one rule for each way to build a coroutine.
use mq.Base.{Bool, true, false, ◌≡◌, refl, if◌then◌else◌}
use mq.Py.Exceptions.{Exn, Result, ok, raise, is_exception}
use mq.Py.Async.{Async, pure, resume, handle, ◌>>=◌, try_except}

-- An outcome that is a value or a cancellation.
abbrev pub IsCancelled : {A : Type 0} → Result A → Type 0
IsCancelled (ok a) = Unit
IsCancelled (raise e) = is_exception e ≡ false

pub record OnlyCancelled {S A : Type 0} (m : Async S A) : Type 0 where
  pub at : (s : S) → IsCancelled (m s).0

module _ {S A : Type 0} where
  pub OnlyCancelled-pure : (a : A) → OnlyCancelled (pure {S = S} a)
  OnlyCancelled-pure a = record { at = λ s. tt }

  handle-IsCancelled :
      (r : Result A) (h : Exn → Async S A) (s : S)
      → ((e : Exn) → OnlyCancelled (h e))
      → IsCancelled (handle r h s).0
  handle-IsCancelled (ok a) h s kh = tt
  handle-IsCancelled (raise e) h s kh = by_kind (is_exception e) refl
    where
      by_kind :
          (b : Bool)
          → is_exception e ≡ b
          → IsCancelled (if is_exception e then h e s else (raise e, s)).0
      by_kind true q = rw q ((kh e).at s)
      by_kind false q = rw q q

  -- Whatever the body does, only the handler's own exceptions are left.
  pub OnlyCancelled-try :
      (m : Async S A) (h : Exn → Async S A)
      → ((e : Exn) → OnlyCancelled (h e))
      → OnlyCancelled (try_except m h)
  OnlyCancelled-try m h kh = record { at = λ s. handle-IsCancelled (m s).0 h (m s).1 kh }

module _ {S A B : Type 0} where
  resume-IsCancelled :
      (r : Result A) (f : A → Async S B) (s : S)
      → IsCancelled r
      → ((a : A) → OnlyCancelled (f a))
      → IsCancelled (resume r f s).0
  resume-IsCancelled (ok a) f s k kf = (kf a).at s
  resume-IsCancelled (raise e) f s k kf = k

  pub OnlyCancelled-bind :
      (m : Async S A) (f : A → Async S B)
      → OnlyCancelled m
      → ((a : A) → OnlyCancelled (f a))
      → OnlyCancelled (m >>= f)
  OnlyCancelled-bind m f km kf = record {
    at = λ s. resume-IsCancelled (m s).0 f (m s).1 (km.at s) kf;
  }

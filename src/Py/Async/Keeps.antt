-- ===== src/Py/Async/Keeps.antt =====
-- Predicates on the state that a coroutine keeps, however it ends.
use mq.Base.{Bool, true, false, if◌then◌else◌}
use mq.Py.Exceptions.{Exn, Result, ok, raise, is_exception}
use mq.Py.Async.{Async, pure, lift, resume, handle, ◌>>=◌, try_except, try_finally}

pub record Keeps {S A : Type 0} (P : S → Type 0) (m : Async S A) : Type 0 where
  pub at : (s : S) → P s → P (m s).1

module _ {S A : Type 0} {P : S → Type 0} where
  pub Keeps-pure : (a : A) → Keeps P (pure a)
  Keeps-pure a = record { at = λ s h. h }

  pub Keeps-lift : (r : Result A) → Keeps P (lift r)
  Keeps-lift r = record { at = λ s h. h }

  pub Keeps-finally :
      (m : Async S A) (cleanup : Async S (Unit {0}))
      → Keeps P m
      → Keeps P cleanup
      → Keeps P (try_finally m cleanup)
  Keeps-finally m cleanup km kc = record { at = λ s h. kc.at (m s).1 (km.at s h) }

  handle-keeps :
      (r : Result A) (h : Exn → Async S A) (s : S)
      → ((e : Exn) → Keeps P (h e))
      → P s
      → P (handle r h s).1
  handle-keeps (ok a) h s kh p = p
  handle-keeps (raise e) h s kh p = by_kind (is_exception e)
    where
      by_kind : (b : Bool) → P (if b then h e s else (raise e, s)).1
      by_kind true = (kh e).at s p
      by_kind false = p

  pub Keeps-try :
      (m : Async S A) (h : Exn → Async S A)
      → Keeps P m
      → ((e : Exn) → Keeps P (h e))
      → Keeps P (try_except m h)
  Keeps-try m h km kh = record { at = λ s p. handle-keeps (m s).0 h (m s).1 kh (km.at s p) }

module _ {S A B : Type 0} {P : S → Type 0} where
  resume-keeps :
      (r : Result A) (f : A → Async S B) (s : S)
      → ((a : A) → Keeps P (f a))
      → P s
      → P (resume r f s).1
  resume-keeps (ok a) f s kf p = (kf a).at s p
  resume-keeps (raise e) f s kf p = p

  pub Keeps-bind :
      (m : Async S A) (f : A → Async S B)
      → Keeps P m
      → ((a : A) → Keeps P (f a))
      → Keeps P (m >>= f)
  Keeps-bind m f km kf = record { at = λ s p. resume-keeps (m s).0 f (m s).1 kf (km.at s p) }

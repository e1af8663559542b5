-- ===== src/Py/Exceptions.antt =====
-- Exceptions as values. `CancelledError` is the one that derives from `BaseException` alone.
use mq.Base.{Text, Bool, true, false, List, [], ◌∷◌, Option, none, some}
use mq.Py.Json.{Json}

pub data Exn : Type 0 where
  -- `Mq9Error(value)`, python/mq9/client.py
  mq9_error : Json → Exn
  runtime_error value_error key_error attribute_error type_error : Text → Exn
  timeout_error : Exn
  -- any other `Exception` that library code raises
  library_error : Text → Exn
  cancelled_error : Exn

-- `isinstance(exc, Exception)`
unfoldable pub is_exception : Exn → Bool
is_exception cancelled_error = false
is_exception _ = true

-- What a call ends with.
pub data Result (A : Type 0) : Type 0 where
  ok : A → Result A
  raise : Exn → Result A

infixl 5 ◌>>=◌
abbrev pub ◌>>=◌ : {A B : Type 0} → Result A → (A → Result B) → Result B
ok a >>= f = f a
raise e >>= f = raise e

abbrev pub or_raise : {A : Type 0} → Option A → Exn → Result A
or_raise none e = raise e
or_raise (some a) e = ok a

-- A comprehension whose body may raise.
unfoldable pub map_result : {A B : Type 0} → (A → Result B) → List A → Result (List B)
map_result f [] = ok []
map_result f (x ∷ xs) = do y ← f x; ys ← map_result f xs; ok (y ∷ ys)

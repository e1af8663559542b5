-- ===== src/Py/Loads.antt =====
-- `json.loads` as a machine that is fed the text, with a stack of the arrays and objects that are
-- open. A number with a fraction or an exponent is refused, since the values have no floats; the
-- errors are those of `JSONDecodeError`, a `ValueError`.

pub mod Readable
pub mod RoundTrip
use mq.Base.{
  ℕ, zero, suc, ◌==◌, leb, ◌&&◌, ◌||◌, Text, Bytes, codes, ℤ, pos, negsuc, Bool, true, false,
  Option, none, some, List, [], ◌∷◌, ◌++◌, ◌≡◌, refl, text_eq, if◌then◌else◌,
}
use mathlib.Core.List.{foldl}
use mq.Base.Decimal.Parse.{value_from}
use mq.Py.Exceptions.{Result, ok, raise, value_error, ◌>>=◌}
use mq.Py.Utf8.Decode.{utf8_decode}
use mq.Py.Json.{Json, null, bool, int, str, arr, obj, Items, nil, cons, Fields, end, field, set}
use mq.Py.Scan
use mq.Py.Scan.{scan_step, goes_on, ends, refuses}

abbrev pub is_blank : ℕ → Bool
is_blank c = c == 32 || c == 9 || c == 10 || c == 13

abbrev pub is_digit : ℕ → Bool
is_digit c = leb b'0' c && leb c b'9'

-- What goes on with a number that is no integer.
abbrev pub is_float_mark : ℕ → Bool
is_float_mark c = c == b'.' || c == b'e' || c == b'E'

abbrev pub append_items : Items → Items → Items
append_items nil vs = vs
append_items (cons u us) vs = cons u (append_items us vs)

-- An array with the items before the current one, or an object with the members before the current
-- one and its key.
pub data Frame : Type 0 where
  in_array : Items → Frame
  in_object : Fields → Text → Frame

pub data Mode : Type 0 where
  -- a value comes, or the bracket of an empty array
  value item_or_close : Mode
  -- a key comes, or the brace of an empty object
  key_or_close : Mode
  key : Fields → Mode
  colon : Fields → Text → Mode
  -- in a string: a value, or a key after the members of its object
  in_str : Option Fields → Text → Scan.Mode → Mode
  -- the letters of a word that are to come
  word : ℕ → Text → Json → Mode
  -- after a minus; after a zero; after the digits of a number; negative or not
  signed : Mode
  zeroed : Bool → Mode
  number : Bool → Text → Mode
  -- a comma or the closing bracket comes
  after_item : Items → Mode
  after_member : Fields → Mode
  done : Json → Mode
  failed : Mode

pub record State : Type 0 where
  pub mode : Mode
  pub stack : List Frame

abbrev pub at : Mode → List Frame → State
at m k = record { mode = m; stack = k }

abbrev pub fails : State
fails = at failed []

-- A value is complete.
abbrev pub complete : Json → List Frame → State
complete v [] = at (done v) []
complete v (in_array vs ∷ k) = at (after_item (append_items vs (cons v nil))) k
complete v (in_object d name ∷ k) = at (after_member (set name v d)) k

-- A string is complete.
abbrev pub spoken : Option Fields → Text → List Frame → State
spoken none t k = complete (str t) k
spoken (some d) t k = at (colon d t) k

-- A character of a string.
abbrev pub heard : Option Fields → Text → List Frame → Scan.Next → State
heard o t k (goes_on out m) = at (in_str o (t ++ out) m) k
heard o t k (ends out) = spoken o (t ++ out) k
heard o t k refuses = fails

abbrev pub to_int : Bool → ℕ → ℤ
to_int false n = pos n
to_int true zero = pos 0
to_int true (suc n) = negsuc n

-- The first character of a value.
unfoldable pub begin : ℕ → List Frame → State
begin c k =
    if c == 34
    then at (in_str none [] Scan.plain) k
    else if c == b'{'
    then at key_or_close k
    else if c == b'['
    then at item_or_close k
    else if c == b'n'
    then at (word b'u' (codes "ll") null) k
    else if c == b't'
    then at (word b'r' (codes "ue") (bool true)) k
    else if c == b'f'
    then at (word b'a' (codes "lse") (bool false)) k
    else if c == b'-'
    then at signed k
    else if c == b'0'
    then at (zeroed false) k
    else if is_digit c
    then at (number false (c ∷ [])) k
    else fails

-- A character after a complete value.
unfoldable pub after_value : State → ℕ → State
after_value s c = elim s.mode [
  | after_item vs ↦
      if is_blank c
      then s
      else if c == b','
      then at value (in_array vs ∷ s.stack)
      else if c == b']'
      then complete (arr vs) s.stack
      else fails
  | after_member d ↦
      if is_blank c
      then s
      else if c == b','
      then at (key d) s.stack
      else if c == b'}'
      then complete (obj d) s.stack
      else fails
  | done v ↦ if is_blank c then s else fails
  | _ ↦ fails
]

-- A character after the digits of an integer.
abbrev pub after_int : ℤ → List Frame → ℕ → State
after_int i k c = if is_float_mark c then fails else after_value (complete (int i) k) c

abbrev pub spell : ℕ → Text → Json → List Frame → ℕ → State
spell p [] v k c = if c == p then complete v k else fails
spell p (q ∷ qs) v k c = if c == p then at (word q qs v) k else fails

unfoldable pub step : State → ℕ → State
unfolding begin after_value
step s c = elim s.mode [
  | value ↦ if is_blank c then s else begin c s.stack
  | item_or_close ↦
      if is_blank c
      then s
      else if c == b']'
      then complete (arr nil) s.stack
      else begin c (in_array nil ∷ s.stack)
  | key_or_close ↦
      if is_blank c
      then s
      else if c == b'}'
      then complete (obj end) s.stack
      else if c == 34
      then at (in_str (some end) [] Scan.plain) s.stack
      else fails
  | key d ↦
      if is_blank c
      then s
      else if c == 34
      then at (in_str (some d) [] Scan.plain) s.stack
      else fails
  | colon d t ↦
      if is_blank c then s else if c == b':' then at value (in_object d t ∷ s.stack) else fails
  | in_str o t m ↦ heard o t s.stack (scan_step m c)
  | word p ps v ↦ spell p ps v s.stack c
  | signed ↦
      if c == b'0'
      then at (zeroed true) s.stack
      else if is_digit c
      then at (number true (c ∷ [])) s.stack
      else fails
  | zeroed neg ↦ if is_digit c then fails else after_int (to_int neg 0) s.stack c
  | number neg ds ↦
      if is_digit c
      then at (number neg (ds ++ c ∷ [])) s.stack
      else after_int (to_int neg (value_from 0 ds)) s.stack c
  | _ ↦ after_value s c
]

abbrev pub after : State → Text → State
after s t = foldl step s t

abbrev pub outcome : State → Result Json
outcome s = elim s.mode [ done v ↦ ok v | _ ↦ raise (value_error (codes "no JSON")) ]

-- `json.loads(t)`. The blank at the end, which is none of the text's, ends a number.
unfoldable pub loads_text : Text → Result Json
loads_text t = outcome (after (at value []) (t ++ 32 ∷ []))

loads_examples :
    (loads_text (codes " {\"a\": [1, -20, true], \"b\" : {}, \"a\":null} ")
      ≡ ok (obj (field (codes "a") null (field (codes "b") (obj end) end))))
    × (loads_text (codes "[0, \"x\\n\"]")
        ≡ ok (arr (cons (int (pos 0)) (cons (str (b'x' ∷ 10 ∷ [])) nil))))
    × (loads_text (codes "[1,]") ≡ raise (value_error (codes "no JSON")))
    × (loads_text (codes "01") ≡ raise (value_error (codes "no JSON")))
    × (loads_text (codes "1 2") ≡ raise (value_error (codes "no JSON")))
unfolding loads_text step value_from set scan_step text_eq
loads_examples = (refl, refl, refl, refl, refl)

-- `json.loads(b)` of bytes in UTF-8. The two other encodings that `loads` takes are refused here,
-- and so are a byte order mark and the bytes of a surrogate.
unfoldable pub loads : Bytes → Result Json
loads b = do t ← utf8_decode b; loads_text t

-- ===== src/Py/Dumps/Ascii.antt =====
-- `json.dumps` writes ASCII, so that `.encode()` always succeeds on it and changes nothing.
use mq.Base.{
  ℕ, zero, suc, ◌+◌, ◌-◌, ◌/◌, ◌%◌, ◌<◌, Text, true, false, ℤ, pos, negsuc, [], ◌∷◌, ◌++◌, All, ◌≡◌,
  refl, arith,
}
use mq.Base.Decimal.{digits, decimal, str_int}
use mq.Py.Exceptions.{ok}
use mq.Py.Json.{Json, null, bool, int, str, arr, obj, nil, cons, end, field, Items, Fields}
use mq.Py.Utf8.{encode_char, utf8_encode}
use mq.Py.Dumps.{
  hex_digit, escape_unit, dump_char, dump_chars, dump_str, dumps, dump_items, dump_fields,
}

abbrev pub IsAscii : Text → Type 0
IsAscii = All (λ c. c < 128)

IsAscii-append : (s t : Text) → IsAscii s → IsAscii t → IsAscii (s ++ t)
IsAscii-append [] t h k = k
IsAscii-append (c ∷ s) t h k = (h.0, IsAscii-append s t h.1 k)

digits-IsAscii : (f n : ℕ) (out : Text) → IsAscii out → IsAscii (digits f n out)
unfolding digits
digits-IsAscii zero n out h = h
digits-IsAscii (suc f) n out h =
    ground (arith, digits-IsAscii f (n / 10) ((b'0' + n % 10) ∷ out) (omega arith, h))

decimal-IsAscii : (n : ℕ) → IsAscii (decimal n)
unfolding decimal
decimal-IsAscii n = ground (arith, digits-IsAscii n n [] tt)

str_int-IsAscii : (i : ℤ) → IsAscii (str_int i)
unfolding str_int
str_int-IsAscii (pos n) = decimal-IsAscii n
str_int-IsAscii (negsuc n) = (omega arith, decimal-IsAscii (suc n))

hex_digit-lt : (d : ℕ) → d < 16 → hex_digit d < 128
unfolding hex_digit
hex_digit-lt d h = ground arith

escape_unit-IsAscii : (u : ℕ) → IsAscii (escape_unit u)
unfolding escape_unit
escape_unit-IsAscii u = omega (arith, hex_digit-lt)

dump_char-IsAscii : (c : ℕ) → IsAscii (dump_char c)
unfolding dump_char
dump_char-IsAscii c = ground (
  arith,
  escape_unit-IsAscii c,
  IsAscii-append _ _ (escape_unit-IsAscii (0xD800 + (c - 0x10000) / 1024))
      (escape_unit-IsAscii (0xDC00 + (c - 0x10000) % 1024)),
)

dump_chars-IsAscii : (s : Text) → IsAscii (dump_chars s)
unfolding dump_chars
dump_chars-IsAscii [] = tt
dump_chars-IsAscii (c ∷ s) = IsAscii-append _ _ (dump_char-IsAscii c) (dump_chars-IsAscii s)

dump_str-IsAscii : (s : Text) → IsAscii (dump_str s)
unfolding dump_str
dump_str-IsAscii s =
    (omega arith, IsAscii-append (dump_chars s) _ (dump_chars-IsAscii s) (omega arith, tt))

mutual
  unfolding dumps

  pub dumps-IsAscii : (v : Json) → IsAscii (dumps v)
  dumps-IsAscii null = omega arith
  dumps-IsAscii (bool true) = omega arith
  dumps-IsAscii (bool false) = omega arith
  dumps-IsAscii (int i) = str_int-IsAscii i
  dumps-IsAscii (str s) = dump_str-IsAscii s
  dumps-IsAscii (arr nil) = omega arith
  dumps-IsAscii (arr (cons v vs)) =
      (omega arith, IsAscii-append (dumps v) _ (dumps-IsAscii v) (dump_items-IsAscii vs))
  dumps-IsAscii (obj end) = omega arith
  dumps-IsAscii (obj (field k v d)) = (
    omega arith,
    IsAscii-append (dump_str k) _ (dump_str-IsAscii k) (
      omega arith,
      (omega arith, IsAscii-append (dumps v) _ (dumps-IsAscii v) (dump_fields-IsAscii d)),
    ),
  )

  dump_items-IsAscii : (vs : Items) → IsAscii (dump_items vs)
  dump_items-IsAscii nil = omega arith
  dump_items-IsAscii (cons v vs) = (
    omega arith,
    (omega arith, IsAscii-append (dumps v) _ (dumps-IsAscii v) (dump_items-IsAscii vs)),
  )

  dump_fields-IsAscii : (d : Fields) → IsAscii (dump_fields d)
  dump_fields-IsAscii end = omega arith
  dump_fields-IsAscii (field k v d) = (
    omega arith,
    (
      omega arith,
      IsAscii-append (dump_str k) _ (dump_str-IsAscii k) (
        omega arith,
        (omega arith, IsAscii-append (dumps v) _ (dumps-IsAscii v) (dump_fields-IsAscii d)),
      ),
    ),
  )

utf8_encode-IsAscii : (s : Text) → IsAscii s → utf8_encode s ≡ ok s
unfolding utf8_encode encode_char
utf8_encode-IsAscii [] h = refl
utf8_encode-IsAscii (c ∷ s) h = rw (utf8_encode-IsAscii s h.1) (ground (arith, h.0))

-- Encoding the JSON text of a value never raises, and gives the codes of its characters.
pub utf8_encode-dumps : (v : Json) → utf8_encode (dumps v) ≡ ok (dumps v)
utf8_encode-dumps v = utf8_encode-IsAscii (dumps v) (dumps-IsAscii v)

-- ===== src/Py/Utf8/Decode.antt =====
-- `bytes.decode(errors="replace")`: every maximal part of the input that is no beginning of a
-- code gives one U+FFFD.
pub mod RoundTrip
use mq.Base.{
  codes, text_eq, ℕ, zero, suc, ◌+◌, ◌-◌, ◌*◌, Text, Bytes, ltb, leb, ◌&&◌, Option, none, some, [],
  ◌∷◌, ◌++◌, ◌≡◌, refl, if◌then◌else◌,
}
use mq.Py.Exceptions.{Result, ok, raise, value_error, ◌>>=◌}
use mq.Py.Utf8.{utf8_encode}

-- A code that has begun: its bits so far, the bytes still to come, and the range of the next one.
pub record Begun : Type 0 where
  pub bits : ℕ
  pub left : ℕ
  pub low : ℕ
  pub high : ℕ

abbrev pub begun : ℕ → ℕ → ℕ → ℕ → Option Begun
begun bits left low high = some (record { bits = bits; left = left; low = low; high = high })

abbrev pub replacement : ℕ
replacement = 0xFFFD

-- What a byte at the head of a code gives: finished characters, and the code that it begins.
unfoldable pub head_byte : ℕ → Text × Option Begun
head_byte b =
    if ltb b 0x80
    then (b ∷ [], none)
    else if ltb b 0xC2
    then (replacement ∷ [], none)
    else if ltb b 0xE0
    then ([], begun (b - 0xC0) 1 0x80 0xBF)
    else if ltb b 0xE1
    then ([], begun 0 2 0xA0 0xBF)
    else if ltb b 0xED
    then ([], begun (b - 0xE0) 2 0x80 0xBF)
    else if ltb b 0xEE
    then ([], begun 13 2 0x80 0x9F)
    else if ltb b 0xF0
    then ([], begun (b - 0xE0) 2 0x80 0xBF)
    else if ltb b 0xF1
    then ([], begun 0 3 0x90 0xBF)
    else if ltb b 0xF4
    then ([], begun (b - 0xF0) 3 0x80 0xBF)
    else if ltb b 0xF5
    then ([], begun 4 3 0x80 0x8F)
    else (replacement ∷ [], none)

-- One more byte of a code that has `left` bytes to come after it.
abbrev pub more : ℕ → ℕ → Text × Option Begun
more bits zero = (bits ∷ [], none)
more bits (suc left) = ([], begun bits (suc left) 0x80 0xBF)

unfoldable pub step : Option Begun → ℕ → Text × Option Begun
unfolding head_byte
step none b = head_byte b
step (some k) b =
    if leb k.low b && leb b k.high
    then more (k.bits * 64 + (b - 0x80)) (k.left - 1)
    else (replacement ∷ (head_byte b).0, (head_byte b).1)

unfoldable pub decode_from : Option Begun → Bytes → Text
unfolding step
decode_from none [] = []
decode_from (some k) [] = replacement ∷ []
decode_from k (b ∷ bs) = (step k b).0 ++ decode_from (step k b).1 bs

unfoldable pub decode_replace : Bytes → Text
unfolding decode_from
decode_replace bs = decode_from none bs

-- `bytes.decode()`, which raises on bytes that are no text's encoding
unfoldable pub utf8_decode : Bytes → Result Text
utf8_decode bs = do
  encoded ← utf8_encode (decode_replace bs)
  if text_eq encoded bs then ok (decode_replace bs) else raise (value_error (codes "invalid UTF-8"))

decode_examples :
    (decode_replace (0xE2 ∷ 0x82 ∷ 0xAC ∷ b'a' ∷ []) ≡ 0x20AC ∷ b'a' ∷ [])
    × (decode_replace (0xE2 ∷ 0x82 ∷ b'a' ∷ []) ≡ 0xFFFD ∷ b'a' ∷ [])
    × (decode_replace (0xF0 ∷ 0x80 ∷ 0x80 ∷ []) ≡ 0xFFFD ∷ 0xFFFD ∷ 0xFFFD ∷ [])
    × (decode_replace (0xF0 ∷ 0x9F ∷ []) ≡ 0xFFFD ∷ [])
unfolding decode_replace
decode_examples = (refl, refl, refl, refl)

strict_examples :
    (utf8_decode (0xE2 ∷ 0x82 ∷ 0xAC ∷ []) ≡ ok (0x20AC ∷ []))
    × (utf8_decode (0xEF ∷ 0xBF ∷ 0xBD ∷ []) ≡ ok (0xFFFD ∷ []))
    × (utf8_decode (0xE2 ∷ 0x82 ∷ []) ≡ raise (value_error (codes "invalid UTF-8")))
unfolding utf8_decode decode_replace utf8_encode mq.Py.Utf8.encode_char text_eq
strict_examples = (refl, refl, refl)

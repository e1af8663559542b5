-- ===== src/Py/Utf8.antt =====
-- `str.encode()`: UTF-8, which has no code for a surrogate.
pub mod Decode
use mq.Base.{
  ℕ, ◌+◌, ◌/◌, ◌%◌, Text, Bytes, codes, ltb, leb, Bool, ◌&&◌, [], ◌∷◌, ◌++◌, ◌≡◌, refl,
  if◌then◌else◌,
}
use mq.Py.Exceptions.{Result, ok, raise, value_error, ◌>>=◌}

abbrev pub is_surrogate : ℕ → Bool
is_surrogate c = leb 0xD800 c && leb c 0xDFFF

unfoldable pub encode_char : ℕ → Bytes
encode_char c =
    if ltb c 0x80
    then c ∷ []
    else if ltb c 0x800
    then (0xC0 + c / 64) ∷ (0x80 + c % 64) ∷ []
    else if ltb c 0x10000
    then (0xE0 + c / 4096) ∷ (0x80 + c / 64 % 64) ∷ (0x80 + c % 64) ∷ []
    else (0xF0 + c / 262144) ∷ (0x80 + c / 4096 % 64) ∷ (0x80 + c / 64 % 64) ∷ (0x80 + c % 64) ∷ []

unfoldable pub utf8_encode : Text → Result Bytes
utf8_encode [] = ok []
utf8_encode (c ∷ s) = do
  rest ← utf8_encode s
  if is_surrogate c
      then raise (value_error (codes "surrogates not allowed"))
      else ok (encode_char c ++ rest)

encode_euro : utf8_encode (0x20AC ∷ b'a' ∷ []) ≡ ok (0xE2 ∷ 0x82 ∷ 0xAC ∷ b'a' ∷ [])
unfolding utf8_encode encode_char
encode_euro = refl

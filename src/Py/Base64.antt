-- ===== src/Py/Base64.antt =====
-- `base64.b64decode` of a `str`, as the interpreter's `binascii.a2b_base64` runs it, and the
-- encoder of RFC 4648 that the broker uses.
pub mod RoundTrip
use mq.Base.{
  ℕ, zero, suc, ◌+◌, ◌-◌, ◌*◌, ◌/◌, ◌%◌, ◌<◌, ◌≤◌, Text, Bytes, codes, ltb, leb, ◌==◌, Bool, true,
  false, ◌&&◌, Option, none, some, List, [], ◌∷◌, ◌++◌, All, ◌≡◌, refl, arith, if◌then◌else◌, ap,
}
use mq.Py.Exceptions.{Exn, Result, ok, raise, value_error, ◌>>=◌}

-- The value of a character of the alphabet.
unfoldable pub sextet : ℕ → Option ℕ
sextet c =
    if leb b'A' c && leb c b'Z'
    then some (c - b'A')
    else if leb b'a' c && leb c b'z'
    then some (c - b'a' + 26)
    else if leb b'0' c && leb c b'9'
    then some (c - b'0' + 52)
    else if c == b'+'
    then some 62
    else if c == b'/'
    then some 63
    else none

-- The state of the decoder inside a group of four characters: the bits not yet written out.
pub data Quad : Type 0 where
  q0 : Quad
  q1 q2 q3 : ℕ → Quad

-- The byte that a character completes, and the state after it.
abbrev pub feed : Quad → ℕ → Bytes × Quad
feed q0 v = ([], q1 v)
feed (q1 l) v = ((l * 4 + v / 16) ∷ [], q2 (v % 16))
feed (q2 l) v = ((l * 16 + v / 4) ∷ [], q3 (v % 4))
feed (q3 l) v = ((l * 64 + v) ∷ [], q0)

-- `quad_pos >= 2 && quad_pos + pads >= 4`, `pads` counting this sign
abbrev pub is_closed_by : Quad → ℕ → Bool
is_closed_by q0 pads = false
is_closed_by (q1 l) pads = false
is_closed_by (q2 l) pads = leb 2 pads
is_closed_by (q3 l) pads = leb 1 pads

abbrev pub at_end : Quad → Result Bytes
at_end q0 = ok []
at_end (q1 l) = raise (value_error (codes "Invalid base64-encoded string"))
at_end _ = raise (value_error (codes "Incorrect padding"))

-- A character outside the alphabet is skipped.
unfoldable pub scan : Quad → ℕ → Text → Result Bytes
scan q pads [] = at_end q
scan q pads (c ∷ s) =
    let pad = scan q (suc pads) s in
    let skip = scan q pads s in
    let more = λ (v : ℕ). (do rest ← scan (feed q v).1 0 s; ok ((feed q v).0 ++ rest)) in
    if c == b'='
    then (if is_closed_by q (suc pads) then ok [] else pad)
    else elim (sextet c) [ none ↦ skip | some v ↦ more v ]

unfoldable pub is_ascii : Text → Bool
is_ascii [] = true
is_ascii (c ∷ s) = ltb c 128 && is_ascii s

unfoldable pub b64decode : Text → Result Bytes
b64decode s =
    if is_ascii s
    then scan q0 0 s
    else raise (value_error (codes "string argument should contain only ASCII characters"))

-- The character of a value below 64.
unfoldable pub letter : ℕ → ℕ
letter v =
    if ltb v 26
    then v + b'A'
    else if ltb v 52
    then v - 26 + b'a'
    else if ltb v 62
    then v - 52 + b'0'
    else if v == 62
    then b'+'
    else b'/'

unfoldable pub b64encode : Bytes → Text
b64encode [] = []
b64encode (a ∷ []) = letter (a / 4) ∷ letter (a % 4 * 16) ∷ b'=' ∷ b'=' ∷ []
b64encode (a ∷ b ∷ []) =
    letter (a / 4) ∷ letter (a % 4 * 16 + b / 16) ∷ letter (b % 16 * 4) ∷ b'=' ∷ []
b64encode (a ∷ b ∷ c ∷ r) =
    letter (a / 4)
    ∷ letter (a % 4 * 16 + b / 16)
    ∷ letter (b % 16 * 4 + c / 64)
    ∷ letter (c % 64)
    ∷ b64encode r

decode_hello : b64decode (codes "aGVs\nbG8=") ≡ ok (codes "hello")
unfolding b64decode is_ascii scan sextet
decode_hello = refl

encode_hello : b64encode (codes "hello") ≡ codes "aGVsbG8="
unfolding b64encode letter
encode_hello = refl

-- ===== src/Py/Scan.antt =====
-- `json.loads` on the literal of a string: `scanstring` of the `json` module, in strict mode.
pub mod RoundTrip
use mq.Base.{
  ℕ, zero, suc, ◌+◌, ◌-◌, ◌*◌, Text, codes, ltb, leb, ◌==◌, ◌&&◌, Bool, true, false, Option, none,
  some, [], ◌∷◌, ◌++◌, ◌≡◌, refl, if◌then◌else◌,
}
use mq.Py.Exceptions.{Result, ok, raise, value_error}

abbrev pub is_high : ℕ → Bool
is_high u = leb 0xD800 u && leb u 0xDBFF

abbrev pub is_low : ℕ → Bool
is_low u = leb 0xDC00 u && leb u 0xDFFF

-- Where the scanner is: between characters, after a backslash, or in the digits of a unit, with the
-- high surrogate before it, if there is one, and its value and the number of digits to come.
pub data Mode : Type 0 where
  plain : Mode
  escape : Option ℕ → Mode
  digits : Option ℕ → ℕ → ℕ → Mode
  -- after a high surrogate
  paired : ℕ → Mode

-- What a character does: characters come out, and the scanner goes on, is at the end or refuses.
pub data Next : Type 0 where
  goes_on : Text → Mode → Next
  ends : Text → Next
  refuses : Next

unfoldable pub hex_value : ℕ → Option ℕ
hex_value c =
    if leb b'0' c && leb c b'9'
    then some (c - b'0')
    else if leb b'a' c && leb c b'f'
    then some (c - b'a' + 10)
    else if leb b'A' c && leb c b'F'
    then some (c - b'A' + 10)
    else none

-- The character that a letter after a backslash stands for.
unfoldable pub escaped : ℕ → Option ℕ
escaped c =
    if c == 34
    then some 34
    else if c == 92
    then some 92
    else if c == b'/'
    then some b'/'
    else if c == b'b'
    then some 8
    else if c == b'f'
    then some 12
    else if c == b'n'
    then some 10
    else if c == b'r'
    then some 13
    else if c == b't'
    then some 9
    else none

-- The high surrogate that has been held back.
abbrev pub held : Option ℕ → Text
held none = []
held (some h) = h ∷ []

unfoldable pub scan_plain : Text → ℕ → Next
scan_plain out c =
    if c == 34
    then ends out
    else if c == 92
    then goes_on out (escape none)
    else if ltb c 32
    then refuses
    else goes_on (out ++ c ∷ []) plain

abbrev pub scan_letter : Text → Option ℕ → Next
scan_letter out none = refuses
scan_letter out (some c) = goes_on (out ++ c ∷ []) plain

unfoldable pub scan_escape : Option ℕ → ℕ → Next
unfolding escaped
scan_escape h c = if c == b'u' then goes_on [] (digits h 0 3) else scan_letter (held h) (escaped c)

-- A unit is complete. A low one joins the high one before it; a high one waits for the next.
unfoldable pub unit : Option ℕ → ℕ → Next
unit none u = if is_high u then goes_on [] (paired u) else goes_on (u ∷ []) plain
unit (some h) u =
    if is_low u
    then goes_on ((0x10000 + (h - 0xD800) * 1024 + (u - 0xDC00)) ∷ []) plain
    else if is_high u
    then goes_on (h ∷ []) (paired u)
    else goes_on (h ∷ u ∷ []) plain

abbrev pub scan_digit : Option ℕ → ℕ → ℕ → Option ℕ → Next
scan_digit h value left none = refuses
scan_digit h value zero (some d) = unit h (value * 16 + d)
scan_digit h value (suc left) (some d) = goes_on [] (digits h (value * 16 + d) left)

unfoldable pub scan_step : Mode → ℕ → Next
unfolding scan_plain scan_escape hex_value unit
scan_step plain c = scan_plain [] c
scan_step (escape h) c = scan_escape h c
scan_step (digits h value left) c = scan_digit h value left (hex_value c)
scan_step (paired h) c = if c == 92 then goes_on [] (escape (some h)) else scan_plain (h ∷ []) c

abbrev pub prepend : Text → Result (Text × Text) → Result (Text × Text)
prepend out (ok (s, rest)) = ok (out ++ s, rest)
prepend out (raise e) = raise e

abbrev pub unterminated : Result (Text × Text)
unterminated = raise (value_error (codes "Unterminated string"))

-- The characters up to the closing quote, and what follows it.
unfoldable pub scan : Mode → Text → Result (Text × Text)
unfolding scan_step
scan m [] = unterminated
scan m (c ∷ s) = elim (scan_step m c) [
  | goes_on out m' ↦ prepend out (scan m' s)
  | ends out ↦ ok (out, s)
  | refuses ↦ raise (value_error (codes "Invalid string"))
]

scan_example :
    scan plain (codes "a\\u00e9\\ud83d\\ude00\\n\" x")
    ≡ ok (b'a' ∷ 0xE9 ∷ 0x1F600 ∷ 10 ∷ [], codes " x")
unfolding scan
scan_example = refl

-- ===== src/Py/Scan/RoundTrip.antt =====
-- That the literal which `json.dumps` makes of a text is read back as that text.
use mq.Base.{
  ℕ, ◌+◌, ◌-◌, ◌*◌, ◌/◌, ◌%◌, ◌≤◌, ◌<◌, Text, false, Option, none, some, [], ◌∷◌, ◌++◌, All,
  append_assoc, ◌≡◌, ◌≢◌, refl, ap, sym, ◌∙◌, arith,
}
use mq.Py.Exceptions.{Result, ok, raise}
use mq.Py.Utf8.{is_surrogate}
use mq.Py.Dumps.{hex_digit, escape_unit, dump_char, dump_chars}
use mq.Py.Scan.{
  Mode, plain, escape, digits, paired, goes_on, hex_value, scan_step, scan, prepend, unit,
  scan_digit,
}

-- A character that UTF-8 has a code for.
abbrev pub IsScalar : ℕ → Type 0
IsScalar c = (c < 0x110000) × (is_surrogate c ≡ false)

prepend-prepend :
    (a b : Text) (r : Result (Text × Text)) → prepend a (prepend b r) ≡ prepend (a ++ b) r
prepend-prepend a b (ok (s, rest)) = ap (λ (t : Text). ok (t, rest)) (sym (append_assoc a b s))
prepend-prepend a b (raise e) = refl

scan-goes_on :
    (m m' : Mode) (c : ℕ) (out s : Text)
    → scan_step m c ≡ goes_on out m'
    → scan m (c ∷ s) ≡ prepend out (scan m' s)
unfolding scan
scan-goes_on m m' c out s e = rw (e, scan)

hex_value-hex_digit : (d : ℕ) → d < 16 → hex_value (hex_digit d) ≡ some d
unfolding hex_value hex_digit
hex_value-hex_digit d h = ground arith

step-digit :
    (h : Option ℕ) (value left d : ℕ)
    → d < 16
    → scan_step (digits h value left) (hex_digit d) ≡ scan_digit h value left (some d)
unfolding scan_step
step-digit h value left d lt = ap (scan_digit h value left) (hex_value-hex_digit d lt)

-- A character that brings nothing out.
silent :
    (m m' : Mode) (c : ℕ) (out s : Text) (r : Result (Text × Text))
    → scan_step m c ≡ goes_on [] m'
    → scan m' s ≡ prepend out r
    → scan m (c ∷ s) ≡ prepend out r
silent m m' c out s r e q =
    scan-goes_on m m' c [] s e ∙ ap (prepend []) q ∙ prepend-prepend [] out r

-- The four digits of a unit.
scan-digits :
    (h : Option ℕ) (d1 d2 d3 d4 : ℕ) (out : Text) (m : Mode) (s : Text)
    → d1 < 16
    → d2 < 16
    → d3 < 16
    → d4 < 16
    → unit h ((((0 * 16 + d1) * 16 + d2) * 16 + d3) * 16 + d4) ≡ goes_on out m
    → scan (digits h 0 3) (hex_digit d1 ∷ hex_digit d2 ∷ hex_digit d3 ∷ hex_digit d4 ∷ s)
      ≡ prepend out (scan m s)
scan-digits h d1 d2 d3 d4 out m s l1 l2 l3 l4 e =
    silent _ (digits h (0 * 16 + d1) 2) _ out _ _ (step-digit h 0 3 d1 l1) (
      silent _ (digits h ((0 * 16 + d1) * 16 + d2) 1) _ out _ _ (step-digit h _ 2 d2 l2) (
        silent _ (digits h (((0 * 16 + d1) * 16 + d2) * 16 + d3) 0) _ out _ _
          (step-digit h _ 1 d3 l3) (scan-goes_on _ m _ out s (step-digit h _ 0 d4 l4 ∙ e))))

escape-u : (h : Option ℕ) → scan_step (escape h) b'u' ≡ goes_on [] (digits h 0 3)
unfolding scan_step
escape-u h = refl

-- A unit after a backslash.
scan-escape_unit :
    (h : Option ℕ) (u : ℕ) (out : Text) (m before : Mode) (s : Text)
    → u < 0x10000
    → scan_step before 92 ≡ goes_on [] (escape h)
    → unit h u ≡ goes_on out m
    → scan before (escape_unit u ++ s) ≡ prepend out (scan m s)
unfolding escape_unit
scan-escape_unit h u out m before s lt b e = silent before (escape h) 92 out _ _ b (
    silent (escape h) (digits h 0 3) b'u' out _ _ (escape-u h) (
      scan-digits h (u / 4096 % 16) (u / 256 % 16) (u / 16 % 16) (u % 16) out m s (omega arith)
        (omega arith) (omega arith) (omega arith) (ap (unit h) (omega arith) ∙ e)))

plain-backslash : scan_step plain 92 ≡ goes_on [] (escape none)
unfolding scan_step
plain-backslash = refl

simple :
    (c k : ℕ) (s : Text)
    → scan_step (escape none) k ≡ goes_on (c ∷ []) plain
    → scan plain (92 ∷ k ∷ s) ≡ prepend (c ∷ []) (scan plain s)
simple c k s e =
    silent plain (escape none) 92 (c ∷ []) (k ∷ s) (scan plain s) plain-backslash
      (scan-goes_on (escape none) plain k (c ∷ []) s e)

step-bare : (c : ℕ) → 32 ≤ c → c ≢ 34 → c ≢ 92 → scan_step plain c ≡ goes_on (c ∷ []) plain
unfolding scan_step
step-bare c l p q = ground arith

bare :
    (c : ℕ) (s : Text)
    → 32 ≤ c
    → c ≢ 34
    → c ≢ 92
    → scan plain (c ∷ s) ≡ prepend (c ∷ []) (scan plain s)
bare c s l p q = scan-goes_on plain plain c (c ∷ []) s (step-bare c l p q)

unit-scalar : (c : ℕ) → is_surrogate c ≡ false → unit none c ≡ goes_on (c ∷ []) plain
unfolding unit
unit-scalar c h = ground arith

unit-high :
    (c : ℕ)
    → 0x10000 ≤ c
    → c < 0x110000
    → unit none (0xD800 + (c - 0x10000) / 1024)
      ≡ goes_on [] (paired (0xD800 + (c - 0x10000) / 1024))
unfolding unit
unit-high c l h = ground arith

unit-low :
    (c : ℕ)
    → 0x10000 ≤ c
    → c < 0x110000
    → unit (some (0xD800 + (c - 0x10000) / 1024)) (0xDC00 + (c - 0x10000) % 1024)
      ≡ goes_on (c ∷ []) plain
unfolding unit
unit-low c l h = ground arith

paired-backslash : (h : ℕ) → scan_step (paired h) 92 ≡ goes_on [] (escape (some h))
unfolding scan_step
paired-backslash h = refl

basic :
    (c : ℕ) (s : Text)
    → c < 0x10000
    → is_surrogate c ≡ false
    → scan plain (escape_unit c ++ s) ≡ prepend (c ∷ []) (scan plain s)
basic c s l h = scan-escape_unit none c (c ∷ []) plain plain s l plain-backslash (unit-scalar c h)

astral :
    (c : ℕ) (s : Text)
    → 0x10000 ≤ c
    → c < 0x110000
    → scan plain (
        (escape_unit (0xD800 + (c - 0x10000) / 1024) ++ escape_unit (0xDC00 + (c - 0x10000) % 1024))
        ++ s)
      ≡ prepend (c ∷ []) (scan plain s)
astral c s l h =
    let high : ℕ = 0xD800 + (c - 0x10000) / 1024 in
    let low : ℕ = 0xDC00 + (c - 0x10000) % 1024 in
    ap (scan plain) (append_assoc (escape_unit high) (escape_unit low) s)
    ∙ scan-escape_unit none high [] (paired high) plain (escape_unit low ++ s) (omega arith)
        plain-backslash (unit-high c l h)
    ∙ ap (prepend []) (
        scan-escape_unit (some high) low (c ∷ []) plain (paired high) s (omega arith)
          (paired-backslash high) (unit-low c l h))
    ∙ prepend-prepend [] (c ∷ []) (scan plain s)

-- The characters that have a letter of their own.
letters :
    (s : Text)
    → (scan plain (92 ∷ 34 ∷ s) ≡ prepend (34 ∷ []) (scan plain s))
      × (scan plain (92 ∷ 92 ∷ s) ≡ prepend (92 ∷ []) (scan plain s))
      × (scan plain (92 ∷ b'n' ∷ s) ≡ prepend (10 ∷ []) (scan plain s))
      × (scan plain (92 ∷ b'r' ∷ s) ≡ prepend (13 ∷ []) (scan plain s))
      × (scan plain (92 ∷ b't' ∷ s) ≡ prepend (9 ∷ []) (scan plain s))
      × (scan plain (92 ∷ b'f' ∷ s) ≡ prepend (12 ∷ []) (scan plain s))
      × (scan plain (92 ∷ b'b' ∷ s) ≡ prepend (8 ∷ []) (scan plain s))
unfolding scan_step
letters s = (
  simple 34 34 s refl,
  simple 92 92 s refl,
  simple 10 b'n' s refl,
  simple 13 b'r' s refl,
  simple 9 b't' s refl,
  simple 12 b'f' s refl,
  simple 8 b'b' s refl,
)

scan-dump_char :
    (c : ℕ) (s : Text)
    → IsScalar c
    → scan plain (dump_char c ++ s) ≡ prepend (c ∷ []) (scan plain s)
unfolding dump_char
scan-dump_char c s h =
    let (quote, backslash, line, ret, tab, feed, back) = letters s in
    ground (
      arith,
      quote,
      backslash,
      line,
      ret,
      tab,
      feed,
      back,
      bare c s,
      basic c s,
      astral c s,
      h.0,
      h.1,
    )

closing : (rest : Text) → scan plain (34 ∷ rest) ≡ ok ([], rest)
unfolding scan
closing rest = refl

-- The text comes back, with whatever follows the closing quote.
pub scan-dump_chars :
    (t rest : Text) → All IsScalar t → scan plain (dump_chars t ++ 34 ∷ rest) ≡ ok (t, rest)
unfolding dump_chars
scan-dump_chars [] rest h = closing rest
scan-dump_chars (c ∷ t) rest h =
    ap (scan plain) (append_assoc (dump_char c) (dump_chars t) (34 ∷ rest))
    ∙ scan-dump_char c (dump_chars t ++ 34 ∷ rest) h.0
    ∙ ap (prepend (c ∷ [])) (scan-dump_chars t rest h.1)

text_of : Result (Text × Text) → Text
text_of (ok (t, rest)) = t
text_of (raise e) = []

pub dump_chars-injective :
    (s t : Text) → All IsScalar s → All IsScalar t → dump_chars s ≡ dump_chars t → s ≡ t
unfolding text_of
dump_chars-injective s t hs ht e =
    sym (ap text_of (scan-dump_chars s [] hs))
    ∙ ap (λ (d : Text). text_of (scan plain (d ++ 34 ∷ []))) e
    ∙ ap text_of (scan-dump_chars t [] ht)

-- ===== src/Py/Base64/RoundTrip.antt =====
-- What the broker's encoder writes, `b64decode` reads back.
use mq.Base.{
  ℕ, ◌+◌, ◌*◌, ◌/◌, ◌%◌, ◌<◌, Text, Bytes, ltb, ◌==◌, true, false, some, [], ◌∷◌, ◌++◌, All, ◌≡◌,
  refl, ◌∙◌, arith,
}
use mq.Py.Exceptions.{ok, ◌>>=◌}
use mq.Py.Base64.{sextet, Quad, q0, q1, q2, q3, feed, scan, is_ascii, b64decode, letter, b64encode}

abbrev pub IsByte : ℕ → Type 0
IsByte b = b < 256

sextet-letter : (v : ℕ) → v < 64 → sextet (letter v) ≡ some v
unfolding sextet letter
sextet-letter v h = ground arith

letter-ne-pad : (v : ℕ) → v < 64 → (letter v == b'=') ≡ false
unfolding letter
letter-ne-pad v h = ground arith

letter-ascii : (v : ℕ) → v < 64 → ltb (letter v) 128 ≡ true
unfolding letter
letter-ascii v h = ground arith

scan-letter :
    (q : Quad) (pads v : ℕ) (s : Text)
    → v < 64
    → scan q pads (letter v ∷ s) ≡ (do rest ← scan (feed q v).1 0 s; ok ((feed q v).0 ++ rest))
unfolding scan
scan-letter q pads v s h = rw (letter-ne-pad v h, sextet-letter v h)

is_ascii-letter : (v : ℕ) (s : Text) → v < 64 → is_ascii (letter v ∷ s) ≡ is_ascii s
unfolding is_ascii
is_ascii-letter v s h = rw (letter-ascii v h)

is_ascii-b64encode : (bs : Bytes) → All IsByte bs → is_ascii (b64encode bs) ≡ true
unfolding b64encode
is_ascii-b64encode [] h = unfold is_ascii in refl
is_ascii-b64encode (a ∷ []) h =
    unfold is_ascii in
    rw (letter-ascii (a / 4) (omega arith), letter-ascii (a % 4 * 16) (omega arith))
is_ascii-b64encode (a ∷ b ∷ []) h =
    is_ascii-letter _ _ (omega arith)
    ∙ is_ascii-letter _ _ (omega arith)
    ∙ is_ascii-letter _ _ (omega arith)
    ∙ unfold is_ascii in refl
is_ascii-b64encode (a ∷ b ∷ c ∷ r) h =
    is_ascii-letter _ _ (omega arith)
    ∙ is_ascii-letter _ _ (omega arith)
    ∙ is_ascii-letter _ _ (omega arith)
    ∙ is_ascii-letter _ _ (omega arith)
    ∙ is_ascii-b64encode r h.1.1.1

scan-b64encode : (bs : Bytes) → All IsByte bs → scan q0 0 (b64encode bs) ≡ ok bs
unfolding b64encode
scan-b64encode [] h = unfold scan in refl
scan-b64encode (a ∷ []) h =
    rw
      (
        scan-letter q0 0 (a / 4) _ (omega arith),
        scan-letter (q1 (a / 4)) 0 (a % 4 * 16) _ (omega arith),
      )
      (unfold scan in ground arith)
scan-b64encode (a ∷ b ∷ []) h =
    rw
      (
        scan-letter q0 0 (a / 4) _ (omega arith),
        scan-letter (q1 (a / 4)) 0 (a % 4 * 16 + b / 16) _ (omega arith),
        scan-letter (q2 ((a % 4 * 16 + b / 16) % 16)) 0 (b % 16 * 4) _ (omega arith),
      )
      (unfold scan in ground arith)
scan-b64encode (a ∷ b ∷ c ∷ r) h =
    rw
      (
        scan-letter q0 0 (a / 4) _ (omega arith),
        scan-letter (q1 (a / 4)) 0 (a % 4 * 16 + b / 16) _ (omega arith),
        scan-letter (q2 ((a % 4 * 16 + b / 16) % 16)) 0 (b % 16 * 4 + c / 64) _ (omega arith),
        scan-letter (q3 ((b % 16 * 4 + c / 64) % 4)) 0 (c % 64) _ (omega arith),
        scan-b64encode r h.1.1.1,
      )
      (ground arith)

-- Every byte string is read back from its Base64 text.
pub b64decode-b64encode : (bs : Bytes) → All IsByte bs → b64decode (b64encode bs) ≡ ok bs
unfolding b64decode
b64decode-b64encode bs h = rw (is_ascii-b64encode bs h) (scan-b64encode bs h)

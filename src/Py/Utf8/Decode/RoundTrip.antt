-- ===== src/Py/Utf8/Decode/RoundTrip.antt =====
-- That decoding gives back the text that was encoded.
use mq.Base.{
  text_eq_refl, ℕ, ◌+◌, ◌-◌, ◌*◌, ◌/◌, ◌%◌, ◌≤◌, ◌<◌, Text, Bytes, ltb, ◌==◌, false, Option, none,
  some, [], ◌∷◌, ◌++◌, All, ◌≡◌, refl, ap, ◌∙◌, arith, if◌then◌else◌, codes, subst, Bool-cases, inl,
  inr,
}
use mq.Py.Exceptions.{Result, ok, raise, value_error, ◌>>=◌}
use mq.Py.Utf8.{is_surrogate, encode_char, utf8_encode}
use mq.Py.Utf8.Decode.{
  Begun, begun, head_byte, more, step, decode_from, decode_replace, utf8_decode,
}

-- The range of the second byte of a code of three bytes, and of one of four.
low3 : ℕ → ℕ
low3 c = if ltb c 0x1000 then 0xA0 else 0x80

high3 : ℕ → ℕ
high3 c = if (c / 4096) == 13 then 0x9F else 0xBF

low4 : ℕ → ℕ
low4 c = if ltb c 0x40000 then 0x90 else 0x80

high4 : ℕ → ℕ
high4 c = if ltb c 0x100000 then 0xBF else 0x8F

head1 : (c : ℕ) → c < 0x80 → head_byte c ≡ (c ∷ [], none)
unfolding head_byte
head1 c h = ground arith

head2 :
    (c : ℕ) → 0x80 ≤ c → c < 0x800 → head_byte (0xC0 + c / 64) ≡ ([], begun (c / 64) 1 0x80 0xBF)
unfolding head_byte
head2 c l h = ground arith

head3 :
    (c : ℕ)
    → 0x800 ≤ c
    → c < 0x10000
    → head_byte (0xE0 + c / 4096) ≡ ([], begun (c / 4096) 2 (low3 c) (high3 c))
unfolding head_byte low3 high3
head3 c l h = ground arith

head4 :
    (c : ℕ)
    → 0x10000 ≤ c
    → c < 0x110000
    → head_byte (0xF0 + c / 262144) ≡ ([], begun (c / 262144) 3 (low4 c) (high4 c))
unfolding head_byte low4 high4
head4 c l h = ground arith

decode-cons :
    (k : Option Begun) (b : ℕ) (bs : Bytes) (out : Text) (k' : Option Begun)
    → step k b ≡ (out, k')
    → decode_from k (b ∷ bs) ≡ out ++ decode_from k' bs
unfolding decode_from
decode-cons none b bs out k' e = rw e
decode-cons (some j) b bs out k' e = rw e

step-head : (b : ℕ) (r : Text × Option Begun) → head_byte b ≡ r → step none b ≡ r
unfolding step
step-head b r e = e

step-next :
    (bits left low high b : ℕ)
    → low ≤ b
    → b ≤ high
    → step (begun bits left low high) b ≡ more (bits * 64 + (b - 0x80)) (left - 1)
unfolding step
step-next bits left low high b l h = ground arith

tail1 :
    (bits low high b c : ℕ) (rest : Bytes)
    → low ≤ b
    → b ≤ high
    → bits * 64 + (b - 0x80) ≡ c
    → decode_from (begun bits 1 low high) (b ∷ rest) ≡ c ∷ decode_from none rest
tail1 bits low high b c rest l h e =
    decode-cons (begun bits 1 low high) b rest (c ∷ []) none
      (step-next bits 1 low high b l h ∙ ap (λ (n : ℕ). more n 0) e)

tail2 :
    (bits low high b b' c : ℕ) (rest : Bytes)
    → low ≤ b
    → b ≤ high
    → 0x80 ≤ b'
    → b' ≤ 0xBF
    → (bits * 64 + (b - 0x80)) * 64 + (b' - 0x80) ≡ c
    → decode_from (begun bits 2 low high) (b ∷ b' ∷ rest) ≡ c ∷ decode_from none rest
tail2 bits low high b b' c rest l h l' h' e =
    decode-cons (begun bits 2 low high) b (b' ∷ rest) []
      (begun (bits * 64 + (b - 0x80)) 1 0x80 0xBF) (step-next bits 2 low high b l h)
    ∙ tail1 (bits * 64 + (b - 0x80)) 0x80 0xBF b' c rest l' h' e

tail3 :
    (bits low high b b' b'' c : ℕ) (rest : Bytes)
    → low ≤ b
    → b ≤ high
    → 0x80 ≤ b'
    → b' ≤ 0xBF
    → 0x80 ≤ b''
    → b'' ≤ 0xBF
    → ((bits * 64 + (b - 0x80)) * 64 + (b' - 0x80)) * 64 + (b'' - 0x80) ≡ c
    → decode_from (begun bits 3 low high) (b ∷ b' ∷ b'' ∷ rest) ≡ c ∷ decode_from none rest
tail3 bits low high b b' b'' c rest l h l' h' l'' h'' e =
    decode-cons (begun bits 3 low high) b (b' ∷ b'' ∷ rest) []
      (begun (bits * 64 + (b - 0x80)) 2 0x80 0xBF) (step-next bits 3 low high b l h)
    ∙ tail2 (bits * 64 + (b - 0x80)) 0x80 0xBF b' b'' c rest l' h' l'' h'' e

decode-char1 :
    (c : ℕ) (rest : Bytes) → c < 0x80 → decode_from none (c ∷ rest) ≡ c ∷ decode_from none rest
decode-char1 c rest h = decode-cons none c rest (c ∷ []) none (step-head c _ (head1 c h))

decode-char2 :
    (c : ℕ) (rest : Bytes)
    → 0x80 ≤ c
    → c < 0x800
    → decode_from none ((0xC0 + c / 64) ∷ (0x80 + c % 64) ∷ rest) ≡ c ∷ decode_from none rest
decode-char2 c rest l h =
    decode-cons none (0xC0 + c / 64) ((0x80 + c % 64) ∷ rest) [] (begun (c / 64) 1 0x80 0xBF)
      (step-head (0xC0 + c / 64) _ (head2 c l h))
    ∙ tail1 (c / 64) 0x80 0xBF (0x80 + c % 64) c rest (omega arith) (omega arith) (omega arith)

second3 :
    (c : ℕ)
    → 0x800 ≤ c
    → c < 0x10000
    → is_surrogate c ≡ false
    → (low3 c ≤ 0x80 + c / 64 % 64) × (0x80 + c / 64 % 64 ≤ high3 c)
unfolding low3 high3
second3 c l h s = ground arith

second4 :
    (c : ℕ)
    → 0x10000 ≤ c
    → c < 0x110000
    → (low4 c ≤ 0x80 + c / 4096 % 64) × (0x80 + c / 4096 % 64 ≤ high4 c)
unfolding low4 high4
second4 c l h = ground arith

decode-char3 :
    (c : ℕ) (rest : Bytes)
    → 0x800 ≤ c
    → c < 0x10000
    → is_surrogate c ≡ false
    → decode_from none ((0xE0 + c / 4096) ∷ (0x80 + c / 64 % 64) ∷ (0x80 + c % 64) ∷ rest)
      ≡ c ∷ decode_from none rest
decode-char3 c rest l h s =
    decode-cons none (0xE0 + c / 4096) _ [] (begun (c / 4096) 2 (low3 c) (high3 c))
      (step-head (0xE0 + c / 4096) _ (head3 c l h))
    ∙ tail2 (c / 4096) (low3 c) (high3 c) (0x80 + c / 64 % 64) (0x80 + c % 64) c rest
        (second3 c l h s).0 (second3 c l h s).1 (omega arith) (omega arith) (omega arith)

decode-char4 :
    (c : ℕ) (rest : Bytes)
    → 0x10000 ≤ c
    → c < 0x110000
    → decode_from none (
        (0xF0 + c / 262144)
        ∷ (0x80 + c / 4096 % 64)
        ∷ (0x80 + c / 64 % 64)
        ∷ (0x80 + c % 64)
        ∷ rest)
      ≡ c ∷ decode_from none rest
decode-char4 c rest l h =
    decode-cons none (0xF0 + c / 262144) _ [] (begun (c / 262144) 3 (low4 c) (high4 c))
      (step-head (0xF0 + c / 262144) _ (head4 c l h))
    ∙ tail3 (c / 262144) (low4 c) (high4 c) (0x80 + c / 4096 % 64) (0x80 + c / 64 % 64)
        (0x80 + c % 64) c rest (second4 c l h).0 (second4 c l h).1 (omega arith) (omega arith)
        (omega arith) (omega arith) (omega arith)

decode-encode_char :
    (c : ℕ) (rest : Bytes)
    → c < 0x110000
    → is_surrogate c ≡ false
    → decode_from none (encode_char c ++ rest) ≡ c ∷ decode_from none rest
unfolding encode_char
decode-encode_char c rest h s =
    ground
      (arith, decode-char1 c rest, decode-char2 c rest, decode-char3 c rest, decode-char4 c rest)

-- The code points of Unicode.
abbrev pub IsCodePoint : ℕ → Type 0
IsCodePoint c = c < 0x110000

-- The bytes, if there are any, are those of the text.
abbrev Decodes : Text → Result Bytes → Type 0
Decodes t (ok b) = decode_from none b ≡ t
Decodes t (raise e) = Unit

utf8_encode-Decodes : (t : Text) → All IsCodePoint t → Decodes t (utf8_encode t)
unfolding utf8_encode decode_from
utf8_encode-Decodes [] h = refl
utf8_encode-Decodes (c ∷ t) h = by_rest (utf8_encode t) (utf8_encode-Decodes t h.1)
  where
    by_rest :
        (r : Result Bytes)
        → Decodes t r
        → Decodes (c ∷ t) (
            r >>= λ rest.
            if is_surrogate c
            then raise (value_error (codes "surrogates not allowed"))
            else ok (encode_char c ++ rest))
    by_rest (ok rest) d = elim (Bool-cases (is_surrogate c)) [
      | inl s ↦ rw s tt
      | inr s ↦ rw s (decode-encode_char c rest h.0 s ∙ ap (λ (u : Text). c ∷ u) d)
    ]
    by_rest (raise e) d = tt

-- What `encode` gives for a text of code points, `decode` takes back to that text.
pub decode_replace-utf8_encode :
    (t : Text) (b : Bytes) → All IsCodePoint t → utf8_encode t ≡ ok b → decode_replace b ≡ t
unfolding decode_replace
decode_replace-utf8_encode t b h e = subst (Decodes t) e (utf8_encode-Decodes t h)

pub utf8_decode-utf8_encode :
    (t : Text) (b : Bytes) → All IsCodePoint t → utf8_encode t ≡ ok b → utf8_decode b ≡ ok t
unfolding utf8_decode
utf8_decode-utf8_encode t b h e = rw (decode_replace-utf8_encode t b h e, e, text_eq_refl b) refl

-- ===== src/Py/Loads/RoundTrip/Numbers.antt =====
-- That the machine of `json.loads` reads the digits of an integer.
use mq.Base.{
  ℕ, zero, suc, ◌+◌, ◌/◌, ◌%◌, ◌≤◌, ◌==◌, Text, ℤ, pos, negsuc, Bool, true, false, List, [], ◌∷◌,
  ◌++◌, All, append_assoc, append-nil, ◌≡◌, ◌≢◌, refl, ap, sym, ◌∙◌, arith,
}
use mq.Base.Decimal.{digits, decimal, str_int}
use mq.Base.Decimal.Parse.{
  not_zero, value_from, value_from-decimal, IsDigit, decimal-IsDigit, decimal-full,
}
use mq.Py.Json.{Json, int, nil}
use mq.Py.Loads.{
  Frame, in_array, in_object, value, item_or_close, signed, number, State, at, complete, begin,
  after_value, step, after, is_digit, is_blank, is_float_mark, to_int, after_int, Mode,
}

-- A text that cannot go on with a number: one that is not empty, and begins with another character.
abbrev pub Stops : Text → Type 0
Stops [] = ⊥
Stops (c ∷ s) = (is_digit c ≡ false) × (is_float_mark c ≡ false)

-- A digit other than zero, and digits.
abbrev Leading : Text → Type 0
Leading [] = ⊥
Leading (c ∷ s) = (49 ≤ c) × (c ≤ 57) × All IsDigit s

digits_zero : (f : ℕ) (out : Text) → digits f 0 out ≡ out
unfolding digits
digits_zero zero out = refl
digits_zero (suc f) out = refl

digits-Leading :
    (f n : ℕ) (out : Text) → suc n ≤ f → All IsDigit out → Leading (digits f (suc n) out)
unfolding digits
digits-Leading zero n out h d = absurd (omega arith)
digits-Leading (suc f) n out h d =
    by_rest (suc n / 10) refl λ q. digits-Leading f q ((b'0' + suc n % 10) ∷ out)
  where
    by_rest :
        (q : ℕ)
        → suc n / 10 ≡ q
        → ((q : ℕ)
            → suc q ≤ f
            → All IsDigit ((b'0' + suc n % 10) ∷ out)
            → Leading (digits f (suc q) ((b'0' + suc n % 10) ∷ out)))
        → Leading (digits (suc f) (suc n) out)
    by_rest zero e ih = rw (not_zero n, e, digits_zero f) (omega arith, omega arith, d)
    by_rest (suc q) e ih = rw (not_zero n, e) (ih q (omega arith) (omega arith, d))

decimal-Leading : (n : ℕ) → Leading (decimal (suc n))
unfolding decimal
decimal-Leading n = rw (not_zero n) (digits-Leading (suc n) n [] (omega arith) tt)

-- A digit is no other character that the machine looks for.
digit_is : (c : ℕ) → IsDigit c → is_digit c ≡ true
digit_is c h = ground (arith, h.0, h.1)

no_blank : (c : ℕ) → 45 ≤ c → c ≤ 57 → is_blank c ≡ false
no_blank c h k = ground arith

no_close : (c : ℕ) → c ≤ 57 → (c == b']') ≡ false
no_close c h = ground arith

begin-digit : (c : ℕ) (k : List Frame) → 49 ≤ c → c ≤ 57 → begin c k ≡ at (number false (c ∷ [])) k
unfolding begin
begin-digit c k h j = ground (arith, h, j)

pub step-complete :
    (v : Json) (k : List Frame) (c : ℕ) → step (complete v k) c ≡ after_value (complete v k) c
unfolding step
step-complete v [] c = refl
step-complete v (in_array vs ∷ k) c = refl
step-complete v (in_object d name ∷ k) c = refl

-- A character that stops an integer comes after the value.
after_int-Stops :
    (i : ℤ) (k : List Frame) (c : ℕ)
    → is_float_mark c ≡ false
    → after_int i k c ≡ step (complete (int i) k) c
after_int-Stops i k c h = rw h (sym (step-complete (int i) k c))

step-more :
    (neg : Bool) (ds : Text) (k : List Frame) (c : ℕ)
    → IsDigit c
    → step (at (number neg ds) k) c ≡ at (number neg (ds ++ c ∷ [])) k
unfolding step
step-more neg ds k c h = rw (digit_is c h)

step-Stops :
    (neg : Bool) (ds : Text) (k : List Frame) (c : ℕ)
    → is_digit c ≡ false
    → is_float_mark c ≡ false
    → step (at (number neg ds) k) c ≡ step (complete (int (to_int neg (value_from 0 ds))) k) c
unfolding step
step-Stops neg ds k c h j = rw h (after_int-Stops (to_int neg (value_from 0 ds)) k c j)

after-number :
    (neg : Bool) (ds s rest : Text) (k : List Frame)
    → All IsDigit s
    → Stops rest
    → after (at (number neg ds) k) (s ++ rest)
      ≡ after (complete (int (to_int neg (value_from 0 (ds ++ s)))) k) rest
after-number neg ds [] [] k h w = absurd w
after-number neg ds [] (c ∷ rest) k h w =
    ap (λ (u : State). after u rest) (step-Stops neg ds k c w.0 w.1)
    ∙ ap (λ (d : Text). after (complete (int (to_int neg (value_from 0 d))) k) (c ∷ rest))
        (sym (append-nil ds))
after-number neg ds (c ∷ s) rest k h w =
    ap (λ (u : State). after u (s ++ rest)) (step-more neg ds k c h.0)
    ∙ after-number neg (ds ++ c ∷ []) s rest k h.1 w
    ∙ ap (λ (d : Text). after (complete (int (to_int neg (value_from 0 d))) k) rest)
        (append_assoc ds (c ∷ []) s)

-- A positive number, after its sign if it has one.
after-Leading :
    (neg : Bool) (m : Mode) (s rest : Text) (k : List Frame)
    → Leading s
    → ((c : ℕ) → 49 ≤ c → c ≤ 57 → step (at m k) c ≡ at (number neg (c ∷ [])) k)
    → Stops rest
    → after (at m k) (s ++ rest) ≡ after (complete (int (to_int neg (value_from 0 s))) k) rest
after-Leading neg m [] rest k h f w = absurd h
after-Leading neg m (c ∷ s) rest k h f w =
    ap (λ (u : State). after u (s ++ rest)) (f c h.0 h.1) ∙ after-number neg (c ∷ []) s rest k h.2 w

step-value :
    (k : List Frame) (c : ℕ) → 49 ≤ c → c ≤ 57 → step (at value k) c ≡ at (number false (c ∷ [])) k
unfolding step
step-value k c h j = rw (no_blank c (omega (arith, h)) j) (begin-digit c k h j)

step-signed :
    (k : List Frame) (c : ℕ) → 49 ≤ c → c ≤ 57 → step (at signed k) c ≡ at (number true (c ∷ [])) k
unfolding step
step-signed k c h j = ground (arith, h, j)

-- The machine reads an integer, when something comes after it.
pub after-int :
    (i : ℤ) (rest : Text) (k : List Frame)
    → Stops rest
    → after (at value k) (str_int i ++ rest) ≡ after (complete (int i) k) rest
unfolding str_int decimal step begin
after-int (pos zero) [] k w = absurd w
after-int (pos zero) (c ∷ rest) k w =
    rw w.0 (ap (λ (u : State). after u rest) (after_int-Stops (pos 0) k c w.1))
after-int (pos (suc n)) rest k w =
    after-Leading false value (decimal (suc n)) rest k (decimal-Leading n) (step-value k) w
    ∙ ap (λ (m : ℕ). after (complete (int (pos m)) k) rest) (value_from-decimal (suc n))
after-int (negsuc n) rest k w =
    after-Leading true signed (decimal (suc n)) rest k (decimal-Leading n) (step-signed k) w
    ∙ ap (λ (m : ℕ). after (complete (int (to_int true m)) k) rest) (value_from-decimal (suc n))

step-item :
    (k : List Frame) (c : ℕ)
    → IsDigit c
    → step (at item_or_close k) c ≡ step (at value (in_array nil ∷ k)) c
unfolding step
step-item k c h = rw (no_blank c (omega (arith, h.0)) h.1, no_close c h.1)

item-digits :
    (s rest : Text) (k : List Frame)
    → All IsDigit s
    → s ≢ []
    → after (at item_or_close k) (s ++ rest) ≡ after (at value (in_array nil ∷ k)) (s ++ rest)
item-digits [] rest k h full = absurd (full refl)
item-digits (c ∷ s) rest k h full = ap (λ (u : State). after u (s ++ rest)) (step-item k c h.0)

-- The first character of an integer closes no array.
pub item-int :
    (i : ℤ) (rest : Text) (k : List Frame)
    → after (at item_or_close k) (str_int i ++ rest)
      ≡ after (at value (in_array nil ∷ k)) (str_int i ++ rest)
unfolding str_int step
item-int (pos n) rest k = item-digits (decimal n) rest k (decimal-IsDigit n) (decimal-full n)
item-int (negsuc n) rest k = refl

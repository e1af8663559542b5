-- ===== src/Base/Decimal/Parse.antt =====
-- Reading a decimal number back, and which characters the text of one has.
use Prim.Native.Nat.{ℕ, zero, suc, ◌+◌, ◌-◌, ◌*◌, ◌/◌, ◌%◌, ◌≤◌}
use mathlib.Core.List.{[], ◌∷◌}
use mathlib.Core.Path.{◌≡◌, refl, ap, ◌∙◌}
use mathlib.Core.Logic.{◌≢◌}
use mathlib.Core.Bool.{false}
use native.Mathlib.Omega.{arith}
use mq.Base.Tests.{◌==◌, if◌then◌else◌}
use mq.Base.Lists.{All}
use mq.Base.Strings.{Text}
use mq.Base.Int.{ℤ, pos, negsuc}
use mq.Base.Decimal.{digits, decimal, str_int}

-- The number that the digits of a text continue.
unfoldable pub value_from : ℕ → Text → ℕ
value_from n [] = n
value_from n (c ∷ s) = value_from (n * 10 + (c - b'0')) s

unfoldable pub parse_int : Text → ℤ
unfolding value_from
parse_int [] = pos 0
parse_int (c ∷ s) = if c == b'-' then negsuc (value_from 0 s - 1) else pos (value_from 0 (c ∷ s))

pub not_zero : (n : ℕ) → (suc n == 0) ≡ false
not_zero n = ground arith

value_from-digits :
    (f n : ℕ) (out : Text) → n ≤ f → value_from 0 (digits f n out) ≡ value_from n out
unfolding digits value_from
value_from-digits zero zero out h = refl
value_from-digits zero (suc n) out h = absurd (omega arith)
value_from-digits (suc f) zero out h = refl
value_from-digits (suc f) (suc n) out h = rw (not_zero n) (
    value_from-digits f (suc n / 10) ((b'0' + suc n % 10) ∷ out) (omega arith)
    ∙ ap (λ (m : ℕ). value_from m out) (omega arith))

pub value_from-decimal : (n : ℕ) → value_from 0 (decimal n) ≡ n
unfolding decimal value_from
value_from-decimal zero = refl
value_from-decimal (suc n) = rw (not_zero n) (value_from-digits (suc n) (suc n) [] (omega arith))

abbrev pub IsDigit : ℕ → Type 0
IsDigit c = (48 ≤ c) × (c ≤ 57)

digits-IsDigit : (f n : ℕ) (out : Text) → All IsDigit out → All IsDigit (digits f n out)
unfolding digits
digits-IsDigit zero n out h = h
digits-IsDigit (suc f) n out h =
    ground (arith, digits-IsDigit f (n / 10) ((b'0' + n % 10) ∷ out) (omega arith, h))

pub decimal-IsDigit : (n : ℕ) → All IsDigit (decimal n)
unfolding decimal
decimal-IsDigit n = ground (arith, digits-IsDigit n n [] tt)

digits-full : (f n : ℕ) (out : Text) → out ≢ [] → digits f n out ≢ []
unfolding digits
digits-full zero n out h = h
digits-full (suc f) n out h =
    ground (arith, h, digits-full f (n / 10) ((b'0' + n % 10) ∷ out) (λ e. cc e))

-- A number has a digit.
pub decimal-full : (n : ℕ) → decimal n ≢ []
unfolding decimal digits
decimal-full zero = λ e. cc e
decimal-full (suc n) =
    rw (not_zero n) (digits-full n (suc n / 10) ((b'0' + suc n % 10) ∷ []) (λ e. cc e))

parse_digits : (s : Text) (n : ℕ) → All IsDigit s → value_from 0 s ≡ n → parse_int s ≡ pos n
unfolding parse_int
parse_digits [] n h e = ap pos e
parse_digits (c ∷ s) n h e = ground (arith, h.0, e)

-- Every integer is read back from its text.
pub parse_int-str_int : (i : ℤ) → parse_int (str_int i) ≡ i
unfolding parse_int str_int
parse_int-str_int (pos n) = parse_digits (decimal n) n (decimal-IsDigit n) (value_from-decimal n)
parse_int-str_int (negsuc n) = rw (value_from-decimal (suc n)) (ap negsuc (omega arith))

pub str_int-injective : (i j : ℤ) → str_int i ≡ str_int j → i ≡ j
str_int-injective i j e = cc (parse_int-str_int i, parse_int-str_int j, ap parse_int e)

All-weaken : (s : Text) (k : ℕ) → ((c : ℕ) → IsDigit c → c ≢ k) → All IsDigit s → All (λ c. c ≢ k) s
All-weaken [] k f h = tt
All-weaken (c ∷ s) k f h = (f c h.0, All-weaken s k f h.1)

-- The text of an integer has no dot in it.
pub str_int-no_dot : (i : ℤ) → All (λ c. c ≢ b'.') (str_int i)
unfolding str_int
str_int-no_dot (pos n) = All-weaken (decimal n) b'.' (λ c h. omega arith) (decimal-IsDigit n)
str_int-no_dot (negsuc n) =
    (omega arith, All-weaken (decimal (suc n)) b'.' (λ c h. omega arith) (decimal-IsDigit (suc n)))

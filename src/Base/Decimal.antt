-- ===== src/Base/Decimal.antt =====
-- `str` of an `int`: the decimal digits, with a sign in front of a negative number.
pub mod Parse
use Prim.Native.Nat.{ℕ, zero, suc, ◌+◌, ◌/◌, ◌%◌}
use mathlib.Core.List.{[], ◌∷◌}
use mathlib.Core.Path.{◌≡◌, refl}
use mq.Base.Tests.{◌==◌, if◌then◌else◌}
use mq.Base.Strings.{Text, codes}
use mq.Base.Int.{ℤ, pos, negsuc}

-- The digits of `n` in front of `out`. A number has at most as many digits as its value, which is
-- the fuel that `decimal` gives.
unfoldable pub digits : ℕ → ℕ → Text → Text
digits zero n out = out
digits (suc f) n out =
    let rest = digits f (n / 10) ((b'0' + n % 10) ∷ out) in if n == 0 then out else rest

unfoldable pub decimal : ℕ → Text
decimal n = if n == 0 then b'0' ∷ [] else digits n n []

unfoldable pub str_int : ℤ → Text
str_int (pos n) = decimal n
str_int (negsuc n) = b'-' ∷ decimal (suc n)

str_int_examples : (str_int (pos 1203) ≡ codes "1203") × (str_int (negsuc 0) ≡ codes "-1")
unfolding str_int decimal digits
str_int_examples = (refl, refl)

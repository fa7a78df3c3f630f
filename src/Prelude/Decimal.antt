-- ===== src/Prelude/Decimal.antt =====
-- The verb %d of package fmt at a number that is not negative.
use Prim.Native.Nat.{ℕ, zero, suc, ◌+◌, ◌/◌, ◌%◌, ◌<◌, ◌*◌, ◌-◌}
use mathlib.Core.Path.{◌≡◌, sym, ◌∙◌, ap}
use mathlib.Core.List.{[], ◌∷◌}
use native.Mathlib.Omega.{arith}
use eliot.Prelude.Tests.{Bytes, ltb, if◌then◌else◌}

-- The digits before out, with fuel for each of them.
unfoldable pub digits : ℕ → ℕ → Bytes → Bytes
digits zero n out = out
digits (suc fuel) n out =
    let rest = digits fuel (n / 10) ((b'0' + n % 10) ∷ out) in
    if ltb n 10 then (b'0' + n) ∷ out else rest

unfoldable pub decimal : ℕ → Bytes
unfolding digits
decimal n = digits (suc n) n []

-- Reading decimal digits behind the number n.
abbrev pub read_decimal : ℕ → Bytes → ℕ
read_decimal n [] = n
read_decimal n (c ∷ s) = read_decimal (n * 10 + (c - b'0')) s

read_decimal-digits :
    (fuel n : ℕ) (out : Bytes) → n < fuel → read_decimal 0 (digits fuel n out) ≡ read_decimal n out
unfolding digits
read_decimal-digits zero n out h = elim h [ ]
read_decimal-digits (suc fuel) n out h =
    ground (arith, read_decimal-digits fuel (n / 10) ((b'0' + n % 10) ∷ out))

-- The fuel that `decimal` gives is enough: the digits spell the number.
read_decimal-decimal : (n : ℕ) → read_decimal 0 (decimal n) ≡ n
unfolding decimal
read_decimal-decimal n = read_decimal-digits (suc n) n [] (omega arith)

-- Different numbers are printed differently.
decimal-injective : (m n : ℕ) → decimal m ≡ decimal n → m ≡ n
decimal-injective m n e =
    sym (read_decimal-decimal m) ∙ ap (read_decimal 0) e ∙ read_decimal-decimal n

-- ===== src/Base/Decimal.antt =====
-- The decimal output of an unsigned integer to a stream, and text by concatenation.
use Prim.Native.String.{String, ◌++◌}
use arl_hierarchical_multisc.Base.Tests.{◌==◌, if◌then◌else◌}
use Prim.Native.Nat.{ℕ, zero, suc, ◌/◌, ◌%◌}

infixr 65 ◌<<◌
abbrev pub ◌<<◌ : String → String → String
a << b = a ++ b

abbrev digit : ℕ → String
digit zero = "0"
digit (suc zero) = "1"
digit (suc (suc zero)) = "2"
digit (suc (suc (suc zero))) = "3"
digit (suc (suc (suc (suc zero)))) = "4"
digit (suc (suc (suc (suc (suc zero))))) = "5"
digit (suc (suc (suc (suc (suc (suc zero)))))) = "6"
digit (suc (suc (suc (suc (suc (suc (suc zero))))))) = "7"
digit (suc (suc (suc (suc (suc (suc (suc (suc zero)))))))) = "8"
digit (suc (suc (suc (suc (suc (suc (suc (suc (suc n))))))))) = "9"

-- The digits of `n` before a text, with fuel above their number.
decimal_before : ℕ → ℕ → String → String
decimal_before zero n text = text
decimal_before (suc fuel) n text =
    let longer = digit (n % 10) << text in
    let rest = decimal_before fuel (n / 10) longer in if n / 10 == 0 then longer else rest

-- An `unsigned long` has at most 20 digits.
unfoldable pub decimal : ℕ → String
unfolding decimal_before
decimal n = decimal_before 20 n ""

-- ===== src/Common/Texts.antt =====
-- Go's identifiers and keys as native texts: equality, decimal numbers, joined keys.
use Prim.Native.Nat.{ℕ, zero, suc, ◌/◌, ◌%◌}
use Prim.Native.Char.{char}
use Prim.Native.String.{String, ◌++◌}
use mathlib.Core.Path.{◌≡◌, refl}
use mathlib.Core.Bool.{Bool}
use mathlib.Core.List.{List, [], ◌∷◌}
use text.Mathlib.Text.{◌==◌ as str_eq}
use rin.Common.Tests.{◌==◌, if◌then◌else◌}

infix 50 ◌=ₛ◌
-- Equality of Go strings.
abbrev pub ◌=ₛ◌ : String → String → Bool
a =ₛ b = str_eq a b

infixr 65 ◌⋯◌
-- Concatenation of Go strings.
abbrev pub ◌⋯◌ : String → String → String
a ⋯ b = a ++ b

-- The code point 0, which Go writes `\x00` between the parts of a key.
abbrev pub nul : String
nul = Prim.Native.String.◌∷◌ (char 0 tt) Prim.Native.String.[]

-- `strings.Join` with the separator NUL, as `fmt.Sprintf("%s\x00%s...")` gives it.
unfoldable pub join_nul : List String → String
join_nul [] = ""
join_nul (x ∷ []) = x
join_nul (x ∷ y ∷ xs) = x ⋯ nul ⋯ join_nul (y ∷ xs)

abbrev pub digit : ℕ → String
digit zero = "0"
digit (suc zero) = "1"
digit (suc (suc zero)) = "2"
digit (suc (suc (suc zero))) = "3"
digit (suc (suc (suc (suc zero)))) = "4"
digit (suc (suc (suc (suc (suc zero))))) = "5"
digit (suc (suc (suc (suc (suc (suc zero)))))) = "6"
digit (suc (suc (suc (suc (suc (suc (suc zero))))))) = "7"
digit (suc (suc (suc (suc (suc (suc (suc (suc zero)))))))) = "8"
digit (suc (suc (suc (suc (suc (suc (suc (suc (suc n))))))))) = "9"

-- The decimal digits of `n` before `rest`; each round divides by ten, so `n` rounds are enough.
digits_from : ℕ → ℕ → String → String
digits_from zero n rest = rest
digits_from (suc fuel) n rest =
    let more = digits_from fuel (n / 10) (digit (n % 10) ⋯ rest) in if n == 0 then rest else more

-- `fmt.Sprintf("%d", n)`.
unfoldable pub decimal : ℕ → String
unfolding digits_from
decimal n = if n == 0 then "0" else digits_from n n ""

decimal_example : decimal 9007 ≡ "9007"
unfolding decimal
decimal_example = refl

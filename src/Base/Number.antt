-- ===== src/Base/Number.antt =====
-- Go's `int` (64 bits) and the part of strconv that the program uses: Itoa, Atoi, FormatBool and
-- ParseBool. An error of strconv is `none`: its text is not modelled.
pub mod RoundTrip
use Prim.Native.Nat.{ℕ, zero, suc, ◌+◌, ◌-◌, ◌*◌, ◌/◌, ◌%◌, ◌^◌, ◌≤◌, ◌<◌}
use Prim.Native.Char.{Char, code}
use Prim.Native.String.{String, [], ◌∷◌}
use mathlib.Core.Path.{◌≡◌, refl}
use mathlib.Core.Bool.{Bool, true, false, ◌&&◌, ◌||◌}
use mathlib.Core.Option.{Option, none, some}
use karlon.Base.Tests.{ltb, leb, nat_eq, ◌==◌, if◌then◌else◌}

-- `negsuc n` is -(n + 1)
pub data ℤ : Type 0 where
  pos : ℕ → ℤ
  negsuc : ℕ → ℤ

abbrev pub int_limit : ℕ
int_limit = 2 ^ 63

-- what an `int` can hold
abbrev pub IsInt : ℤ → Type 0
IsInt (pos n) = n < int_limit
IsInt (negsuc n) = n < int_limit

abbrev pub is_zero : ℤ → Bool
is_zero (pos n) = nat_eq n 0
is_zero (negsuc n) = false

unfoldable pub digit : ℕ → Char
digit zero = "0"
digit (suc zero) = "1"
digit (suc (suc zero)) = "2"
digit (suc (suc (suc zero))) = "3"
digit (suc (suc (suc (suc zero)))) = "4"
digit (suc (suc (suc (suc (suc zero))))) = "5"
digit (suc (suc (suc (suc (suc (suc zero)))))) = "6"
digit (suc (suc (suc (suc (suc (suc (suc zero))))))) = "7"
digit (suc (suc (suc (suc (suc (suc (suc (suc zero)))))))) = "8"
digit (suc (suc (suc (suc (suc (suc (suc (suc (suc n))))))))) = "9"

unfoldable pub digit_value : Char → Option ℕ
digit_value c = if leb b'0' (code c) && leb (code c) b'9' then some (code c - b'0') else none

-- the last digit goes in front of the text so far
unfoldable pub write_digits : ℕ → ℕ → String → String
write_digits zero n out = out
write_digits (suc fuel) n out =
    let more = write_digits fuel (n / 10) (digit (n % 10) ∷ out) in
    if leb n 9 then digit n ∷ out else more

unfoldable pub read_digits : String → ℕ → Option ℕ
read_digits [] n = some n
read_digits (c ∷ s) n = elim (digit_value c) [ none ↦ none | some d ↦ read_digits s (n * 10 + d) ]

unfoldable pub itoa : ℤ → String
unfolding write_digits digit
itoa (pos n) = write_digits (suc n) n []
itoa (negsuc n) = "-" ∷ write_digits (suc (suc n)) (suc n) []

-- one digit at least
unfoldable pub read_number : String → Option ℕ
unfolding read_digits digit_value
read_number [] = none
read_number (c ∷ s) = read_digits (c ∷ s) 0

-- within the range of `int`
abbrev pub below_limit : Option ℕ → Option ℤ
below_limit none = none
below_limit (some n) = if ltb n int_limit then some (pos n) else none

abbrev pub negated : Option ℕ → Option ℤ
negated none = none
negated (some zero) = some (pos 0)
negated (some (suc n)) = if ltb n int_limit then some (negsuc n) else none

unfoldable pub atoi : String → Option ℤ
unfolding read_number
atoi [] = none
atoi (c ∷ s) =
    if nat_eq (code c) b'-'
    then negated (read_number s)
    else if nat_eq (code c) b'+'
    then below_limit (read_number s)
    else below_limit (read_number (c ∷ s))

unfoldable pub format_bool : Bool → String
format_bool true = "true"
format_bool false = "false"

unfoldable pub parse_bool : String → Option Bool
parse_bool s =
    if s == "1" || s == "t" || s == "T" || s == "true" || s == "TRUE" || s == "True"
    then some true
    else if s == "0" || s == "f" || s == "F" || s == "false" || s == "FALSE" || s == "False"
    then some false
    else none

-- ===== src/Base/Number/RoundTrip.antt =====
-- Numbers and truth values are read back from their print.
use Prim.Native.Nat.{ℕ, zero, suc, ◌+◌, ◌*◌, ◌/◌, ◌%◌, ◌≤◌, ◌<◌}
use Prim.Native.Char.{code}
use Prim.Native.String.{String, [], ◌∷◌}
use mathlib.Core.Path.{◌≡◌, refl, ◌∙◌}
use mathlib.Core.Bool.{Bool, true, false}
use mathlib.Core.Option.{some}
use native.Mathlib.Omega.{arith}
use karlon.Base.Number.{
  ℤ, pos, negsuc, IsInt, digit, digit_value, write_digits, read_digits, read_number, itoa, atoi,
  format_bool, parse_bool, below_limit,
}

-- a text that begins with a digit
abbrev IsNumeral : String → Type 0
IsNumeral [] = ⊥
IsNumeral (c ∷ s) = (b'0' ≤ code c) × (code c ≤ b'9')

digit_range : (d : ℕ) → (b'0' ≤ code (digit d)) × (code (digit d) ≤ b'9')
unfolding digit
digit_range zero = omega arith
digit_range (suc zero) = omega arith
digit_range (suc (suc zero)) = omega arith
digit_range (suc (suc (suc zero))) = omega arith
digit_range (suc (suc (suc (suc zero)))) = omega arith
digit_range (suc (suc (suc (suc (suc zero))))) = omega arith
digit_range (suc (suc (suc (suc (suc (suc zero)))))) = omega arith
digit_range (suc (suc (suc (suc (suc (suc (suc zero))))))) = omega arith
digit_range (suc (suc (suc (suc (suc (suc (suc (suc zero)))))))) = omega arith
digit_range (suc (suc (suc (suc (suc (suc (suc (suc (suc n))))))))) = omega arith

digit_value-digit : (d : ℕ) → d < 10 → digit_value (digit d) ≡ some d
unfolding digit digit_value
digit_value-digit zero h = refl
digit_value-digit (suc zero) h = refl
digit_value-digit (suc (suc zero)) h = refl
digit_value-digit (suc (suc (suc zero))) h = refl
digit_value-digit (suc (suc (suc (suc zero)))) h = refl
digit_value-digit (suc (suc (suc (suc (suc zero))))) h = refl
digit_value-digit (suc (suc (suc (suc (suc (suc zero)))))) h = refl
digit_value-digit (suc (suc (suc (suc (suc (suc (suc zero))))))) h = refl
digit_value-digit (suc (suc (suc (suc (suc (suc (suc (suc zero)))))))) h = refl
digit_value-digit (suc (suc (suc (suc (suc (suc (suc (suc (suc zero))))))))) h = refl
digit_value-digit (suc (suc (suc (suc (suc (suc (suc (suc (suc (suc n)))))))))) h =
    absurd (omega arith)

read-digit :
    (d n : ℕ) (out : String) → d < 10 → read_digits (digit d ∷ out) n ≡ read_digits out (n * 10 + d)
unfolding read_digits
read-digit d n out h = rw (read_digits, digit_value-digit d h)

read-write :
    (fuel n : ℕ) (out : String)
    → n < fuel
    → read_digits (write_digits fuel n out) 0 ≡ read_digits out n
unfolding write_digits
read-write zero n out h = absurd (omega arith)
read-write (suc fuel) n out h = ground (
  arith,
  read-digit n 0 out,
  read-write fuel (n / 10) (digit (n % 10) ∷ out),
  read-digit (n % 10) (n / 10) out,
)

write-IsNumeral : (fuel n : ℕ) (out : String) → n < fuel → IsNumeral (write_digits fuel n out)
unfolding write_digits
write-IsNumeral zero n out h = absurd (omega arith)
write-IsNumeral (suc fuel) n out h =
    ground (arith, write-IsNumeral fuel (n / 10) (digit (n % 10) ∷ out), digit_range n)

read_number_lem : (s : String) → IsNumeral s → read_number s ≡ read_digits s 0
unfolding read_number
read_number_lem [] h = absurd h
read_number_lem (c ∷ s) h = refl

read_number-write : (fuel n : ℕ) → n < fuel → read_number (write_digits fuel n []) ≡ some n
unfolding read_digits
read_number-write fuel n h =
    read_number_lem _ (write-IsNumeral fuel n [] h) ∙ read-write fuel n [] h

-- a text without a sign is read as it is
atoi_unsigned : (s : String) → IsNumeral s → atoi s ≡ below_limit (read_number s)
unfolding atoi
atoi_unsigned [] h = absurd h
atoi_unsigned (c ∷ s) h = ground arith

pub atoi-itoa : (z : ℤ) → IsInt z → atoi (itoa z) ≡ some z
unfolding itoa
atoi-itoa (pos n) h =
    atoi_unsigned _ (write-IsNumeral (suc n) n [] (omega arith))
    ∙ rw (read_number-write (suc n) n (omega arith)) (ground arith)
atoi-itoa (negsuc n) h =
    unfold atoi in rw (read_number-write (suc (suc n)) (suc n) (omega arith)) (ground arith)

pub parse_bool-format_bool : (b : Bool) → parse_bool (format_bool b) ≡ some b
unfolding parse_bool format_bool
parse_bool-format_bool true = refl
parse_bool-format_bool false = refl

-- ===== src/Bundles/Names.antt =====
-- IsValidK8sName of pkg/bundle/common.go. `len` counts the bytes of UTF-8. The expression is
-- anchored at the ends of a line, since its flag is `(?m)`: a name matches if one of its lines does.
use Prim.Native.Char.{Char, code}
use Prim.Native.String.{String, [], ◌∷◌}
use karlon.Base.{
  ℕ, ◌+◌, Bool, true, false, ◌&&◌, ◌||◌, ltb, leb, nat_eq, List, [], ◌∷◌, if◌then◌else◌,
}
use karlon.Base.Text.{split}
use karlon.Base.Result.{Error, message}

abbrev pub max_len_rfc1123 : ℕ
max_len_rfc1123 = 63

abbrev pub err_invalid_name : Error
err_invalid_name = message "invalid resource name"

-- the bytes of a code point
unfoldable pub byte_size : Char → ℕ
byte_size c =
    if ltb (code c) 128
    then 1
    else if ltb (code c) 2048
    then 2
    else if ltb (code c) 65536
    then 3
    else 4

-- `len(name)`
unfoldable pub byte_length : String → ℕ
byte_length [] = 0
byte_length (c ∷ s) = byte_size c + byte_length s

-- `[a-z0-9]`, and the characters `-` and `.`
abbrev pub is_alnum : Char → Bool
is_alnum c = (leb 97 (code c) && leb (code c) 122) || (leb 48 (code c) && leb (code c) 57)

abbrev pub is_dash : Char → Bool
is_dash c = nat_eq (code c) (code "-")

abbrev pub is_dot : Char → Bool
is_dot c = nat_eq (code c) (code ".")

-- where a match of `[a-z0-9]([-a-z0-9]*[a-z0-9])?(\.[a-z0-9]([-a-z0-9]*[a-z0-9])?)*` stands: before
-- the first character of a part, behind an alphanumeric one, or behind a dash
pub data Position : Type 0 where
  at_start : Position
  behind_alnum : Position
  behind_dash : Position

unfoldable pub match_from : Position → String → Bool
match_from at_start [] = false
match_from behind_alnum [] = true
match_from behind_dash [] = false
match_from at_start (c ∷ s) = let rest = match_from behind_alnum s in is_alnum c && rest
match_from behind_alnum (c ∷ s) =
    let (letter, dash, dot) : Bool × Bool × Bool =
      (match_from behind_alnum s, match_from behind_dash s, match_from at_start s) in
    if is_alnum c then letter else if is_dash c then dash else is_dot c && dot
match_from behind_dash (c ∷ s) =
    let (letter, dash) : Bool × Bool = (match_from behind_alnum s, match_from behind_dash s) in
    if is_alnum c then letter else is_dash c && dash

unfoldable pub any_line : List String → Bool
unfolding match_from
any_line [] = false
any_line (l ∷ ls) = match_from at_start l || any_line ls

-- `regexRFC1123.MatchString(name)`
unfoldable pub matches_rfc1123 : String → Bool
matches_rfc1123 name = any_line (split "\n" name)

-- IsValidK8sName
unfoldable pub is_valid_k8s_name : String → Bool
is_valid_k8s_name name =
    if nat_eq (byte_length name) 0 || ltb max_len_rfc1123 (byte_length name)
    then false
    else matches_rfc1123 name

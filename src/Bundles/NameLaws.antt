-- ===== src/Bundles/NameLaws.antt =====
-- What a valid name is.
use Prim.Native.Char.{Char, code}
use Prim.Native.String.{String, [], ◌∷◌}
use karlon.Base.{
  ◌≤◌, ◌≡◌, ◌↔◌, refl, arith, Bool, true, false, ◌&&◌, ◌||◌, List, [], ◌∷◌, ap, ◌∙◌, Bool-cases,
  inl, inr, nat_eq,
}
use karlon.Base.Text.{split, prepend}
use karlon.Bundles.Names.{
  byte_length, is_alnum, is_dash, Position, at_start, behind_alnum, behind_dash, match_from,
  any_line, matches_rfc1123, is_valid_k8s_name,
}

-- a label of a DNS name: alphanumeric characters and dashes, the ends alphanumeric
unfoldable of_label_chars : String → Bool
of_label_chars [] = true
of_label_chars (c ∷ s) = let rest = of_label_chars s in (is_alnum c || is_dash c) && rest

unfoldable ends_alnum : String → Bool
ends_alnum [] = false
ends_alnum (c ∷ []) = is_alnum c
ends_alnum (c ∷ (d ∷ s)) = ends_alnum (d ∷ s)

abbrev starts_alnum : String → Bool
starts_alnum [] = false
starts_alnum (c ∷ s) = is_alnum c

unfoldable is_label : String → Bool
is_label s = starts_alnum s && (of_label_chars s && ends_alnum s)

unfoldable all_labels : List String → Bool
all_labels [] = true
all_labels (w ∷ ws) = let rest = all_labels ws in is_label w && rest

-- the rest of a label behind each position
abbrev rest_of_label : Position → String → Bool
rest_of_label at_start s = is_label s
rest_of_label behind_alnum [] = true
rest_of_label behind_alnum (c ∷ s) = of_label_chars (c ∷ s) && ends_alnum (c ∷ s)
rest_of_label behind_dash s = of_label_chars s && ends_alnum s

abbrev fits : Position → List String → Bool
fits p [] = false
fits p (w ∷ ws) = rest_of_label p w && all_labels ws

split_cases : (sep : Char) (s : String) → (w : String) × (ws : List String) × (split sep s ≡ w ∷ ws)
unfolding split prepend
split_cases sep [] = ([], [], refl)
split_cases sep (c ∷ s) =
    let (w, ws, h) = split_cases sep s in
    elim (Bool-cases (nat_eq (code c) (code sep))) [
      | inl closed ↦ ([], w ∷ ws, ground arith)
      | inr inside ↦ (c ∷ w, ws, ground arith)
    ]

-- a character in front of a list of labels
fits_char :
    (p : Position) (c : Char) (s w : String) (ws : List String)
    → split "." s ≡ w ∷ ws
    → ((q : Position) → match_from q s ≡ fits q (w ∷ ws))
    → match_from p (c ∷ s) ≡ fits p (split "." (c ∷ s))
unfolding match_from split prepend all_labels is_label of_label_chars ends_alnum
fits_char at_start c s [] ws h ih = ground (arith, ih behind_alnum)
fits_char at_start c s (d ∷ w) ws h ih = ground (arith, ih behind_alnum)
fits_char behind_alnum c s [] ws h ih = ground (arith, ih behind_alnum, ih behind_dash, ih at_start)
fits_char behind_alnum c s (d ∷ w) ws h ih =
    ground (arith, ih behind_alnum, ih behind_dash, ih at_start)
fits_char behind_dash c s [] ws h ih = ground (arith, ih behind_alnum, ih behind_dash)
fits_char behind_dash c s (d ∷ w) ws h ih = ground (arith, ih behind_alnum, ih behind_dash)

fits_label : (s : String) (p : Position) → match_from p s ≡ fits p (split "." s)
unfolding match_from split all_labels is_label of_label_chars ends_alnum
fits_label [] at_start = refl
fits_label [] behind_alnum = refl
fits_label [] behind_dash = refl
fits_label (c ∷ s) p =
    let (w, ws, h) = split_cases "." s in
    fits_char p c s w ws h (λ q. fits_label s q ∙ ap (fits q) h)

matches_label : (l : String) → match_from at_start l ≡ all_labels (split "." l)
unfolding all_labels
matches_label l =
    let (w, ws, h) = split_cases "." l in
    ground (arith, fits_label l at_start, ap (fits at_start) h)

unfoldable pub has_dns_line : List String → Bool
unfolding all_labels is_label of_label_chars ends_alnum
has_dns_line [] = false
has_dns_line (l ∷ ls) = all_labels (split "." l) || has_dns_line ls

any_line_lem : (ls : List String) → any_line ls ≡ has_dns_line ls
unfolding any_line has_dns_line
any_line_lem [] = refl
any_line_lem (l ∷ ls) = rw (matches_label l, any_line_lem ls)

-- A name is valid exactly if it has 1 to 63 bytes, and one of its lines is a sequence of labels
-- of alphanumeric characters and dashes between dots, each with alphanumeric ends.
pub is_valid_k8s_name_lem :
    (name : String)
    → (is_valid_k8s_name name ≡ true)
      ↔ ((1 ≤ byte_length name) × (byte_length name ≤ 63) × (has_dns_line (split "\n" name) ≡ true))
unfolding is_valid_k8s_name matches_rfc1123
is_valid_k8s_name_lem name = (
  λ h. ground (arith, any_line_lem (split "\n" name)),
  λ h. ground (arith, any_line_lem (split "\n" name)),
)

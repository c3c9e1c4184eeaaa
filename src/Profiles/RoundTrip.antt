-- ===== src/Profiles/RoundTrip.antt =====
-- A list of names is read back from the text that it is written as.
use Prim.Native.Char.{Char, code}
use Prim.Native.String.{String, [], ◌∷◌, ◌++◌}
use text.Mathlib.TextLemmas.{nil-append, cons-append, append-nil, append_assoc}
use karlon.Base.{
  inl, inr, Bool-cases, ◌≡◌, ◌≢◌, refl, sym, ◌∙◌, ap, arith, ◌==◌, List, [], ◌∷◌, All, eq_iff,
}
use karlon.Base.Text.{split, prepend, Lacks}
use karlon.Profiles.{string_list, append_items, comma_separated}

-- the items behind the first, each with its comma
tail_of : List String → String
tail_of [] = ""
tail_of (item ∷ items) = "," ++ (item ++ tail_of items)

split_empty : split "," "" ≡ "" ∷ []
unfolding split
split_empty = refl

-- a separator closes a word
split_separator : (s : String) → split "," ("," ∷ s) ≡ "" ∷ split "," s
unfolding split
split_separator s = refl

split_char :
    (c : Char) (s : String) → code c ≢ code "," → split "," (c ∷ s) ≡ prepend c (split "," s)
unfolding split
split_char c s h = ground arith

split_written :
    (item : String) (items : List String)
    → Lacks "," item
    → All (Lacks ",") items
    → split "," (item ++ tail_of items) ≡ item ∷ items
unfolding split prepend tail_of
split_written [] [] h hs = refl
split_written [] (next ∷ items) h (n, ns) =
    ap (split ",") (
      nil-append ("," ++ (next ++ tail_of items))
      ∙ cons-append "," "" (next ++ tail_of items)
      ∙ ap (λ s. "," ∷ s) (nil-append (next ++ tail_of items)))
    ∙ split_separator (next ++ tail_of items)
    ∙ ap (λ ws. "" ∷ ws) (split_written next items n ns)
split_written (c ∷ item) items (h, hs) ns =
    ap (split ",") (cons-append c item (tail_of items))
    ∙ split_char c (item ++ tail_of items) h
    ∙ ap (prepend c) (split_written item items hs ns)

append_items_lem : (s : String) (items : List String) → append_items s items ≡ s ++ tail_of items
unfolding append_items tail_of
append_items_lem s [] = sym (append-nil s)
append_items_lem s (item ∷ items) =
    append_items_lem (s ++ ("," ++ item)) items
    ∙ append_assoc s ("," ++ item) (tail_of items)
    ∙ ap (λ t. s ++ t) (append_assoc "," item (tail_of items))

written_lem :
    (item : String) (items : List String) → comma_separated (item ∷ items) ≡ item ++ tail_of items
unfolding comma_separated
written_lem item items =
    append_items_lem ("" ++ item) items ∙ ap (λ s. s ++ tail_of items) (nil-append item)

-- A list of names without commas, other than the list of one empty name, is read back from the
-- comma-separated text that it is written as.
pub string_list-comma_separated :
    (items : List String)
    → All (Lacks ",") items
    → items ≢ "" ∷ []
    → string_list (comma_separated items) ≡ items
unfolding string_list
string_list-comma_separated [] hs full = unfold comma_separated in refl
string_list-comma_separated (item ∷ items) (h, hs) full =
    let read = ap (split ",") (written_lem item items) ∙ split_written item items h hs in
    elim (Bool-cases (comma_separated (item ∷ items) == "")) [
      | inl empty ↦ absurd (
          full (
            sym read
            ∙ ap (split ",") ((eq_iff (comma_separated (item ∷ items)) "").0 empty)
            ∙ split_empty))
      | inr written ↦ rw written read
    ]

-- ===== src/Base/Path/Joined.antt =====
-- Paths of proper components: they are joined and split as they stand.
use Prim.Native.Nat.{ℕ, suc}
use Prim.Native.Char.{Char, code}
use Prim.Native.String.{String, [], ◌∷◌, ◌++◌}
use mathlib.Core.Path.{◌≡◌, refl, sym, ap, ◌∙◌}
use mathlib.Core.Bool.{false}
use mathlib.Core.Logic.{◌≢◌, inl, inr}
use mathlib.Core.List.{List, [], ◌∷◌}
use native.Mathlib.Omega.{arith}
use text.Mathlib.TextLemmas.{nil-append, cons-append, append_assoc}
use text.Mathlib.TextEquality.{eq_iff}
use karlon.Base.Tests.{Bool-cases, ◌==◌}
use karlon.Base.Lists.{All}
use karlon.Base.Text.{split, join, prepend, Lacks}
use karlon.Base.Path.{is_rooted, reverse_onto, clean_onto, clean, non_empty, join_path}

-- a component that is neither empty nor one of `.` and `..`, and holds no slash
abbrev pub IsProper : String → Type 0
IsProper c = ((c == "") ≡ false) × ((c == ".") ≡ false) × ((c == "..") ≡ false) × Lacks "/" c

split_char :
    (c : Char) (s : String) → code c ≢ code "/" → split "/" (c ∷ s) ≡ prepend c (split "/" s)
unfolding split
split_char c s h = ground arith

split_slash : (s : String) → split "/" ("/" ++ s) ≡ "" ∷ split "/" s
unfolding split
split_slash s = ap (split "/") (cons-append "/" "" s ∙ ap (λ t. "/" ∷ t) (nil-append s))

split_word : (w : String) → Lacks "/" w → split "/" w ≡ w ∷ []
unfolding split prepend
split_word [] h = refl
split_word (c ∷ w) (h, hs) = split_char c w h ∙ ap (prepend c) (split_word w hs)

split_first : (w s : String) → Lacks "/" w → split "/" (w ++ ("/" ++ s)) ≡ w ∷ split "/" s
unfolding prepend
split_first [] s h = ap (split "/") (nil-append ("/" ++ s)) ∙ split_slash s
split_first (c ∷ w) s (h, hs) =
    ap (split "/") (cons-append c w ("/" ++ s))
    ∙ split_char c (w ++ ("/" ++ s)) h
    ∙ ap (prepend c) (split_first w s hs)

pub split-join :
    (c : String) (cs : List String) → All IsProper (c ∷ cs) → split "/" (join "/" (c ∷ cs)) ≡ c ∷ cs
unfolding join
split-join c [] ((_, _, _, h), _) = split_word c h
split-join c (d ∷ cs) ((_, _, _, h), hs) =
    split_first c (join "/" (d ∷ cs)) h ∙ ap (λ ws. c ∷ ws) (split-join d cs hs)

clean_proper :
    (cs kept : List String) → All IsProper cs → clean_onto false cs kept ≡ reverse_onto cs kept
unfolding clean_onto reverse_onto
clean_proper [] kept h = refl
clean_proper (c ∷ cs) kept ((h1, h2, h3, _), hs) = rw (h1, h2, h3) (clean_proper cs (c ∷ kept) hs)

reverse_twice : (xs ys : List String) → reverse_onto (reverse_onto xs ys) [] ≡ reverse_onto ys xs
unfolding reverse_onto
reverse_twice [] ys = refl
reverse_twice (x ∷ xs) ys = reverse_twice xs (x ∷ ys)

-- the components with one more behind them
abbrev pub with_last : List String → String → List String
with_last [] n = n ∷ []
with_last (c ∷ cs) n = c ∷ with_last cs n

join-with_last :
    (c : String) (cs : List String) (n : String)
    → join "/" (with_last (c ∷ cs) n) ≡ join "/" (c ∷ cs) ++ ("/" ++ n)
unfolding join
join-with_last c [] n = refl
join-with_last c (d ∷ cs) n =
    ap (λ t. c ++ ("/" ++ t)) (join-with_last d cs n)
    ∙ ap (λ t. c ++ t) (sym (append_assoc "/" (join "/" (d ∷ cs)) ("/" ++ n)))
    ∙ sym (append_assoc c ("/" ++ join "/" (d ∷ cs)) ("/" ++ n))

-- the code of the first character, from 1 on
abbrev first_code : String → ℕ
first_code [] = 0
first_code (c ∷ s) = suc (code c)

-- a joined path begins with the first character of its first component
first-join :
    (c : String) (cs : List String)
    → (c == "") ≡ false
    → first_code (join "/" (c ∷ cs)) ≡ first_code c
unfolding join
first-join c [] h = refl
first-join [] (d ∷ cs) h = ground arith
first-join (a ∷ c) (d ∷ cs) h = ap first_code (cons-append a c ("/" ++ join "/" (d ∷ cs)))

differ_first : (s t : String) → first_code s ≢ first_code t → (s == t) ≡ false
differ_first s t h = elim (Bool-cases (s == t)) [
  | inr other ↦ other
  | inl same ↦ absurd (h (ap first_code ((eq_iff s t).0 same)))
]

pub cons_filled : (c : Char) (s : String) → ((c ∷ s) == "") ≡ false
cons_filled c s = differ_first (c ∷ s) "" (λ e. ground arith)

first_proper : (c : String) → IsProper c → (first_code c ≢ 0) × (first_code c ≢ suc (code "/"))
first_proper [] (h, _, _, _) = ground arith
first_proper (a ∷ c) (_, _, _, (h, _)) = ground arith

unrooted : (s : String) → first_code s ≢ suc (code "/") → is_rooted s ≡ false
unrooted [] h = refl
unrooted (c ∷ s) h = differ_first (c ∷ []) "/" h

joined_first :
    (c : String) (cs : List String)
    → IsProper c
    → ((join "/" (c ∷ cs) == "") ≡ false) × (is_rooted (join "/" (c ∷ cs)) ≡ false)
joined_first c cs h =
    let (filled, unslashed) = first_proper c h in
    let first = first-join c cs h.0 in
    (
      differ_first (join "/" (c ∷ cs)) "" (λ e. filled (sym first ∙ e)),
      unrooted (join "/" (c ∷ cs)) (λ e. unslashed (sym first ∙ e)),
    )

pub clean-join :
    (c : String) (cs : List String)
    → All IsProper (c ∷ cs)
    → clean (join "/" (c ∷ cs)) ≡ join "/" (c ∷ cs)
unfolding clean reverse_onto
clean-join c cs (h, hs) =
    let (filled, unrooted') = joined_first c cs h in
    let kept : reverse_onto (clean_onto false (split "/" (join "/" (c ∷ cs))) []) [] ≡ c ∷ cs =
      ap (λ ws. reverse_onto (clean_onto false ws []) []) (split-join c cs (h, hs))
      ∙ ap (λ ws. reverse_onto ws []) (clean_proper (c ∷ cs) [] (h, hs))
      ∙ reverse_twice (c ∷ cs) [] in
    rw (unrooted', kept, filled) refl

pub All-with_last :
    (cs : List String) (n : String) → All IsProper cs → IsProper n → All IsProper (with_last cs n)
All-with_last [] n hs h = (h, tt)
All-with_last (c ∷ cs) n (hc, hs) h = (hc, All-with_last cs n hs h)

join_two :
    (a b : String)
    → (a == "") ≡ false
    → (b == "") ≡ false
    → join_path (a ∷ b ∷ []) ≡ clean (a ++ ("/" ++ b))
unfolding join_path non_empty join
join_two a b ha hb = ground arith

-- path.Join puts a proper component behind a path of proper ones
pub join_path-join :
    (c : String) (cs : List String) (n : String)
    → All IsProper (c ∷ cs)
    → IsProper n
    → join_path (join "/" (c ∷ cs) ∷ n ∷ []) ≡ join "/" (with_last (c ∷ cs) n)
join_path-join c cs n (h, hs) hn =
    join_two (join "/" (c ∷ cs)) n (joined_first c cs h).0 hn.0
    ∙ ap clean (sym (join-with_last c cs n))
    ∙ clean-join c (with_last cs n) (h, All-with_last cs n hs hn)

join_one : (b : String) → (b == "") ≡ false → join_path ("" ∷ b ∷ []) ≡ clean b
unfolding join_path non_empty join
join_one b h = ground arith

-- path.Join of the empty path and a proper component
pub join_path-root : (n : String) → IsProper n → join_path ("" ∷ n ∷ []) ≡ n
unfolding join
join_path-root n h = join_one n h.0 ∙ clean-join n [] (h, tt)

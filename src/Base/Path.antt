-- ===== src/Base/Path.antt =====
-- Go's path.Join and path.Clean on paths of the form that they read: components between slashes.
pub mod Joined
use Prim.Native.String.{String, [], ◌∷◌, ◌++◌}
use mathlib.Core.Bool.{Bool, true, false, ◌||◌}
use mathlib.Core.List.{List, [], ◌∷◌}
use karlon.Base.Tests.{◌==◌, if◌then◌else◌}
use karlon.Base.Text.{split, join}

abbrev is_rooted : String → Bool
is_rooted [] = false
is_rooted (c ∷ s) = (c ∷ []) == "/"

-- what `..` does to the components kept so far, the last one first
parent : Bool → List String → List String
parent true [] = []
parent false [] = ".." ∷ []
parent rooted (c ∷ cs) = if c == ".." then ".." ∷ c ∷ cs else cs

reverse_onto : List String → List String → List String
reverse_onto [] ys = ys
reverse_onto (x ∷ xs) ys = reverse_onto xs (x ∷ ys)

-- the components that stay, the last one first
clean_onto : Bool → List String → List String → List String
unfolding parent
clean_onto rooted [] kept = kept
clean_onto rooted (c ∷ cs) kept =
    clean_onto rooted cs
      (if c == "" || c == "." then kept else if c == ".." then parent rooted kept else c ∷ kept)

abbrev of_components : Bool → String → String
of_components true s = "/" ++ s
of_components false s = if s == "" then "." else s

-- path.Clean
unfoldable pub clean : String → String
unfolding clean_onto reverse_onto
clean s =
    let rooted = is_rooted s in
    of_components rooted (join "/" (reverse_onto (clean_onto rooted (split "/" s) []) []))

non_empty : List String → List String
non_empty [] = []
non_empty (s ∷ ss) = if s == "" then non_empty ss else s ∷ non_empty ss

-- path.Join
unfoldable pub join_path : List String → String
unfolding non_empty clean
join_path elems = elim (non_empty elems) [ [] ↦ "" | e ∷ es ↦ clean (join "/" (e ∷ es)) ]

but_last : List String → List String
but_last [] = []
but_last (c ∷ []) = []
but_last (c ∷ (d ∷ cs)) = c ∷ but_last (d ∷ cs)

-- filepath.Dir
unfoldable pub dir_of : String → String
unfolding but_last clean
dir_of path = elim (but_last (split "/" path)) [
  | [] ↦ "."
  | c ∷ cs ↦ clean (join "/" (c ∷ cs) ++ "/")
]

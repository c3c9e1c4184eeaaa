-- ===== src/Base/Sets.antt =====
-- The sets of golang-set as slices without repetition, in order of insertion: the library leaves the
-- order of an iteration open, and no theorem depends on it.
use mathlib.Core.Path.{◌≡◌, refl, sym, ◌∙◌}
use mathlib.Core.Logic.{◌↔◌}
use mathlib.Core.Bool.{Bool, true, ◌&&◌, ◌||◌, false≢true}
use mathlib.Core.List.{List, [], ◌∷◌, ◌++◌}
use native.Mathlib.Omega.{arith}
use Prim.Native.String.{String}
use text.Mathlib.TextEquality.{eq_iff}
use text.Mathlib.TextPositions.{eq_refl}
use karlon.Base.Tests.{◌==◌, if◌then◌else◌}
use karlon.Base.Lists.{contains}

unfoldable pub add : String → List String → List String
add x s = if contains x s then s else s ++ x ∷ []

-- adding the elements of a slice, or of a set
unfoldable pub add_all : List String → List String → List String
add_all [] s = s
add_all (x ∷ xs) s = add_all xs (add x s)

-- NewSet(xs...)
abbrev pub from_slice : List String → List String
from_slice xs = add_all xs []

-- s.Union(t)
abbrev pub union : List String → List String → List String
union s t = add_all t s

unfoldable pub is_subset : List String → List String → Bool
is_subset [] t = true
is_subset (x ∷ xs) t = contains x t && is_subset xs t

-- s.Equal(t)
unfoldable pub equal_sets : List String → List String → Bool
unfolding is_subset
equal_sets s t = is_subset s t && is_subset t s

pub contains-append :
    (x : String) (xs ys : List String) → contains x (xs ++ ys) ≡ (contains x xs || contains x ys)
unfolding contains
contains-append x [] ys = refl
contains-append x (y ∷ xs) ys = ground (arith, contains-append x xs ys)

pub contains-add :
    (x y : String) (s : List String) → contains x (add y s) ≡ (x == y || contains x s)
unfolding add contains
contains-add x y s = ground (arith, contains-append x s (y ∷ []), eq_iff x y)

pub contains-add_all :
    (x : String) (ys s : List String) → contains x (add_all ys s) ≡ (contains x ys || contains x s)
unfolding add_all contains
contains-add_all x [] s = refl
contains-add_all x (y ∷ ys) s = ground (arith, contains-add_all x ys (add y s), contains-add x y s)

is_subset_sound :
    (s t : List String) (x : String)
    → is_subset s t ≡ true
    → contains x s ≡ true
    → contains x t ≡ true
unfolding is_subset contains
is_subset_sound [] t x h m = absurd (false≢true m)
is_subset_sound (y ∷ s) t x h m = ground (arith, is_subset_sound s t x, eq_iff x y)

is_subset_complete :
    (s t : List String)
    → ((x : String) → contains x s ≡ true → contains x t ≡ true)
    → is_subset s t ≡ true
unfolding is_subset contains
is_subset_complete [] t h = refl
is_subset_complete (y ∷ s) t h =
    let first : contains y t ≡ true = h y (rw (eq_refl y)) in
    let others : is_subset s t ≡ true = is_subset_complete s t (λ x m. h x (ground arith)) in
    rw (first, others)

pub equal_sets_iff :
    (s t : List String) → (equal_sets s t ≡ true) ↔ ((x : String) → contains x s ≡ contains x t)
unfolding equal_sets
equal_sets_iff s t = (
  λ h x. ground (arith, is_subset_sound s t x, is_subset_sound t s x),
  λ h.
      let left : is_subset s t ≡ true = is_subset_complete s t (λ x m. sym (h x) ∙ m) in
      let right : is_subset t s ≡ true = is_subset_complete t s (λ x m. h x ∙ m) in
      rw (left, right),
)

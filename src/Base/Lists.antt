-- ===== src/Base/Lists.antt =====
-- Lists: the Go loops that the components share, and predicates by recursion.
use Prim.Native.Nat.{ℕ, suc}
use Prim.Native.String.{String}
use mathlib.Core.Bool.{Bool, true, false, ◌||◌}
use mathlib.Core.Option.{Option, none, some}
use mathlib.Core.List.{List, [], ◌∷◌, ◌++◌}
use mathlib.Core.Path.{◌≡◌, refl}
use native.Mathlib.Omega.{arith}
use text.Mathlib.TextEquality.{eq_iff}
use karlon.Base.Tests.{◌==◌, if◌then◌else◌}

module _ {ℓ} {A : Type ℓ} where
  abbrev pub length : List A → ℕ
  length [] = 0
  length (x ∷ xs) = suc (length xs)

  abbrev pub is_empty : List A → Bool
  is_empty [] = true
  is_empty (x ∷ xs) = false

  -- `for _, x := range xs { if p(x) { return &x } }`
  unfoldable pub find_first : (A → Bool) → List A → Option A
  find_first p [] = none
  find_first p (x ∷ xs) = elim (p x) [ true ↦ some x | false ↦ find_first p xs ]

module _ {ℓ κ} {A : Type ℓ} (P : A → Type κ) where
  abbrev pub All : List A → Type κ
  All [] = Unit
  All (x ∷ xs) = P x × All xs

  pub All-append : (xs ys : List A) → All xs → All ys → All (xs ++ ys)
  All-append [] ys hx hy = hy
  All-append (x ∷ xs) ys (p, hx) hy = (p, All-append xs ys hx hy)

-- membership of a name in a slice, or in a set kept as one
unfoldable pub contains : String → List String → Bool
contains k [] = false
contains k (x ∷ xs) = k == x || contains k xs

-- the slice without a name, as controllerutil.RemoveFinalizer leaves it
unfoldable pub remove_all : String → List String → List String
remove_all f [] = []
remove_all f (x ∷ xs) = let rest = remove_all f xs in if x == f then rest else x ∷ rest

pub contains-remove_all : (f : String) (xs : List String) → contains f (remove_all f xs) ≡ false
unfolding contains remove_all
contains-remove_all f [] = refl
contains-remove_all f (x ∷ xs) = ground (arith, contains-remove_all f xs, eq_iff x f, eq_iff f x)

pub contains-remove_all_other :
    (f g : String) (xs : List String)
    → (g == f) ≡ false
    → contains g (remove_all f xs) ≡ contains g xs
unfolding contains remove_all
contains-remove_all_other f g [] h = refl
contains-remove_all_other f g (x ∷ xs) h =
    ground (arith, contains-remove_all_other f g xs h, eq_iff x f, eq_iff g x, eq_iff g f)

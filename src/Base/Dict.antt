-- ===== src/Base/Dict.antt =====
-- Go's `map[string]V` as an association list: the first entry of a key counts, `none` is a missing key.
use Prim.Native.String.{String}
use mathlib.Core.Path.{◌≡◌}
use mathlib.Core.Bool.{true, false}
use mathlib.Core.Option.{Option, none, some}
use mathlib.Core.List.{List, [], ◌∷◌}
use native.Mathlib.Omega.{arith}
use text.Mathlib.TextEquality.{eq_iff}
use karlon.Base.Tests.{◌==◌, if◌then◌else◌}

abbrev pub Dict {ℓ} : Type ℓ → Type ℓ
Dict V = List (String × V)

module _ {ℓ} {V : Type ℓ} where
  unfoldable pub lookup : String → Dict V → Option V
  lookup key [] = none
  lookup key ((name, value) ∷ rest) = elim (name == key) [
    | true ↦ some value
    | false ↦ lookup key rest
  ]

  -- `m[k] = v`: in place where the key is there, at the end where it is new
  unfoldable pub insert : String → V → Dict V → Dict V
  insert key new [] = (key, new) ∷ []
  insert key new ((name, value) ∷ rest) =
      let kept = (name, value) ∷ insert key new rest in
      if name == key then (name, new) ∷ rest else kept

  -- `delete(m, k)`
  unfoldable pub erase : String → Dict V → Dict V
  erase key [] = []
  erase key ((name, value) ∷ rest) =
      let others = erase key rest in if name == key then others else (name, value) ∷ others

  pub lookup-insert :
      (key other : String) (new : V) (m : Dict V)
      → lookup other (insert key new m) ≡ (if key == other then some new else lookup other m)
  unfolding lookup insert
  lookup-insert key other new [] = ground arith
  lookup-insert key other new ((name, value) ∷ rest) = ground (
    arith,
    lookup-insert key other new rest,
    eq_iff name key,
    eq_iff name other,
    eq_iff key other,
  )

  pub lookup-erase :
      (key other : String) (m : Dict V)
      → lookup other (erase key m) ≡ (if key == other then none else lookup other m)
  unfolding lookup erase
  lookup-erase key other [] = ground arith
  lookup-erase key other ((name, value) ∷ rest) =
      ground
        (arith, lookup-erase key other rest, eq_iff name key, eq_iff name other, eq_iff key other)

-- `m[k]` on a `map[string]string`: the empty string stands for a missing key
unfoldable pub get : String → Dict String → String
get k m = elim (lookup k m) [ none ↦ "" | some v ↦ v ]

pub get-insert :
    (k j v : String) (m : Dict String) → get j (insert k v m) ≡ (if k == j then v else get j m)
unfolding get
get-insert k j v m = ground (arith, lookup-insert k j v m)

pub get-erase :
    (k j : String) (m : Dict String) → get j (erase k m) ≡ (if k == j then "" else get j m)
unfolding get
get-erase k j m = ground (arith, lookup-erase k j m)

-- a map that may be nil reads as an empty one
abbrev pub or_empty : Option (Dict String) → Dict String
or_empty none = []
or_empty (some m) = m

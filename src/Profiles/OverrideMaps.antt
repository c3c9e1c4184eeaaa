-- ===== src/Profiles/OverrideMaps.antt =====
-- A list of overrides as a map from a bundle and a key to a value.
use mathlib.Core.List.{append-nil, append_assoc}
use mathlib.Core.Path.{fun_ext}
use karlon.Base.{
  Bool, false, Bool-cases, inl, inr, ◌≡◌, refl, sym, ap, ◌∙◌, arith, eq_iff, ◌==◌, ◌&&◌, ◌||◌,
  String, Option, none, some, List, [], ◌∷◌, ◌++◌, if◌then◌else◌,
}
use karlon.Base.Dict.{lookup, insert, lookup-insert}
use karlon.Objects.{Override, Profile}
use karlon.Git.BundleApps.{KvPair, KvPairMap, pairs_of}
use karlon.Profiles.Overrides.{merge_one, merge, add_overrides, make_overrides_map}

abbrev pub is_at : String → String → Override → Bool
is_at bundle key o = o.bundle == bundle && o.key == key

-- the value of a key of a bundle: the first override counts
unfoldable pub value_at : List Override → String → String → Option String
value_at [] bundle key = none
value_at (o ∷ os) bundle key =
    let rest = value_at os bundle key in if is_at bundle key o then some o.value else rest

-- a map with one value set, and with the values of a list set one after the other
unfoldable pub set_value :
    Override → (String → String → Option String) → String → String → Option String
set_value o m bundle key = if is_at bundle key o then some o.value else m bundle key

unfoldable pub set_values :
    List Override → (String → String → Option String) → String → String → Option String
unfolding set_value
set_values [] m = m
set_values (o ∷ os) m = set_values os (set_value o m)

merge_one-value :
    (o : Override) (xs : List Override) (bundle key : String)
    → value_at (merge_one o xs).0 bundle key ≡ set_value o (value_at xs) bundle key
unfolding merge_one value_at set_value
merge_one-value o [] bundle key = refl
merge_one-value o (x ∷ xs) bundle key = ground (
  arith,
  merge_one-value o xs bundle key,
  eq_iff o.bundle x.bundle,
  eq_iff o.key x.key,
  eq_iff o.bundle bundle,
  eq_iff x.bundle bundle,
  eq_iff o.key key,
  eq_iff x.key key,
  eq_iff o.value x.value,
)

merge_one_clean :
    (o : Override) (xs : List Override) → (merge_one o xs).1 ≡ false → (merge_one o xs).0 ≡ xs
unfolding merge_one
merge_one_clean o [] h = ground arith
merge_one_clean o (x ∷ xs) h = ground (arith, merge_one_clean o xs)

-- The merge of overrides in Update implements setting values in a map from a bundle and a key
-- to a value: a value that is given anew replaces the old one, the last one given counts, and
-- every other value stays.
pub merge-value :
    (os xs : List Override) (dirty : Bool)
    → value_at (merge os (xs, dirty)).0 ≡ set_values os (value_at xs)
unfolding merge set_values
merge-value [] xs dirty = refl
merge-value (o ∷ os) xs dirty =
    merge-value os (merge_one o xs).0 ((merge_one o xs).1 || dirty)
    ∙ ap (set_values os) (fun_ext λ bundle. fun_ext λ key. merge_one-value o xs bundle key)

-- If the merge of Update does not set `dirty`, the overrides are as they were and nothing
-- set it before.
pub merge_clean :
    (os xs : List Override) (dirty : Bool)
    → (merge os (xs, dirty)).1 ≡ false
    → ((merge os (xs, dirty)).0 ≡ xs) × (dirty ≡ false)
unfolding merge
merge_clean [] xs dirty h = (refl, h)
merge_clean (o ∷ os) xs dirty h =
    let (kept, clean) = merge_clean os (merge_one o xs).0 ((merge_one o xs).1 || dirty) h in
    ground (arith, kept, clean, merge_one_clean o xs)

-- the overrides of one bundle, in their order
unfoldable pub pairs_for : String → List Override → List KvPair
pairs_for bundle [] = []
pairs_for bundle (o ∷ os) =
    let rest = pairs_for bundle os in
    let pair : KvPair = record { key = o.key; value = o.value } in
    if o.bundle == bundle then pair ∷ rest else rest

pairs_of-insert :
    (key other : String) (ps : List KvPair) (m : KvPairMap)
    → pairs_of other (insert key ps m) ≡ (if key == other then ps else pairs_of other m)
unfolding pairs_of
pairs_of-insert key other ps m = ground (arith, lookup-insert key other ps m)

add_overrides-pairs :
    (items : List Override) (om : KvPairMap) (bundle : String)
    → pairs_of bundle (add_overrides items om) ≡ pairs_of bundle om ++ pairs_for bundle items
unfolding add_overrides pairs_for
add_overrides-pairs [] om bundle = sym (append-nil (pairs_of bundle om))
add_overrides-pairs (item ∷ items) om bundle =
    let pair : KvPair = record { key = item.key; value = item.value } in
    let old : List KvPair = pairs_of item.bundle om in
    add_overrides-pairs items (insert item.bundle (old ++ pair ∷ []) om) bundle
    ∙ ap (λ ps. ps ++ pairs_for bundle items)
        (pairs_of-insert item.bundle bundle (old ++ pair ∷ []) om)
    ∙ elim (Bool-cases (item.bundle == bundle)) [
      | inl same ↦ rw same (
          append_assoc old (pair ∷ []) (pairs_for bundle items)
          ∙ ap (λ b. pairs_of b om ++ (pair ∷ pairs_for bundle items))
              ((eq_iff item.bundle bundle).0 same))
      | inr other ↦ rw other refl
    ]

-- The map of a profile's overrides has for each bundle exactly its overrides, in their order.
pub make_overrides_map-pairs :
    (profile : Profile) (bundle : String)
    → pairs_of bundle (make_overrides_map profile) ≡ pairs_for bundle profile.spec.overrides
unfolding make_overrides_map pairs_of pairs_for lookup
make_overrides_map-pairs profile bundle = add_overrides-pairs profile.spec.overrides [] bundle

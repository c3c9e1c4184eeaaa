-- ===== src/Profiles/Repeat.antt =====
-- An update of a profile that is repeated.
use karlon.Base.{
  Bool, true, false, ◌≡◌, ◌≢◌, refl, sym, subst, ◌∙◌, arith, eq_iff, eq_refl, ◌==◌, ◌||◌, String,
  Option, none, some, List, [], ◌∷◌, All,
}
use karlon.Base.Sets.{from_slice, equal_sets_iff}
use karlon.Objects.{Override, ProfileSpec}
use karlon.Profiles.{string_list, comma_separated, string_lists_equivalent}
use karlon.Base.Text.{Lacks}
use karlon.Profiles.RoundTrip.{string_list-comma_separated}
use karlon.Profiles.OverrideMaps.{is_at, value_at, set_value, set_values, merge-value}
use karlon.Profiles.Overrides.{merge_one, merge}
use karlon.Profiles.Writes.{
  Change, change_description, change_tags, change_bundles, change_overrides, apply_change,
  wanted_bundles,
}

-- no two overrides are for the same key of the same bundle
abbrev pub AreDistinct : List Override → Type 0
AreDistinct [] = Unit
AreDistinct (o ∷ os) = All (λ p. is_at o.bundle o.key p ≡ false) os × AreDistinct os

-- each of the overrides has its value in the list
abbrev pub AreSet : List Override → List Override → Type 0
AreSet os xs = All (λ o. value_at xs o.bundle o.key ≡ some o.value) os

set_values_other :
    (os : List Override) (m : String → String → Option String) (bundle key : String)
    → All (λ p. is_at bundle key p ≡ false) os
    → set_values os m bundle key ≡ m bundle key
unfolding set_values set_value
set_values_other [] m bundle key hs = refl
set_values_other (o ∷ os) m bundle key (h, hs) =
    set_values_other os (set_value o m) bundle key hs ∙ rw h refl

set_values-AreSet :
    (os : List Override) (m : String → String → Option String)
    → AreDistinct os
    → All (λ o. set_values os m o.bundle o.key ≡ some o.value) os
unfolding set_values set_value
set_values-AreSet [] m hs = tt
set_values-AreSet (o ∷ os) m (h, hs) = (
  set_values_other os (set_value o m) o.bundle o.key h ∙ rw (eq_refl o.bundle, eq_refl o.key) refl,
  set_values-AreSet os (set_value o m) hs,
)

merge_one_set :
    (o : Override) (xs : List Override)
    → value_at xs o.bundle o.key ≡ some o.value
    → merge_one o xs ≡ (xs, false)
unfolding merge_one value_at
merge_one_set o [] h = ground arith
merge_one_set o (x ∷ xs) h = ground (
  arith,
  merge_one_set o xs,
  eq_iff o.bundle x.bundle,
  eq_iff x.bundle o.bundle,
  eq_iff o.key x.key,
  eq_iff x.key o.key,
  eq_iff o.value x.value,
)

merge_set : (os xs : List Override) → AreSet os xs → merge os (xs, false) ≡ (xs, false)
unfolding merge
merge_set [] xs hs = refl
merge_set (o ∷ os) xs (h, hs) = rw (merge_one_set o xs h) (merge_set os xs hs)

merged-AreSet :
    (os xs : List Override) (dirty : Bool) → AreDistinct os → AreSet os (merge os (xs, dirty)).0
merged-AreSet os xs dirty distinct =
    subst (λ (m : String → String → Option String). All (λ o. m o.bundle o.key ≡ some o.value) os)
      (sym (merge-value os xs dirty)) (set_values-AreSet os (value_at xs) distinct)

equivalent_refl : (xs : List String) → string_lists_equivalent xs xs ≡ true
unfolding string_lists_equivalent
equivalent_refl xs = (equal_sets_iff (from_slice xs) (from_slice xs)).1 λ x. refl

-- a profile that has what the change asks for
IsDone : Change → ProfileSpec → Type 0
IsDone c spec =
    ((c.desc == "" || c.desc == spec.description) ≡ true)
    × ((c.tags == "" || string_lists_equivalent (string_list c.tags) spec.tags) ≡ true)
    × (string_lists_equivalent (string_list (wanted_bundles c.bundles spec)) spec.bundles ≡ true)
    × AreSet c.overrides spec.overrides

settled_description :
    (desc : String) (spec : ProfileSpec)
    → (desc == "" || desc == spec.description) ≡ true
    → change_description desc (spec, false) ≡ (spec, false)
unfolding change_description
settled_description desc spec h = ground arith

settled_tags :
    (tags : String) (spec : ProfileSpec)
    → (tags == "" || string_lists_equivalent (string_list tags) spec.tags) ≡ true
    → change_tags tags (spec, false) ≡ (spec, false)
unfolding change_tags
settled_tags tags spec h = ground arith

settled_bundles :
    (names : Option (List String)) (spec : ProfileSpec)
    → string_lists_equivalent (string_list (wanted_bundles names spec)) spec.bundles ≡ true
    → change_bundles names (spec, false) ≡ (spec, false)
unfolding change_bundles
settled_bundles names spec h = ground arith

settled_overrides :
    (os : List Override) (spec : ProfileSpec)
    → AreSet os spec.overrides
    → change_overrides os (spec, false) ≡ (spec, false)
unfolding change_overrides
settled_overrides os spec h = rw (merge_set os spec.overrides h) refl

done_settled :
    (c : Change) (spec : ProfileSpec) → IsDone c spec → apply_change c spec ≡ (spec, false)
unfolding IsDone apply_change
done_settled c spec (desc, tags, bundles, set) =
    rw
      (
        settled_description c.desc spec desc,
        settled_tags c.tags spec tags,
        settled_bundles c.bundles spec bundles,
      )
      (settled_overrides c.overrides spec set)

changed_bundles :
    (names : Option (List String)) (p : ProfileSpec × Bool)
    → string_list (comma_separated p.0.bundles) ≡ p.0.bundles
    → string_lists_equivalent
        (string_list (wanted_bundles names (change_bundles names p).0))
        (change_bundles names p).0.bundles
      ≡ true
unfolding change_bundles wanted_bundles
changed_bundles none (spec, dirty) kept = ground (arith, kept, equivalent_refl spec.bundles)
changed_bundles (some names) (spec, dirty) kept =
    ground (arith, equivalent_refl (string_list (comma_separated names)))

module _ (c : Change) (spec : ProfileSpec) where
  -- the specification and `dirty` before the bundles are changed
  abbrev before_bundles : ProfileSpec × Bool
  before_bundles = change_tags c.tags (change_description c.desc (spec, false))

  same_bundles : before_bundles.0.bundles ≡ spec.bundles
  unfolding change_description change_tags
  same_bundles = ground arith

  applied_description : (c.desc == "" || c.desc == (apply_change c spec).0.description) ≡ true
  unfolding apply_change change_description change_tags change_bundles change_overrides
  applied_description = ground (arith, eq_refl c.desc)

  applied_tags :
      (c.tags == "" || string_lists_equivalent (string_list c.tags) (apply_change c spec).0.tags)
      ≡ true
  unfolding apply_change change_description change_tags change_bundles change_overrides
  applied_tags = ground (arith, equivalent_refl (string_list c.tags))

  applied_bundles :
      string_list (comma_separated spec.bundles) ≡ spec.bundles
      → string_lists_equivalent
          (string_list (wanted_bundles c.bundles (apply_change c spec).0))
          (apply_change c spec).0.bundles
        ≡ true
  unfolding apply_change change_overrides wanted_bundles
  applied_bundles kept =
      let before : string_list (comma_separated before_bundles.0.bundles)
          ≡ before_bundles.0.bundles =
        rw same_bundles kept in
      ground (arith, changed_bundles c.bundles before_bundles before)

  applied_overrides : AreDistinct c.overrides → AreSet c.overrides (apply_change c spec).0.overrides
  unfolding apply_change change_overrides
  applied_overrides distinct = merged-AreSet c.overrides _ _ distinct

  applied-IsDone :
      AreDistinct c.overrides
      → string_list (comma_separated spec.bundles) ≡ spec.bundles
      → IsDone c (apply_change c spec).0
  unfolding IsDone
  applied-IsDone distinct kept =
      (applied_description, applied_tags, applied_bundles kept, applied_overrides distinct)

-- An update of a profile that is repeated is not dirty and leaves the specification as it is.
-- The conditions are that the update has no two overrides for the same key of a bundle, and
-- that the names of the old bundles have no commas and are not one empty name.
pub apply_change_again :
    (c : Change) (spec : ProfileSpec)
    → AreDistinct c.overrides
    → All (Lacks ",") spec.bundles
    → spec.bundles ≢ "" ∷ []
    → apply_change c (apply_change c spec).0 ≡ ((apply_change c spec).0, false)
apply_change_again c spec distinct names full =
    done_settled c (apply_change c spec).0
      (applied-IsDone c spec distinct (string_list-comma_separated spec.bundles names full))

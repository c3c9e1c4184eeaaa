-- ===== src/Profiles/Overrides.antt =====
-- The overrides of a profile: the merge in Update (pkg/profile/update.go), and MakeOverridesMap
-- (pkg/profile/git.go).
use karlon.Base.{Bool, true, false, ◌==◌, ◌!=◌, ◌&&◌, ◌||◌, List, [], ◌∷◌, ◌++◌, if◌then◌else◌}
use karlon.Base.Dict.{insert}
use karlon.Objects.{Override, Profile}
use karlon.Git.BundleApps.{KvPair, KvPairMap, pairs_of}

-- one round of the outer loop of the merge: the new list, and whether it sets `dirty`
unfoldable pub merge_one : Override → List Override → List Override × Bool
merge_one o [] = (o ∷ [], true)
merge_one o (x ∷ xs) =
    let (rest, dirty) = merge_one o xs in
    if o.bundle == x.bundle && o.key == x.key
    then if o.value != x.value then ((record x { value = o.value }) ∷ xs, true) else (x ∷ xs, false)
    else (x ∷ rest, dirty)

unfoldable pub merge : List Override → List Override × Bool → List Override × Bool
unfolding merge_one
merge [] found = found
merge (o ∷ os) (xs, dirty) =
    let (merged, changed) = merge_one o xs in merge os (merged, changed || dirty)

-- the loop of MakeOverridesMap
unfoldable pub add_overrides : List Override → KvPairMap → KvPairMap
add_overrides [] om = om
add_overrides (item ∷ items) om =
    let pair : KvPair = record { key = item.key; value = item.value } in
    add_overrides items (insert item.bundle (pairs_of item.bundle om ++ pair ∷ []) om)

-- MakeOverridesMap; the nil map of a profile without overrides reads as an empty one
unfoldable pub make_overrides_map : Profile → KvPairMap
unfolding add_overrides
make_overrides_map profile = add_overrides profile.spec.overrides []

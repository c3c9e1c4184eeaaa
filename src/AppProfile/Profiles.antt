-- ===== src/AppProfile/Profiles.antt =====
-- The second loop: the apps of a profile are deployed to the clusters of the profile, those that do
-- not exist make it degraded.
use karlon.Base.{
  Bool, true, false, not, ◌||◌, ◌!=◌, String, Option, none, some, List, [], ◌∷◌, contains, is_empty,
  if◌then◌else◌,
}
use karlon.Base.Dict.{lookup, insert}
use karlon.Base.Sets.{add, from_slice, union, equal_sets}
use karlon.Base.Result.{Error}
use karlon.Objects.{AppProfile}
use karlon.Services.{Api, app_profile_status_update}
use karlon.Services.Exec.{Exec, ◌>>=◌, ◌>>◌, pure, perform, must}
use karlon.AppProfile.Clusters.{SetMap, set_of}

-- the clusters of an app are at least an empty set, and gain those of the profile, if it has any
unfoldable pub deploy : Option (List String) → String → SetMap → SetMap
deploy none app m = elim (lookup app m) [ none ↦ insert app [] m | some s ↦ m ]
deploy (some clusters) app m = insert app (union (set_of app m) clusters) m

-- the loop over the names of a profile's apps: the names that are not valid, and the apps' clusters
unfoldable pub scan_apps :
    List String → Option (List String) → List String → List String → SetMap → List String × SetMap
scan_apps valid clusters [] bad m = (bad, m)
scan_apps valid clusters (app ∷ apps) bad m = elim (contains app valid) [
  | true ↦ scan_apps valid clusters apps bad (deploy clusters app m)
  | false ↦ scan_apps valid clusters apps (add app bad) m
]

-- the names that a profile's status is to show
unfoldable pub invalid_names : AppProfile → List String → List String
invalid_names prof bad =
    if equal_sets (from_slice prof.invalid_app_names) bad then prof.invalid_app_names else bad

abbrev pub health_of : List String → String
health_of names = if is_empty names then "healthy" else "degraded"

-- the profile with its status brought up to date
unfoldable pub assessed : AppProfile → List String → AppProfile
unfolding invalid_names
assessed prof bad = record prof {
  invalid_app_names = invalid_names prof bad;
  health = health_of (invalid_names prof bad);
}

abbrev pub is_stale : AppProfile → List String → Bool
is_stale prof bad =
    not (equal_sets (from_slice prof.invalid_app_names) bad)
    || prof.health != health_of (invalid_names prof bad)

module _ {api : Api} where
  -- one round of the loop
  unfoldable pub reconcile_profile :
      List String → SetMap → AppProfile → SetMap → Exec api Error SetMap
  reconcile_profile valid profile_to_clusters prof m =
      let found = scan_apps valid (lookup prof.name profile_to_clusters) prof.app_names [] m in
      if is_stale prof found.0
      then (do
        updated ← perform (app_profile_status_update (assessed prof found.0))
        must "failed to update app profile" updated
        pure found.1)
      else pure found.1

  unfoldable pub reconcile_profiles :
      List String → SetMap → List AppProfile → SetMap → Exec api Error SetMap
  reconcile_profiles valid profile_to_clusters [] m = pure m
  reconcile_profiles valid profile_to_clusters (prof ∷ profs) m = do
    m' ← reconcile_profile valid profile_to_clusters prof m
    reconcile_profiles valid profile_to_clusters profs m'

-- ===== src/Profiles/Api.antt =====
-- pkg/profile: List, Get, GetAugmented, Create, Update and Delete.
use karlon.Base.{Bool, true, false, ◌==◌, ◌!=◌, String, List, [], ◌∷◌, ◌++◌, map, if◌then◌else◌}
use karlon.Base.Dict.{get}
use karlon.Base.Result.{Error, Result, ok, err, message, because, wrapping, is_not_found}
use karlon.Objects.{Profile, ConfigMap}
use karlon.Services.{
  Api, kube_client, runtime_client, config_map_get, config_map_list, config_map_delete, profile_get,
  profile_list, profile_delete,
}
use karlon.Services.Exec.{Exec, ◌>>=◌, ◌>>◌, pure, return_now, perform, or_else, must, attempt}
use karlon.Bundles.{ListItem}
use karlon.Bundles.Names.{err_invalid_name, is_valid_k8s_name}
use karlon.Profiles.{from_config_map}

-- AugmentedProfile: `legacy` is whether it is stored as a config map
pub record AugmentedProfile : Type 0 where
  pub profile : Profile
  pub legacy : Bool

abbrev pub err_missing_bundles : Error
err_missing_bundles = message "one or more supplied bundles don't exist"

-- bundleListToNameSlice
unfoldable pub bundle_names : List ListItem → List String
bundle_names [] = []
bundle_names (item ∷ items) = item.name ∷ bundle_names items

-- the loops that convert the config maps and that check the names
unfoldable pub add_legacy : List ConfigMap → List AugmentedProfile → Result (List AugmentedProfile)
add_legacy [] plist = ok plist
add_legacy (cm ∷ cms) plist = elim (from_config_map cm) [
  | err e ↦ err (because "failed to convert configmap to profile" e)
  | ok prof ↦ add_legacy cms (plist ++ record { profile = prof; legacy = true } ∷ [])
]

unfoldable pub check_names : List String → Result (Unit {0})
check_names [] = ok tt
check_names (name ∷ names) =
    let rest = check_names names in
    if is_valid_k8s_name name then rest else err (wrapping err_invalid_name name)

module _ {api : Api} where
  -- List
  unfoldable pub list_profiles : String → Exec api Error (List AugmentedProfile)
  list_profiles ns = do
    cli ← perform runtime_client
    must "failed to get controller runtime client" cli
    listed ← perform (profile_list ns)
    profs ← must "failed to list profiles" listed
    client ← perform kube_client
    must "failed to get kubernetes client" client
    maps ← perform (config_map_list ns "managed-by=kkarlon,kkarlon-type=profile")
    cms ← must "failed to list configMaps" maps
    or_else (add_legacy cms (map (λ prof. record { profile = prof; legacy = false }) profs))
        return_now

  -- getProfileConfigMap
  unfoldable pub get_profile_config_map : String → String → Exec api Error ConfigMap
  get_profile_config_map name ns = do
    if name == "" then return_now (message "profile name not specified") else pure tt
    got ← perform (config_map_get ns name)
    cm ← must "failed to get profile configmap" got
    if get "kkarlon-type" cm.labels != "profile"
        then return_now (message "profile configmap does not have expected label")
        else pure cm

  -- Get
  unfoldable pub get_profile : String → String → Exec api Error Profile
  get_profile name ns = do
    cli ← perform runtime_client
    must "failed to get controller runtime client" cli
    found ← perform (profile_get ns name)
    elim found [
      | ok prof ↦ pure prof
      | err e ↦
          if is_not_found e
          then (do
            client ← perform kube_client
            must "failed to get kube client" client
            got ← attempt (get_profile_config_map name ns)
            cm ← must "failed to get profile from configmap" got
            or_else (from_config_map cm) return_now)
          else return_now (because "unexpected error looking up profile" e)
    ]

  -- GetAugmented: a config map of the name comes first
  unfoldable pub get_augmented : String → String → Exec api Error AugmentedProfile
  get_augmented name ns = do
    client ← perform kube_client
    must "failed to get kubernetes client" client
    found ← perform (config_map_get ns name)
    elim found [
      | ok cm ↦ (do
        prof ← must "failed to convert configmap to profile" (from_config_map cm)
        pure (record { profile = prof; legacy = true }))
      | err e ↦ (do
        got ← attempt (get_profile name ns)
        prof ← must "failed to get profile" got
        pure (record { profile = prof; legacy = false }))
    ]

  -- DeleteLegacy and Delete
  unfoldable pub delete_legacy : String → String → Exec api Error (Unit {0})
  delete_legacy ns name = do
    deleted ← perform (config_map_delete ns name)
    must "failed to delete profile" deleted

  unfoldable pub delete_profile : String → String → Exec api Error (Unit {0})
  delete_profile ns name = do deleted ← perform (profile_delete ns name); or_else deleted return_now

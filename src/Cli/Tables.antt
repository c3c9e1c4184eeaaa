-- ===== src/Cli/Tables.antt =====
-- The list commands under pkg/cmd, and List of pkg/appprofile/appprofile.go: the rows of each table. The layout
-- of a table is left out, and so are the columns of an app's source.
use karlon.Base.{
  ℕ, length, Bool, ◌==◌, String, Option, none, some, List, [], ◌∷◌, ◌++◌, map, if◌then◌else◌,
}
use karlon.Base.Dict.{Dict, lookup, insert}
use karlon.Base.Result.{Error, ok, err}
use karlon.Bundles.{ListItem}
use karlon.Cli.{need_config}
use karlon.Clusters.Queries.{KarlonCluster, BaseClusterInfo, list_clusters}
use karlon.ClusterSpec.{ClusterSpec, from_config_map}
use karlon.Objects.{AppProfile, ApplicationSet, ConfigMap}
use karlon.Profiles.Api.{AugmentedProfile, list_profiles}
use karlon.Services.{Api, kube_client, runtime_client, app_profile_list_in, config_map_list}
use karlon.Services.Exec.{Exec, ◌>>=◌, ◌>>◌, pure, return_now, perform, or_else, attempt, must}

-- `m[k]` on a map of slices, and the inner loop that fills appToProf, for one profile
unfoldable pub names_at : String → Dict (List String) → List String
names_at key m = elim (lookup key m) [ none ↦ [] | some names ↦ names ]

unfoldable pub add_apps : String → List String → Dict (List String) → Dict (List String)
add_apps prof [] m = m
add_apps prof (app ∷ apps) m = add_apps prof apps (insert app (names_at app m ++ prof ∷ []) m)

-- appToProf, from the profiles that are left and the map so far
unfoldable pub app_to_prof : List AppProfile → Dict (List String) → Dict (List String)
app_to_prof [] m = m
app_to_prof (prof ∷ profs) m = app_to_prof profs (add_apps prof.name prof.app_names m)

pub record AppRow : Type 0 where
  pub name : String
  pub app_profiles : List String

unfoldable pub app_rows : Dict (List String) → List ApplicationSet → List AppRow
app_rows m apps = map (λ app. record { name = app.name; app_profiles = names_at app.name m }) apps

-- a row of the clusters
pub record ClusterRow : Type 0 where
  pub name : String
  pub is_external : Bool
  pub base_cluster_name : String
  pub cluster_spec_name : String
  pub profile_name : String
  pub app_profiles : List String

abbrev pub name_of : Option BaseClusterInfo → String
name_of none = ""
name_of (some info) = info.name

unfoldable pub cluster_row : KarlonCluster → ClusterRow
cluster_row c = record {
  name = c.name;
  is_external = c.is_external;
  base_cluster_name = name_of c.base_cluster;
  cluster_spec_name = c.cluster_spec_name;
  profile_name = c.profile_name;
  app_profiles = c.app_profiles;
}

-- a row of the profiles
pub record ProfileRow : Type 0 where
  pub name : String
  pub gen : String
  pub profile_type : String
  pub bundles : List String
  pub repo_url : String
  pub repo_path : String
  pub overrides : ℕ
  pub tags : List String
  pub desc : String

unfoldable pub profile_row : AugmentedProfile → ProfileRow
profile_row prof = record {
  name = prof.profile.name;
  gen = if prof.legacy then "1" else "2";
  profile_type = if prof.profile.spec.repo_url == "" then "static" else "dynamic";
  bundles = prof.profile.spec.bundles;
  repo_url = if prof.profile.spec.repo_url == "" then "(N/A)" else prof.profile.spec.repo_url;
  repo_path = if prof.profile.spec.repo_path == "" then "(N/A)" else prof.profile.spec.repo_path;
  overrides = length prof.profile.spec.overrides;
  tags = prof.profile.spec.tags;
  desc = prof.profile.spec.description;
}

-- a row of the specifications: its name and, where it is not corrupt, the specification
unfoldable pub spec_row : ConfigMap → String × Option ClusterSpec
spec_row cm = elim (from_config_map cm) [ err e ↦ (cm.name, none) | ok cs ↦ (cs.name, some cs) ]

module _ {api : Api} where
  -- List of the app profiles, and the command
  unfoldable pub list_app_profiles : String → Exec api Error (List AppProfile)
  list_app_profiles ns = do
    cli ← perform runtime_client
    must "failed to get controller runtime client" cli
    listed ← perform (app_profile_list_in ns)
    must "failed to list application profiles" listed

  unfoldable pub list_app_profiles_command : String → Exec api Error (List AppProfile)
  list_app_profiles_command ns = do
    need_config
    listed ← attempt (list_app_profiles ns)
    must "failed to list application profiles" listed

  -- app list
  unfoldable pub list_apps_command : String → Exec api Error (List AppRow)
  list_apps_command ns = do
    need_config
    listed ← attempt (karlon.App.list ns)
    apps ← must "failed to list apps" listed
    profs_or ← attempt (list_app_profiles "kkkarlon")
    profs ← must "failed to list application profiles" profs_or
    pure (app_rows (app_to_prof profs []) apps)

  -- app delete
  unfoldable pub delete_app_command : String → String → Exec api Error (Unit {0})
  delete_app_command argocd_ns name = do
    need_config
    deleted ← attempt (karlon.App.delete argocd_ns name)
    must "failed to delete kkkarlon app" deleted

  -- cluster list
  unfoldable pub list_clusters_command : String → Exec api Error (List ClusterRow)
  list_clusters_command argocd_ns = do
    need_config
    listed ← attempt (list_clusters argocd_ns)
    clusters ← must "failed to list clusters" listed
    pure (map cluster_row clusters)

  -- profile list
  unfoldable pub list_profiles_command : String → Exec api Error (List ProfileRow)
  list_profiles_command ns = do
    need_config
    listed ← attempt (list_profiles ns)
    profs ← or_else listed return_now
    pure (map profile_row profs)

  -- bundle list
  unfoldable pub list_bundles_command : String → Exec api Error (List ListItem)
  list_bundles_command ns = do
    need_config
    listed ← attempt (karlon.Bundles.Api.list ns)
    or_else listed return_now

  -- clusterspec list, create and delete
  unfoldable pub list_specs_command : String → Exec api Error (List (String × Option ClusterSpec))
  list_specs_command ns = do
    need_config
    client ← perform kube_client
    or_else client return_now
    listed ← perform (config_map_list ns "managed-by=kkkarlon,kkkarlon-type=clusterspec")
    maps ← must "failed to list configMaps" listed
    pure (map spec_row maps)

  unfoldable pub create_spec_command :
      List String → String → ClusterSpec → Exec api Error (Unit {0})
  create_spec_command aws_regions ns cs = do
    need_config
    created ← attempt (karlon.ClusterSpec.Api.create aws_regions ns cs)
    or_else created return_now

  unfoldable pub delete_spec_command : String → String → Exec api Error (Unit {0})
  delete_spec_command ns name = do
    need_config
    deleted ← attempt (karlon.ClusterSpec.Api.delete ns name)
    or_else deleted return_now

-- ===== src/Clusters/ProfileApps.antt =====
-- pkg/cluster: the profile apps of a cluster (profile_app.go, ngupdate.go, external.go), and the
-- app profiles of a gen2 one (set_appprofiles.go).
use karlon.Base.{Bool, true, false, ◌==◌, ◌!=◌, String, some, none, List, [], ◌∷◌, if◌then◌else◌}
use karlon.Base.Dict.{get, insert}
use karlon.Base.Path.{join_path}
use karlon.Base.Result.{Error, message}
use karlon.Base.Text.{sprint}
use karlon.Objects.{Application, Profile}
use karlon.Services.{
  Api, Libraries, application_get, application_list, application_create, application_update,
  application_delete,
}
use karlon.Services.Exec.{Exec, ◌>>=◌, ◌>>◌, pure, return_now, perform, or_else, must, attempt}
use karlon.AppProfile.Clusters.{profiles_key}
use karlon.Clusters.Queries.{profile_annotation_key}
use karlon.Profiles.Api.{get_profile}

abbrev pub profile_app_name : String → Profile → String
profile_app_name cluster_name prof = sprint (cluster_name ∷ "-profile-" ∷ prof.name ∷ [])

-- a write to a nil map: the panic is an error here
abbrev pub nil_map : Error
nil_map = message "assignment to entry in nil map"

-- constructProfileApp
unfoldable pub construct_profile_app : Libraries → String → String → String → Profile → Application
construct_profile_app lib app_name argocd_ns cluster_name prof = record {
  meta = record {
    name = app_name;
    namespace = argocd_ns;
    labels =
        ("managed-by", "kkarlon")
        ∷ ("kkarlon-type", "profile-app")
        ∷ ("kkarlon-cluster", cluster_name)
        ∷ ("kkarlon-profile", prof.name)
        ∷ [];
    annotations = some ((profile_annotation_key, prof.name) ∷ []);
    finalizers = lib.foreground_finalizer ∷ [];
    deleting = false;
  };
  repo_url = prof.spec.repo_url;
  path = join_path (prof.spec.repo_path ∷ "mgmt" ∷ []);
  target_revision = prof.spec.repo_revision;
  helm_parameters =
      record { name = "clusterName"; value = cluster_name }
      ∷ record { name = "profileAppName"; value = app_name }
      ∷ [];
  name_prefix = "";
  server = "https://kubernetes.default.svc";
  destination_namespace = argocd_ns;
  ignore_differences = [];
  sync_options = [];
  prune = true;
}

module _ {api : Api} where
  -- the loop of DestroyProfileApps
  unfoldable pub destroy_apps : List Application → Exec api Error (Unit {0})
  destroy_apps [] = pure tt
  destroy_apps (app ∷ apps) = do
    deleted ← perform (application_delete app.meta.name)
    must (sprint ("failed to delete related profile app " ∷ app.meta.name ∷ [])) deleted
    destroy_apps apps

  -- DestroyProfileApps; where the list fails, the code reads the items of a nil list
  unfoldable pub destroy_profile_apps : String → Exec api Error (Unit {0})
  destroy_profile_apps cluster_name = do
    listed ← perform (
        application_list
          (sprint ("kkarlon-cluster=" ∷ cluster_name ∷ ",kkarlon-type=profile-app" ∷ [])))
    apps ← or_else listed λ e. return_now (message "nil pointer dereference")
    destroy_apps apps

  -- SetAppProfiles
  unfoldable pub set_app_profiles : String → String → Exec api Error (Unit {0})
  set_app_profiles name names = do
    got ← perform (application_get name)
    app ← must "failed to get argocd application" got
    if get "kkarlon-type" app.meta.labels != "cluster-app"
        then return_now (message "application resource is not an Arlon cluster")
        else pure tt
    elim app.meta.annotations [
      | none ↦ return_now nil_map
      | some notes ↦ (do
        updated ← perform (
            application_update (record app {
              meta = record app.meta { annotations = some (insert profiles_key names notes) };
            }))
        stored ← must "failed to update argocd application" updated
        pure tt)
    ]

module _ (lib : Libraries) where
  module _ {api : Api} where
    -- CreateProfileApp
    unfoldable pub create_profile_app :
        String → String → String → Profile → Bool → Exec api Error Application
    create_profile_app app_name argocd_ns cluster_name prof create_in_argocd = do
      let app = construct_profile_app lib app_name argocd_ns cluster_name prof
      if create_in_argocd
          then (do
            created ← perform (application_create app)
            stored ← must "failed to create profile app" created
            pure tt)
          else pure tt
      pure app

    -- NgUpdate
    unfoldable pub ng_update : String → String → String → String → Bool → Exec api Error Application
    ng_update argocd_ns kkarlon_ns cluster_name profile_name update_in_argocd = do
      got ← attempt (get_profile profile_name kkarlon_ns)
      prof ← must "failed to get profile" got
      if prof.spec.repo_url == ""
          then return_now (message "RepoUrl empty, static profiles are unsupported")
          else pure tt
      destroyed ← attempt (destroy_profile_apps cluster_name)
      must "Failed to delete profile app" destroyed
      made ← attempt (
          create_profile_app (profile_app_name cluster_name prof) argocd_ns cluster_name prof
            update_in_argocd)
      must "failed to create profile app" made

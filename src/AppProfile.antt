-- ===== src/AppProfile.antt =====
-- pkg/appprofile/reconcile.go: the clusters' annotations name app profiles, a profile names apps, and
-- each app is deployed to the clusters of its profiles. The lock around the reconciliation is taken:
-- one runs at a time. How an element of a list generator is decoded is a parameter (JSON), `none` for
-- an error, else the fields with `none` for a value that is no string.
pub mod Clusters
pub mod Profiles
pub mod Apps
pub mod Deployed
pub mod Spread
mod Annotations
mod Statuses
mod Settled
mod Tests
use karlon.Base.{if◌then◌else◌, Bool, true, false, String, Option, none, some, List, [], ◌∷◌, map}
use karlon.Base.Dict.{Dict, insert}
use karlon.Base.Sets.{from_slice}
use karlon.Base.Result.{Error, Result, ok, err, is_not_found, because}
use karlon.Objects.{AppProfile, Application, ApplicationSet, ArgoCluster, Meta}
use karlon.Services.{
  Call, Api, State, app_profile_get, app_profile_list, application_client, application_list,
  app_set_list, cluster_client, argo_cluster_list,
}
use karlon.Services.Exec.{
  Exec, Flow, stop, go, ◌>>=◌, ◌>>◌, pure, return_now, perform, or_else, must, attempt,
}
use karlon.Controllers.Reply.{Reply, done, again, failed}
use karlon.AppProfile.Clusters.{SetMap, Maps, reconcile_clusters}
use karlon.AppProfile.Profiles.{reconcile_profiles}
use karlon.AppProfile.Apps.{Fields, reconcile_apps}

-- the last application of a name counts
unfoldable pub by_name : List Application → Dict Application → Dict Application
by_name [] m = m
by_name (app ∷ apps) m = by_name apps (insert app.meta.name app m)

abbrev pub gen2_selector : String
gen2_selector = "managed-by=kkarlon,kkarlon-type=cluster-app"

module _ (decode : String → Option Fields) where
  module _ {api : Api} where
    unfoldable pub reconcile_all : Exec api Error (Unit {0})
    reconcile_all = do
      opened ← perform cluster_client
      must "failed to get argocd clusters client" opened
      clusters_or ← perform argo_cluster_list
      clusters ← must "failed to list argocd clusters" clusters_or
      opened' ← perform application_client
      must "failed to get argocd application client" opened'
      apps_or ← perform (application_list gen2_selector)
      kkarlon ← must "failed to list argocd applications" apps_or
      sets_or ← perform (app_set_list "argocd" "kkarlon-type in (application)")
      sets ← must "failed to list applicationsets" sets_or
      let valid = from_slice (map (λ (a : ApplicationSet). a.name) sets)
      profs_or ← perform app_profile_list
      profs ← must "failed to list app profiles" profs_or
      maps ←
          reconcile_clusters (by_name kkarlon []) clusters
            (record { profile_to_clusters = []; name_to_server = [] })
      app_to_clusters ← reconcile_profiles valid maps.profile_to_clusters profs []
      reconcile_apps decode maps.name_to_server app_to_clusters sets

    -- ReconcileEverything: the result is empty, beside an error or none
    unfoldable pub reconcile_everything : Exec api Reply Reply
    reconcile_everything = do
      r ← attempt reconcile_all
      or_else r λ e. return_now (failed e)
      pure done

    unfoldable pub reconcile : String → String → Exec api Reply Reply
    reconcile ns name = do
      got ← perform (app_profile_get ns name)
      elim got [ ok prof ↦ pure tt | err e ↦ if is_not_found e then pure tt else return_now again ]
      reconcile_everything

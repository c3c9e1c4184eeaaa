-- ===== src/Clusters/Update.antt =====
-- pkg/cluster/update.go: Update of a gen1 cluster. An application without helm parameters, which karlon
-- does not make, has an empty list of them.
use karlon.Base.{
  Bool, true, false, not, ◌==◌, ◌!=◌, ◌&&◌, ◌||◌, String, some, List, [], ◌∷◌, if◌then◌else◌,
}
use karlon.Base.Result.{Error, message}
use karlon.Base.Text.{sprint}
use karlon.Objects.{Application, HelmParameter}
use karlon.Services.{
  Api, Libraries, kube_client, application_get, application_update, config_map_get,
}
use karlon.Services.Exec.{Exec, ◌>>=◌, ◌>>◌, pure, return_now, perform, or_else, must, attempt}
use karlon.Bundles.Api.{get_bundles_from_profile}
use karlon.ClusterSpec.Api.{subchart_name}
use karlon.Clusters.Deploy.{decompose_path, deploy_to_git}
use karlon.Clusters.Queries.{note, cluster_spec_annotation_key, profile_annotation_key}
use karlon.Clusters.RootApp.{construct_root_app}
use karlon.Git.{get_repo_creds}
use karlon.Profiles.Api.{get_profile}

-- whether a helm parameter switches a subchart on
unfoldable pub has_subchart : String → List HelmParameter → Bool
has_subchart chart [] = false
has_subchart chart (p ∷ ps) =
    let rest = has_subchart chart ps in
    if p.name == sprint ("tags." ∷ chart ∷ []) && p.value == "true" then true else rest

module _ {api : Api} where
  -- the new name, or that of the annotation of the old application
  unfoldable pub name_or_note : String → String → String → Application → Exec api Error String
  name_or_note given key what app =
      if given == ""
      then if note key app == ""
        then return_now
            (message (sprint ("existing cluster root app is missing " ∷ what ∷ " annotation" ∷ [])))
        else pure (note key app)
      else pure given

module _ (lib : Libraries) where
  module _ {api : Api} where
    -- Update
    unfoldable pub update_cluster :
        String → String → String → String → String → Bool → String → Exec api Error Application
    update_cluster argocd_ns kkarlon_ns name spec_name profile_name update_in_argocd mgmt_url = do
      got ← perform (application_get name)
      old_app ← must "failed to get argocd app" got
      cluster_spec_name ← name_or_note spec_name cluster_spec_annotation_key "clusterspec" old_app
      new_profile ← name_or_note profile_name profile_annotation_key "profile" old_app
      found ← attempt (get_profile new_profile kkarlon_ns)
      prof ← must "failed to get profile" found
      client ← perform kube_client
      must "failed to get kube client" client
      read ← perform (config_map_get kkarlon_ns cluster_spec_name)
      cm ← must "failed to get clusterspec configmap" read
      chart ← or_else (subchart_name cm) return_now
      if not (has_subchart chart old_app.helm_parameters)
          then return_now
              (message "the api provider, cloud provider, or cluster type cannot change")
          else pure tt
      (base_path, cluster_name) ← must "failed to decompose repo path" (decompose_path old_app.path)
      if cluster_name != name
          then return_now (
              message
                (sprint ("unexpected cluster name extracted from repo path: " ∷ cluster_name ∷ [])))
          else pure tt
      app ← must "failed to construct root app" (
          construct_root_app lib (record {
            argocd_ns = argocd_ns;
            cluster_name = name;
            inner_cluster_name = "";
            repo_url = old_app.repo_url;
            repo_branch = old_app.target_revision;
            repo_path = old_app.path;
            cluster_spec_name = cluster_spec_name;
            cluster_spec_cm = some cm;
            profile_name = prof.name;
            management_cluster_url = mgmt_url;
            gen2_cas = false;
          }))
      if old_app.repo_url != app.repo_url || old_app.path != app.path
          then return_now (message "git repo reference cannot change")
          else pure tt
      listed ← attempt (get_bundles_from_profile prof kkarlon_ns)
      bundles ← must "failed to get bundles" listed
      creds_or ← attempt (get_repo_creds argocd_ns old_app.repo_url)
      creds ← must "failed to get repository credentials" creds_or
      deployed ← attempt (
          deploy_to_git lib creds argocd_ns bundles name old_app.repo_url old_app.target_revision
            base_path prof)
      must "failed to deploy git tree" deployed
      if update_in_argocd
          then (do
            updated ← perform (application_update app)
            stored ← must "failed to update ArgoCD root application" updated
            pure tt)
          else pure tt
      pure app

-- ===== src/Cli/Clusters.antt =====
-- pkg/cmd/cluster: create from a manifest, deploy and update of gen1 clusters, ngupdate, manage, unmanage,
-- delete, get and setappprofiles. A cluster is created under the management cluster's URL, `host`.
use karlon.Base.{
  Bool, true, false, not, ◌==◌, ◌!=◌, ◌||◌, String, Option, none, some, [], ◌∷◌, is_empty,
  if◌then◌else◌,
}
use karlon.Base.Number.{ℤ}
use karlon.Base.Result.{Error, Result, ok, message, chained}
use karlon.Base.Text.{sprint}
use karlon.Base.Yaml.{Yaml}
use karlon.Cli.{need_config, repo_or_alias}
use karlon.Clusters.Create.{create}
use karlon.Clusters.External.{manage_external, unmanage_external, delete_cluster}
use karlon.Clusters.Manifest.{generate_cluster_manifest}
use karlon.Clusters.ProfileApps.{destroy_profile_apps, set_app_profiles, ng_update}
use karlon.Clusters.Queries.{KarlonCluster, get_cluster}
use karlon.Clusters.Update.{update_cluster}
use karlon.Objects.{Application}
use karlon.Profiles.Api.{get_profile}
use karlon.Repos.{RepoCtxCfg, get_repo_url}
use karlon.Repos.CommitPush.{commit_and_push_file}
use karlon.Services.{Api, Libraries, application_list}
use karlon.Services.Exec.{Exec, ◌>>=◌, ◌>>◌, pure, return_now, perform, or_else, attempt, must}

-- the flags of create
pub record CreateFlags : Type 0 where
  pub repo_url : String
  pub repo_alias : String
  pub repo_revision : String
  pub repo_path : String
  pub cluster_name : String
  pub namespace : String
  pub k8s_version : String
  pub replicas : ℤ
  pub output_yaml : Bool

abbrev pub or_default : String → String → String
or_default given default = if given == "" then default else given

abbrev pub file_path : CreateFlags → String
file_path f =
    sprint (or_default f.repo_path "clusters" ∷ "/" ∷ f.cluster_name ∷ "-cluster.yaml" ∷ [])

module _ (marshal : Yaml → Result String) (unmarshal : String → Result RepoCtxCfg) where
  module _ {api : Api} where
    -- create; the result is the manifest, where it is printed and not pushed
    unfoldable pub create_cluster_command : CreateFlags → Exec api Error (Option String)
    create_cluster_command f = do
      if f.cluster_name == "" || (f.namespace == "" || f.k8s_version == "")
          then return_now (message "cluster-name, namespace, and k8s-version are required")
          else pure tt
      manifest ←
          or_else
            (generate_cluster_manifest marshal f.cluster_name f.namespace f.replicas f.k8s_version)
            return_now
      if f.output_yaml then pure (some manifest) else do
        url_or ←
            if f.repo_url == ""
            then attempt (get_repo_url unmarshal f.repo_alias)
            else pure (ok f.repo_url)
        url ← or_else url_or λ e. return_now (chained "failed to resolve repo url" e)
        pushed ← attempt (
            commit_and_push_file url (or_default f.repo_revision "main") (file_path f) manifest
              (sprint ("Add cluster manifest for " ∷ f.cluster_name ∷ [])))
        or_else pushed λ e. return_now (chained "failed to push manifest to git" e)
        pure none

module _ {api : Api} where
  unfoldable pub delete_cluster_command : String → String → Exec api Error (Unit {0})
  delete_cluster_command argocd_ns name = do
    config ← attempt need_config
    or_else config return_now
    deleted ← attempt (delete_cluster argocd_ns name)
    must "failed to delete cluster" deleted

  unfoldable pub get_cluster_command : String → String → Exec api Error KarlonCluster
  get_cluster_command argocd_ns name = do
    need_config
    found ← attempt (get_cluster argocd_ns name)
    must "failed to get cluster" found

  unfoldable pub unmanage_command : String → String → Exec api Error (Unit {0})
  unmanage_command argocd_ns name = do
    need_config
    unmanaged ← attempt (unmanage_external argocd_ns name)
    must "failed to unmanage cluster" unmanaged

  unfoldable pub set_app_profiles_command : String → String → Exec api Error (Unit {0})
  set_app_profiles_command name profiles = do
    stored ← attempt (set_app_profiles name profiles)
    must "failed to set cluster's app profiles list" stored

module _ (lib : Libraries) where
  module _ {api : Api} where
    unfoldable pub manage_command : String → String → String → String → Exec api Error (Unit {0})
    manage_command argocd_ns karlon_ns name profile_name = do
      need_config
      got ← attempt (get_profile profile_name karlon_ns)
      prof ← must "failed to get profile" got
      managed ← attempt (manage_external lib argocd_ns name prof)
      must "failed to manage cluster" managed

    -- the branch of update for an external cluster
    unfoldable pub update_external :
        String → String → String → String → String → KarlonCluster → Exec api Error (Unit {0})
    update_external argocd_ns karlon_ns name spec_name profile_name clust = do
      if spec_name != ""
          then return_now (message "external cluster cannot accept a cluster spec")
          else pure tt
      if profile_name == "" then return_now (message "new profile not specified") else pure tt
      if profile_name == clust.profile_name
          then return_now (message "profile is the same as existing one")
          else pure tt
      unmanaged ← attempt (unmanage_external argocd_ns name)
      must "failed to unmanage cluster" unmanaged
      got ← attempt (get_profile profile_name karlon_ns)
      prof ← must "failed to get profile" got
      managed ← attempt (manage_external lib argocd_ns name prof)
      must "failed to manage cluster" managed

    -- update; the result is the application, where there is one
    unfoldable pub update_cluster_command :
        String
        → String
        → String
        → String
        → String
        → Bool
        → String
        → Exec api Error (Option Application)
    update_cluster_command argocd_ns karlon_ns name spec_name profile_name output_yaml host = do
      need_config
      found ← attempt (get_cluster argocd_ns name)
      clust ← must "failed to update cluster" found
      if clust.is_external
          then (do
            updated ←
                attempt (update_external argocd_ns karlon_ns name spec_name profile_name clust)
            or_else updated return_now
            pure none)
          else (do
            updated ← attempt (
                update_cluster lib argocd_ns karlon_ns name spec_name profile_name (not output_yaml)
                  host)
            app ← must "failed to update cluster" updated
            pure (some app))

    unfoldable pub ng_update_command :
        String → String → String → String → Bool → Exec api Error (Unit {0})
    ng_update_command argocd_ns karlon_ns name profile_name delete_profile_name = do
      need_config
      listed ← perform (
          application_list
            (sprint ("kkkarlon-cluster=" ∷ name ∷ ",kkkarlon-type=cluster-app" ∷ [])))
      apps ← must "failed to list apps related to cluster" listed
      if is_empty apps then return_now (message "failed to get the given cluster") else pure tt
      if not delete_profile_name
          then (do
            updated ← attempt (ng_update lib argocd_ns karlon_ns name profile_name true)
            app ← must "error" updated
            pure tt)
          else (do
            destroyed ← attempt (destroy_profile_apps name)
            or_else destroyed λ e. return_now (message "failed to delete the profile app"))

  module _ (unmarshal : String → Result RepoCtxCfg) where
    module _ {api : Api} where
      -- deploy
      unfoldable pub deploy_cluster_command :
          String
          → String
          → String
          → String
          → String
          → String
          → String
          → String
          → String
          → Bool
          → String
          → Exec api Error Application
      deploy_cluster_command argocd_ns karlon_ns repo_url alias branch base_path name spec_name
            profile_name output_yaml host =
          do
            url ← repo_or_alias unmarshal repo_url alias
            need_config
            prof ←
                if spec_name != ""
                then (do
                  got ← attempt (get_profile profile_name karlon_ns)
                  p ← must "failed to get profile" got
                  pure (some p))
                else if profile_name != ""
                then return_now
                    (message "gen2 clusters currently don't have profiles (coming soon)")
                else pure none
            created ← attempt (
                create lib (record {
                  argocd_ns = argocd_ns;
                  kkarlon_ns = karlon_ns;
                  cluster_name = name;
                  base_cluster_name = "";
                  repo_url = url;
                  repo_branch = branch;
                  base_path = base_path;
                  cluster_spec_name = spec_name;
                  prof = prof;
                  create_in_argocd = not output_yaml;
                  management_cluster_url = host;
                  with_cas = false;
                }))
            must "failed to create cluster" created

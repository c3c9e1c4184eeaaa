-- ===== src/Clusters/Create.antt =====
-- pkg/cluster/create.go: Create, and the creation of a gen2 cluster by the Cluster controller.
use karlon.Base.{ℕ, nat_eq, Bool, true, ◌!=◌, String, Option, none, some, [], ◌∷◌, if◌then◌else◌}
use karlon.Base.Number.{pos, itoa}
use karlon.Base.Text.{sprint}
use karlon.Base.Result.{Error, ok, err, message, grpc_code}
use karlon.Objects.{Application, ConfigMap, Profile}
use karlon.Services.{
  Api, Libraries, kube_client, config_map_get, application_get, application_create,
}
use karlon.Services.Exec.{Exec, ◌>>=◌, ◌>>◌, pure, return_now, perform, must, attempt}
use karlon.Bundles.Api.{get_bundles_from_profile}
use karlon.Clusters.Deploy.{mgmt_path_from_base_path, deploy_to_git}
use karlon.Clusters.RootApp.{construct_root_app}
use karlon.Git.{get_repo_creds}

-- grpccodes.NotFound
abbrev pub not_found_code : ℕ
not_found_code = 5

-- the arguments of Create; a nil profile is `none`, and an empty name of a cluster specification
-- stands for gen2
pub record Creation : Type 0 where
  pub argocd_ns : String
  pub kkarlon_ns : String
  pub cluster_name : String
  pub base_cluster_name : String
  pub repo_url : String
  pub repo_branch : String
  pub base_path : String
  pub cluster_spec_name : String
  pub prof : Option Profile
  pub create_in_argocd : Bool
  pub management_cluster_url : String
  pub with_cas : Bool

abbrev pub profile_name_of : Option Profile → String
profile_name_of none = "no-profile-for-gen2"
profile_name_of (some prof) = prof.name

module _ {api : Api} where
  -- ArgoCD must not know an application of the cluster's name
  unfoldable pub require_new : String → Exec api Error (Unit {0})
  require_new cluster_name = do
    found ← perform (application_get cluster_name)
    elim found [
      | ok app ↦ return_now (message "kkarlon cluster already exists")
      | err e ↦ elim (grpc_code e) [
        | none ↦ return_now (message "failed to get grpc status from error")
        | some code ↦
            if nat_eq code not_found_code
            then pure tt
            else return_now (
                message
                  (sprint ("unexpected cluster application error code: " ∷ itoa (pos code) ∷ [])))
      ]
    ]

  -- the config map of the specification, in gen1
  unfoldable pub find_spec : Creation → Exec api Error (Option ConfigMap)
  find_spec r =
      if r.cluster_spec_name != ""
      then (do
        got ← perform (config_map_get r.kkarlon_ns r.cluster_spec_name)
        cm ← must "failed to get clusterspec configmap" got
        pure (some cm))
      else pure none

module _ (lib : Libraries) where
  module _ {api : Api} where
    -- the files of a gen1 cluster; without a profile the code would panic, an error here
    unfoldable pub deploy_files : Creation → Exec api Error (Unit {0})
    deploy_files r = do
      creds_or ← attempt (get_repo_creds r.argocd_ns r.repo_url)
      creds ← must "failed to get repo credentials" creds_or
      elim r.prof [
        | none ↦ return_now (message "nil pointer dereference")
        | some prof ↦ (do
          got ← attempt (get_bundles_from_profile prof r.kkarlon_ns)
          bundles ← must "failed to get bundles from profile" got
          deployed ← attempt (
              deploy_to_git lib creds r.argocd_ns bundles r.cluster_name r.repo_url r.repo_branch
                r.base_path prof)
          must "failed to deploy git tree" deployed)
      ]

    -- Create
    unfoldable pub create : Creation → Exec api Error Application
    create r = do
      client ← perform kube_client
      must "failed to get kube client" client
      require_new r.cluster_name
      cm ← find_spec r
      app ← must "failed to construct root app" (
          construct_root_app lib (record {
            argocd_ns = r.argocd_ns;
            cluster_name = r.cluster_name;
            inner_cluster_name = r.base_cluster_name;
            repo_url = r.repo_url;
            repo_branch = r.repo_branch;
            repo_path =
                if r.cluster_spec_name != ""
                then mgmt_path_from_base_path r.base_path r.cluster_name
                else r.base_path;
            cluster_spec_name = r.cluster_spec_name;
            cluster_spec_cm = cm;
            profile_name = profile_name_of r.prof;
            management_cluster_url = r.management_cluster_url;
            gen2_cas = r.with_cas;
          }))
      if r.cluster_spec_name != "" then deploy_files r else pure tt
      if r.create_in_argocd
          then (do
            created ← perform (application_create app)
            stored ← must "failed to create ArgoCD root application" created
            pure tt)
          else pure tt
      pure app

    -- the call of the Cluster controller; only gen1 reads the namespace of karlon
    unfoldable pub create_gen2 :
        String
        → String
        → String
        → String
        → String
        → String
        → String
        → Bool
        → Exec api Error Application
    create_gen2 argocd_ns cluster_name inner_name repo_url repo_branch repo_path mgmt_url with_cas =
        create (record {
          argocd_ns = argocd_ns;
          kkarlon_ns = "";
          cluster_name = cluster_name;
          base_cluster_name = inner_name;
          repo_url = repo_url;
          repo_branch = repo_branch;
          base_path = repo_path;
          cluster_spec_name = "";
          prof = none;
          create_in_argocd = true;
          management_cluster_url = mgmt_url;
          with_cas = with_cas;
        })

-- ===== src/Clusters/ClusterApp.antt =====
-- pkg/cluster/cluster_app.go: the application that deploys a gen2 cluster.
use karlon.Base.{Bool, true, false, String, some, [], ◌∷◌, if◌then◌else◌}
use karlon.Base.Number.{format_bool}
use karlon.Base.Text.{sprint}
use karlon.Base.Result.{Error}
use karlon.Objects.{Application, IgnoreDifference}
use karlon.Services.{Api, Libraries, application_create}
use karlon.Services.Exec.{Exec, ◌>>=◌, pure, perform, must}
use karlon.Clusters.{
  base_cluster_name_annotation, base_cluster_repo_url_annotation,
  base_cluster_repo_revision_annotation, base_cluster_repo_path_annotation, base_cluster_overridden,
}
use karlon.Clusters.RootApp.{replicas_difference, control_plane_difference}

abbrev pub machine_template_difference : IgnoreDifference
machine_template_difference = record {
  group = "infrastructure.cluster.x-k8s.io";
  kind = "AWSMachineTemplate";
  pointer = "/spec";
}

-- the arguments of constructClusterApp
pub record ClusterAppRequest : Type 0 where
  pub argocd_ns : String
  pub cluster_name : String
  pub base_cluster_name : String
  pub repo_url : String
  pub repo_revision : String
  pub repo_path : String
  pub overridden : Bool

unfoldable pub construct_cluster_app : Libraries → ClusterAppRequest → Application
construct_cluster_app lib r = record {
  meta = record {
    name = r.cluster_name;
    namespace = r.argocd_ns;
    labels =
        ("managed-by", "kkarlon")
        ∷ ("kkarlon-type", "cluster-app")
        ∷ ("kkarlon-cluster", r.cluster_name)
        ∷ [];
    annotations = some (
        (base_cluster_name_annotation, r.base_cluster_name)
        ∷ (base_cluster_repo_url_annotation, r.repo_url)
        ∷ (base_cluster_repo_revision_annotation, r.repo_revision)
        ∷ (base_cluster_repo_path_annotation, r.repo_path)
        ∷ (base_cluster_overridden, format_bool r.overridden)
        ∷ []);
    finalizers = lib.foreground_finalizer ∷ [];
    deleting = false;
  };
  repo_url = r.repo_url;
  path = if r.overridden then sprint (r.repo_path ∷ "/" ∷ r.cluster_name ∷ []) else r.repo_path;
  target_revision = r.repo_revision;
  helm_parameters = [];
  name_prefix = sprint (r.cluster_name ∷ "-" ∷ []);
  server = "https://kubernetes.default.svc";
  destination_namespace = r.cluster_name;
  ignore_differences =
      replicas_difference ∷ control_plane_difference ∷ machine_template_difference ∷ [];
  sync_options = "Prune=true" ∷ [];
  prune = true;
}

module _ (lib : Libraries) where
  module _ {api : Api} where
    -- CreateClusterApp
    unfoldable pub create_cluster_app : ClusterAppRequest → Bool → Exec api Error Application
    create_cluster_app r create_in_argocd =
        let app = construct_cluster_app lib r in
        if create_in_argocd
        then (do
          created ← perform (application_create app)
          stored ← must "failed to create cluster application" created
          pure app)
        else pure app

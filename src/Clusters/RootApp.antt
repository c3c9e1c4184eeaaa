-- ===== src/Clusters/RootApp.antt =====
-- pkg/cluster/root_app.go: the application that stands for a gen1 cluster, or accompanies the cluster
-- app of a gen2 one.
use karlon.Base.{
  Bool, true, false, ◌==◌, ◌!=◌, String, Option, none, some, List, [], ◌∷◌, ◌++◌, if◌then◌else◌,
}
use karlon.Base.Dict.{Dict, get, insert}
use karlon.Base.Text.{sprint}
use karlon.Base.Result.{Result, ok, err, message, because, context}
use karlon.Objects.{Application, ConfigMap, HelmParameter, IgnoreDifference}
use karlon.Services.{Libraries}
use karlon.ClusterSpec.{ClusterSpec, from_config_map}
use karlon.ClusterSpec.Valid.{autoscaler_subchart_name, kubeconfig_secret_key_name}
use karlon.ClusterSpec.Api.{subchart_name_of}

-- the arguments of ConstructRootApp; `none` is a nil config map
pub record RootRequest : Type 0 where
  pub argocd_ns : String
  pub cluster_name : String
  pub inner_cluster_name : String
  pub repo_url : String
  pub repo_branch : String
  pub repo_path : String
  pub cluster_spec_name : String
  pub cluster_spec_cm : Option ConfigMap
  pub profile_name : String
  pub management_cluster_url : String
  pub gen2_cas : Bool

abbrev pub valid_helm_param_keys : List String
valid_helm_param_keys =
    "region" ∷ "sshKeyName" ∷ "kubernetesVersion" ∷ "podCidrBlock" ∷ "nodeCount" ∷ "masterNodeCount"
    ∷ "nodeType" ∷ "clusterAutoscalerEnabled" ∷ "clusterAutoscalerMinNodes"
    ∷ "clusterAutoscalerMaxNodes" ∷ []

abbrev pub replicas_difference : IgnoreDifference
replicas_difference = record {
  group = "cluster.x-k8s.io";
  kind = "MachineDeployment";
  pointer = "/spec/replicas";
}

abbrev pub control_plane_difference : IgnoreDifference
control_plane_difference = record {
  group = "controlplane.cluster.x-k8s.io";
  kind = "AWSManagedControlPlane";
  pointer = "/spec/version";
}

abbrev param : String → String → HelmParameter
param name value = record { name = name; value = value }

-- the parameters and the ignored differences
abbrev pub Settings : Type 0
Settings = List HelmParameter × List IgnoreDifference

unfoldable pub enable_cluster_autoscaler :
    String → List HelmParameter → List IgnoreDifference → Result Settings
enable_cluster_autoscaler api_provider params diffs =
    let chart = autoscaler_subchart_name api_provider in
    if chart == ""
    then err (
        message
          (sprint ("failed to get cluster autoscaler subchart name for " ∷ api_provider ∷ [])))
    else ok (
      params ++ param (sprint ("tags." ∷ chart ∷ [])) "true" ∷ [],
      diffs ++ replicas_difference ∷ [],
    )

-- the parameters of every cluster
unfoldable pub common_params : RootRequest → String → List HelmParameter
common_params r api_provider =
    (if r.inner_cluster_name != ""
      then param "global.clusterFullNameWithInnerCluster"
          (sprint (r.cluster_name ∷ "-" ∷ r.inner_cluster_name ∷ []))
      else param "global.clusterFullNameWithInnerCluster" r.cluster_name)
    ∷ param "global.clusterName" r.cluster_name
    ∷ param "global.kubeconfigSecretKeyName" (kubeconfig_secret_key_name api_provider)
    ∷ param "global.managementClusterUrl" r.management_cluster_url
    ∷ (if r.inner_cluster_name != ""
        then param "global.innerClusterNameWithDashSuffix"
            (sprint (r.inner_cluster_name ∷ "-" ∷ []))
          ∷ []
        else [])

-- those of the specification that have a value
unfoldable pub spec_params : List String → Dict String → List HelmParameter
spec_params [] content = []
spec_params (key ∷ keys) content =
    let rest = spec_params keys content in
    if get key content != ""
    then param (sprint ("global." ∷ key ∷ [])) (get key content) ∷ rest
    else rest

-- gen1, behind the common parameters
unfoldable pub gen1_settings : ClusterSpec → ConfigMap → List HelmParameter → Result Settings
unfolding spec_params
gen1_settings cs cm params = elim (subchart_name_of cs) [
  | err e ↦ err (because "failed to retrieve subchart name" e)
  | ok chart ↦
      let tagged =
        params
        ++ spec_params valid_helm_param_keys cm.content
        ++ param (sprint ("tags." ∷ chart ∷ [])) "true" ∷ [] in
      if cs.cas_enabled
      then context (sprint ("failed to enable cluster autoscaler for " ∷ cs.api_provider ∷ []))
          (enable_cluster_autoscaler cs.api_provider tagged [])
      else ok (tagged, [])
]

-- the settings, and what the application ignores: in gen2 nothing
unfoldable pub settings_of : RootRequest → Result Settings
settings_of r = elim r.cluster_spec_cm [
  | some cm ↦ elim (from_config_map cm) [
    | err e ↦ err (because "failed to read clusterspec from configmap" e)
    | ok cs ↦ elim (gen1_settings cs cm (common_params r cs.api_provider)) [
      | err e ↦ err e
      | ok (params, diffs) ↦ ok (params, diffs ++ control_plane_difference ∷ [])
    ]
  ]
  | none ↦
      if r.gen2_cas
      then elim (enable_cluster_autoscaler "capi" [] []) [
        | err e ↦ err e
        | ok (params, diffs) ↦ ok (params ++ common_params r "capi", [])
      ]
      else ok (common_params r "capi", [])
]

-- the labels: of a gen2 application one more
abbrev pub root_labels : RootRequest → Dict String
root_labels r =
    let kind = if r.cluster_spec_name == "" then "kkarlon-app" else "cluster" in
    let labels = ("managed-by", "kkarlon") ∷ ("kkarlon-type", kind) ∷ [] in
    elim r.cluster_spec_cm [
      | some cm ↦ labels
      | none ↦ insert "kkarlon-cluster" r.cluster_name labels
    ]

abbrev pub root_app_name : RootRequest → String
root_app_name r =
    if r.cluster_spec_name == "" then sprint (r.cluster_name ∷ "-kkarlon" ∷ []) else r.cluster_name

-- ConstructRootApp
unfoldable pub construct_root_app : Libraries → RootRequest → Result Application
construct_root_app lib r = elim (settings_of r) [
  | err e ↦ err e
  | ok (params, diffs) ↦ ok (record {
    meta = record {
      name = root_app_name r;
      namespace = r.argocd_ns;
      labels = root_labels r;
      annotations = some (
          ("kkarlon.io/clusterspec", r.cluster_spec_name)
          ∷ ("kkarlon.io/profile", r.profile_name)
          ∷ []);
      finalizers = lib.foreground_finalizer ∷ [];
      deleting = false;
    };
    repo_url = r.repo_url;
    path = r.repo_path;
    target_revision = r.repo_branch;
    helm_parameters = params;
    name_prefix = "";
    server = "https://kubernetes.default.svc";
    destination_namespace = "default";
    ignore_differences = diffs;
    sync_options = "Prune=true" ∷ [];
    prune = true;
  })
]

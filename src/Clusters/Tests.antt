-- ===== src/Clusters/Tests.antt =====
-- The applications of a cluster at concrete inputs.
use karlon.Base.{◌≡◌, refl, arith, true, none, some, [], ◌∷◌}
use karlon.Base.Dict.{or_empty}
use karlon.Base.Number.{pos}
use karlon.Base.Path.{join_path}
use karlon.Base.Text.{join, split, prepend}
use karlon.Base.Result.{ok}
use karlon.Objects.{Application}
use karlon.Services.{Entries, Libraries}
use karlon.ClusterSpec.{ClusterSpec, to_config_map}
use karlon.Clusters.RootApp.{RootRequest}
use karlon.Clusters.ClusterApp.{ClusterAppRequest}
use karlon.Base.{◌≢◌, false, All, find_first}
use karlon.Base.Dict.{get, insert, lookup}
use karlon.Base.Result.{err}
use karlon.Base.Text.{join}
use karlon.Objects.{Secret, Profile}
use karlon.Services.{
  Call, Answer, State, application_get, application_delete, application_client, runtime_client,
  kube_client, secret_get, secret_list,
}
use karlon.Services.Exec.{go}
use karlon.Services.Quiet.{quiet, fixed, no_application}
use karlon.Clusters.Deploy.{mgmt_path_from_base_path, decompose_path}
use karlon.Clusters.External.{
  managed_secret, unmanaged_secret, check_managed, detach, unmanage_external,
}
use karlon.Clusters.Queries.{external_cluster, external_cluster_secrets, get_cluster}
use karlon.Clusters.Managed.{KeepsSecrets, SameMap, unmanaged-managed, unmanage_blocked}
use karlon.Clusters.Paths.{decompose-mgmt_path}

abbrev libraries : Libraries
libraries = record {
  foreground_finalizer = "resources-finalizer.argocd.argoproj.io/foreground";
  marshal = λ k. ok "resources:";
  parse = ok;
  execute = ok;
  cluster_manifests = Entries.end;
}

abbrev gen2 : RootRequest
gen2 = record {
  argocd_ns = "argocd";
  cluster_name = "edge";
  inner_cluster_name = "capi-eks";
  repo_url = "https://git/charts";
  repo_branch = "main";
  repo_path = "charts";
  cluster_spec_name = "";
  cluster_spec_cm = none;
  profile_name = "no-profile-for-gen2";
  management_cluster_url = "";
  gen2_cas = true;
}

abbrev spec : ClusterSpec
spec = record {
  name = "small";
  api_provider = "capi";
  cloud_provider = "aws";
  cluster_type = "kubeadm";
  kubernetes_version = "v1.23.14";
  node_type = "t2.large";
  node_count = pos 2;
  master_node_count = pos 1;
  region = "us-west-2";
  pod_cidr_block = "";
  ssh_key_name = "ops";
  tags = "";
  description = "";
  cas_enabled = true;
  cas_min_nodes = pos 1;
  cas_max_nodes = pos 4;
}

abbrev gen1 : RootRequest
gen1 = record gen2 { cluster_spec_name = "small"; cluster_spec_cm = some (to_config_map spec) }

joined : join_path ("clusters/./old" ∷ "" ∷ "../edge" ∷ []) ≡ "clusters/edge"
unfolding join_path join split prepend
joined = refl

abbrev patched : ClusterAppRequest
patched = record {
  argocd_ns = "argocd";
  cluster_name = "edge";
  base_cluster_name = "capi-eks";
  repo_url = "https://git/overrides";
  repo_revision = "main";
  repo_path = "overrides";
  overridden = true;
}

abbrev edge_secret : Secret
edge_secret = record {
  meta = record {
    name = "cluster-edge";
    namespace = "argocd";
    labels = ("argocd.argoproj.io/secret-type", "cluster") ∷ [];
    annotations = some (("managed-by", "argocd") ∷ []);
    finalizers = [];
    deleting = false;
  };
  content = ("name", "edge") ∷ [];
}

abbrev managed_edge : Secret
managed_edge = record edge_secret {
  meta = record edge_secret.meta {
    labels =
        ("argocd.argoproj.io/secret-type", "cluster")
        ∷ ("kkarlon.io/cluster-type", "external")
        ∷ [];
    annotations = some (
        ("managed-by", "argocd")
        ∷ ("kkarlon.io/profile", "web")
        ∷ ("kkarlon.io/profile-app", "edge-profile-web")
        ∷ []);
  };
}

abbrev web_profile : Profile
web_profile = record {
  name = "web";
  namespace = "kkarlon";
  spec = record {
    description = "";
    tags = [];
    bundles = [];
    overrides = [];
    repo_url = "https://git/profiles";
    repo_path = "profiles/web";
    repo_revision = "main";
  };
}

edge_managed : managed_secret web_profile "edge-profile-web" edge_secret ≡ ok managed_edge
unfolding managed_secret insert
edge_managed = refl

edge_unmarked :
    (lookup "kkarlon.io/cluster-type" edge_secret.meta.labels ≡ none)
    × (lookup "kkarlon.io/profile" (or_empty edge_secret.meta.annotations) ≡ none)
    × (lookup "kkarlon.io/profile-app" (or_empty edge_secret.meta.annotations) ≡ none)
unfolding lookup
edge_unmarked = (refl, refl, refl)

unmanaged-managed_example :
    SameMap (unmanaged_secret managed_edge).meta.labels edge_secret.meta.labels
    × SameMap
        (or_empty (unmanaged_secret managed_edge).meta.annotations)
        (or_empty edge_secret.meta.annotations)
    × ((unmanaged_secret managed_edge).content ≡ edge_secret.content)
unmanaged-managed_example =
    unmanaged-managed web_profile "edge-profile-web" edge_secret managed_edge edge_managed
      edge_unmarked.0 edge_unmarked.1 edge_unmarked.2

abbrev app_gone : (c : Call) → Answer c
app_gone (application_delete name) = err no_application
app_gone (secret_list ns selector) = ok (managed_edge ∷ [])
app_gone (secret_get ns name) = ok managed_edge
app_gone c = quiet c

abbrev start : {answers : (c : Call) → Answer c} → State (fixed answers)
start = record { world = tt; calls = [] }

unmanage_blocked_example :
    All KeepsSecrets (unmanage_external {api = fixed app_gone} "argocd" "edge" start).1.calls
    × ((unmanage_external {api = fixed app_gone} "argocd" "edge" start).0 ≢ go tt)
unmanage_blocked_example =
    unmanage_blocked {api = fixed app_gone} (λ app w. no_application) "argocd" "edge" start
      (λ app w. refl) tt

-- the run of the theorem ends with the deletion
edge_asked :
    (unmanage_external {api = fixed app_gone} "argocd" "edge" start).1.calls
    ≡ application_delete "edge-profile-web"
      ∷ runtime_client
      ∷ secret_get "argocd" "cluster-edge"
      ∷ kube_client
      ∷ secret_list "argocd" external_cluster_secrets
      ∷ kube_client
      ∷ application_client
      ∷ []
unfolding unmanage_external get_cluster external_cluster check_managed detach find_first get lookup
edge_asked = refl

decompose-mgmt_path_example :
    decompose_path (mgmt_path_from_base_path (join "/" ("clusters" ∷ "eu" ∷ [])) "edge")
    ≡ ok (join "/" ("clusters" ∷ "eu" ∷ []), "edge")
decompose-mgmt_path_example =
    decompose-mgmt_path "clusters" ("eu" ∷ []) "edge"
      ((refl, refl, refl, omega arith), ((refl, refl, refl, omega arith), tt))
      (refl, refl, refl, omega arith)

abbrev root_app : Application
root_app = record {
  meta = record {
    name = "edge";
    namespace = "argocd";
    labels = [];
    annotations = none;
    finalizers = [];
    deleting = false;
  };
  repo_url = "https://git/clusters";
  path = "edge/mgmt";
  target_revision = "main";
  helm_parameters = [];
  name_prefix = "";
  server = "in-cluster";
  destination_namespace = "default";
  ignore_differences = [];
  sync_options = [];
  prune = true;
}

abbrev with_root_app : (c : Call) → Answer c
with_root_app (application_get name) = ok root_app
with_root_app c = quiet c

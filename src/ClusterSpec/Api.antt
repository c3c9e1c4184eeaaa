-- ===== src/ClusterSpec/Api.antt =====
-- pkg/clusterspec: get, create, update and delete, and the names of the sub-charts.
use karlon.Base.{
  Bool, true, false, not, ◌||◌, ◌==◌, ◌!=◌, String, Option, none, some, List, [], ◌∷◌,
  if◌then◌else◌,
}
use karlon.Base.Number.{ℤ, is_zero}
use karlon.Base.Text.{sprint}
use karlon.Base.Result.{Error, Result, ok, err, message, because, is_not_found}
use karlon.Objects.{ConfigMap}
use karlon.Services.{Api, config_map_get, config_map_create, config_map_update, config_map_delete}
use karlon.Services.Exec.{Exec, ◌>>=◌, ◌>>◌, pure, return_now, perform, or_else, must, attempt}
use karlon.ClusterSpec.{ClusterSpec, from_config_map, to_config_map}
use karlon.ClusterSpec.Valid.{
  valid_api_provider, valid_cloud_and_type, validate_region, autoscaler_subchart_name,
}

abbrev pub checked : Result (Unit {0}) → Result (Unit {0}) → String → Result String
checked (err e) m name = err e
checked (ok _) (err e) name = err e
checked (ok _) (ok _) name = ok name

-- SubchartNameFromClusterSpec
unfoldable pub subchart_name_of : ClusterSpec → Result String
subchart_name_of cs =
    checked (valid_api_provider cs.api_provider)
      (valid_cloud_and_type cs.cloud_provider cs.cluster_type)
      (sprint (cs.api_provider ∷ "-" ∷ cs.cloud_provider ∷ "-" ∷ cs.cluster_type ∷ []))

-- SubchartName
unfoldable pub subchart_name : ConfigMap → Result String
unfolding subchart_name_of
subchart_name cm = elim (from_config_map cm) [ err e ↦ err e | ok cs ↦ subchart_name_of cs ]

-- ClusterAutoscalerSubchartNameFromClusterSpec
unfoldable pub autoscaler_subchart_name_of : ClusterSpec → Result String
autoscaler_subchart_name_of cs = elim (valid_api_provider cs.api_provider) [
  | err e ↦ err e
  | ok _ ↦ ok (autoscaler_subchart_name cs.api_provider)
]

-- what Update is asked to change: an empty text, a count of 0 and `none` leave a field alone
pub record Changes : Type 0 where
  pub kubernetes_version : String
  pub node_type : String
  pub node_count : ℤ
  pub master_node_count : ℤ
  pub cas_enabled : Option Bool
  pub cas_min_nodes : ℤ
  pub cas_max_nodes : ℤ
  pub description : String
  pub tags : String

abbrev pub text_or : String → String → String
text_or new old = if new == "" then old else new

abbrev pub int_or : ℤ → ℤ → ℤ
int_or new old = if is_zero new then old else new

abbrev pub bool_or : Option Bool → Bool → Bool
bool_or none old = old
bool_or (some new) old = new

abbrev given : Option Bool → Bool
given none = false
given (some _) = true

-- `dirty`
unfoldable pub is_dirty : Changes → Bool
is_dirty c =
    c.kubernetes_version != ""
    || c.node_type != ""
    || not (is_zero c.node_count)
    || not (is_zero c.master_node_count)
    || given c.cas_enabled
    || not (is_zero c.cas_min_nodes)
    || not (is_zero c.cas_max_nodes)
    || c.description != ""
    || c.tags != ""

unfoldable pub apply : Changes → String → ClusterSpec → ClusterSpec
apply c name cs = record {
  name = name;
  api_provider = cs.api_provider;
  cloud_provider = cs.cloud_provider;
  cluster_type = cs.cluster_type;
  kubernetes_version = text_or c.kubernetes_version cs.kubernetes_version;
  node_type = text_or c.node_type cs.node_type;
  node_count = int_or c.node_count cs.node_count;
  master_node_count = int_or c.master_node_count cs.master_node_count;
  region = cs.region;
  pod_cidr_block = cs.pod_cidr_block;
  ssh_key_name = cs.ssh_key_name;
  tags = text_or c.tags cs.tags;
  description = text_or c.description cs.description;
  cas_enabled = bool_or c.cas_enabled cs.cas_enabled;
  cas_min_nodes = int_or c.cas_min_nodes cs.cas_min_nodes;
  cas_max_nodes = int_or c.cas_max_nodes cs.cas_max_nodes;
}

module _ {api : Api} where
  unfoldable pub get_spec : String → String → Exec api Error ClusterSpec
  get_spec ns name = do
    got ← perform (config_map_get ns name)
    cm ← or_else got λ e. return_now e
    or_else (from_config_map cm) λ e. return_now e

  -- `name` is that of the specification
  unfoldable pub create : List String → String → ClusterSpec → Exec api Error (Unit {0})
  unfolding get_spec
  create aws_regions ns cs = do
    or_else (valid_api_provider cs.api_provider) λ e. return_now e
    or_else (valid_cloud_and_type cs.cloud_provider cs.cluster_type) λ e. return_now e
    or_else (validate_region aws_regions cs.cloud_provider cs.region) λ e. return_now e
    found ← attempt (get_spec ns cs.name)
    elim found [
      | ok old ↦ return_now (message "a clusterspec with that name already exists")
      | err e ↦
          if is_not_found e
          then pure tt
          else return_now (because "failed to check for existence of clusterspec" e)
    ]
    created ← perform (config_map_create ns (to_config_map (record cs { pod_cidr_block = "" })))
    must "failed to create clusterspec configmap" created

  -- returns `dirty`
  unfoldable pub update : String → String → Changes → Exec api Error Bool
  unfolding get_spec
  update ns name c = do
    got ← attempt (get_spec ns name)
    cs ← must "failed to get clusterspec" got
    if is_dirty c
        then (do
          updated ← perform (config_map_update ns (to_config_map (apply c name cs)))
          must "failed to update clusterspec configmap" updated
          pure true)
        else pure false

  unfoldable pub delete : String → String → Exec api Error (Unit {0})
  delete ns name = do
    deleted ← perform (config_map_delete ns name)
    must "failed to delete clusterspec" deleted

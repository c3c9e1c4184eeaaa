-- ===== src/ClusterSpec.antt =====
-- pkg/clusterspec: a gen1 cluster specification and the config map that stores it. The codec is here;
-- validation, the operations and the proofs are in the modules below.
pub mod Valid
pub mod Api
pub mod Codec
mod Updates
mod Create
mod Tests
use karlon.Base.{Bool, true, false, String, Option, none, some, List, [], ◌∷◌}
use karlon.Base.Dict.{Dict, lookup, get}
use karlon.Base.Number.{ℤ, pos, itoa, atoi, format_bool, parse_bool}
use karlon.Base.Result.{Error, Result, ok, err, message}
use karlon.Objects.{ConfigMap}

pub record ClusterSpec : Type 0 where
  pub name : String
  pub api_provider : String
  pub cloud_provider : String
  pub cluster_type : String
  pub kubernetes_version : String
  pub node_type : String
  pub node_count : ℤ
  pub master_node_count : ℤ
  pub region : String
  pub pod_cidr_block : String
  pub ssh_key_name : String
  pub tags : String
  pub description : String
  pub cas_enabled : Bool
  pub cas_min_nodes : ℤ
  pub cas_max_nodes : ℤ

abbrev pub default_master_node_count : ℤ
default_master_node_count = pos 3

abbrev pub default_cas_enabled : Bool
default_cas_enabled = false

abbrev pub default_cas_min_nodes : ℤ
default_cas_min_nodes = pos 1

abbrev pub default_cas_max_nodes : ℤ
default_cas_max_nodes = pos 9

-- a value that could not be read gives way to the default
abbrev or_default {ℓ} : {A : Type ℓ} → Option A → A → A
or_default none d = d
or_default (some a) d = a

spec_of : ConfigMap → ℤ → ClusterSpec
spec_of cm node_count = record {
  name = cm.name;
  api_provider = get "apiProvider" cm.content;
  cloud_provider = get "cloudProvider" cm.content;
  cluster_type = get "type" cm.content;
  kubernetes_version = get "kubernetesVersion" cm.content;
  node_type = get "nodeType" cm.content;
  node_count = node_count;
  master_node_count =
      or_default (atoi (get "masterNodeCount" cm.content)) default_master_node_count;
  region = get "region" cm.content;
  pod_cidr_block = get "podCidrBlock" cm.content;
  ssh_key_name = get "sshKeyName" cm.content;
  tags = get "tags" cm.content;
  description = get "description" cm.content;
  cas_enabled =
      or_default (parse_bool (get "clusterAutoscalerEnabled" cm.content)) default_cas_enabled;
  cas_min_nodes =
      or_default (atoi (get "clusterAutoscalerMinNodes" cm.content)) default_cas_min_nodes;
  cas_max_nodes =
      or_default (atoi (get "clusterAutoscalerMaxNodes" cm.content)) default_cas_max_nodes;
}

-- FromConfigMap: only the node count must be a number
unfoldable pub from_config_map : ConfigMap → Result ClusterSpec
unfolding spec_of
from_config_map cm = elim (atoi (get "nodeCount" cm.content)) [
  | none ↦ err (message "could not parse clusterspec nodeCount")
  | some n ↦ ok (spec_of cm n)
]

-- ToConfigMap, whose arguments are the fields of the specification
unfoldable pub to_config_map : ClusterSpec → ConfigMap
to_config_map cs = record {
  name = cs.name;
  labels = ("managed-by", "kkarlon") ∷ ("kkarlon-type", "clusterspec") ∷ [];
  content =
      ("apiProvider", cs.api_provider)
      ∷ ("cloudProvider", cs.cloud_provider)
      ∷ ("type", cs.cluster_type)
      ∷ ("kubernetesVersion", cs.kubernetes_version)
      ∷ ("nodeType", cs.node_type)
      ∷ ("nodeCount", itoa cs.node_count)
      ∷ ("masterNodeCount", itoa cs.master_node_count)
      ∷ ("region", cs.region)
      ∷ ("podCidrBlock", cs.pod_cidr_block)
      ∷ ("sshKeyName", cs.ssh_key_name)
      ∷ ("clusterAutoscalerEnabled", format_bool cs.cas_enabled)
      ∷ ("clusterAutoscalerMinNodes", itoa cs.cas_min_nodes)
      ∷ ("clusterAutoscalerMaxNodes", itoa cs.cas_max_nodes)
      ∷ ("tags", cs.tags)
      ∷ ("description", cs.description)
      ∷ [];
}

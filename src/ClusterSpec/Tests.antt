-- ===== src/ClusterSpec/Tests.antt =====
-- The theorems on cluster specifications at concrete inputs.
use karlon.Base.{◌≡◌, refl, arith, true, false, String, none, some, List, [], ◌∷◌, contains}
use karlon.Base.Number.{pos}
use karlon.Base.Result.{ok, is_not_found}
use karlon.Services.{Call, Answer, State, config_map_get}
use karlon.Services.Exec.{to_result}
use karlon.Services.Quiet.{quiet, fixed}
use karlon.ClusterSpec.{ClusterSpec, from_config_map, to_config_map}
use karlon.ClusterSpec.Codec.{HasInts, from-to_config_map}
use karlon.ClusterSpec.Valid.{
  valid_values, valid_cloud_providers, valid_api_provider, valid_cloud_and_type, validate_region,
}
use karlon.ClusterSpec.Api.{Changes, create}

abbrev small : ClusterSpec
small = record {
  name = "small";
  api_provider = "capi";
  cloud_provider = "aws";
  cluster_type = "eks";
  kubernetes_version = "v1.23.14";
  node_type = "t2.large";
  node_count = pos 2;
  master_node_count = pos 3;
  region = "us-west-2";
  pod_cidr_block = "";
  ssh_key_name = "ops";
  tags = "";
  description = "two nodes";
  cas_enabled = false;
  cas_min_nodes = pos 1;
  cas_max_nodes = pos 9;
}

small_ints : HasInts small
small_ints = omega arith

abbrev more_nodes : Changes
more_nodes = record {
  kubernetes_version = "";
  node_type = "";
  node_count = pos 5;
  master_node_count = pos 0;
  cas_enabled = some true;
  cas_min_nodes = pos 0;
  cas_max_nodes = pos 0;
  description = "";
  tags = "";
}

abbrev regions : List String
regions = "us-east-1" ∷ "us-west-2" ∷ []

-- a service that stores the specification
abbrev storing : (c : Call) → Answer c
storing (config_map_get ns n) = ok (to_config_map small)
storing c = quiet c

abbrev start : {answers : (c : Call) → Answer c} → State (fixed answers)
start = record { world = tt; calls = [] }

providers : valid_values valid_cloud_providers ≡ "aws|azure|gcp"
unfolding valid_values
providers = refl

created : to_result (create {api = fixed quiet} regions "kkarlon" small start).0 ≡ ok tt
unfolding create valid_api_provider valid_cloud_and_type validate_region contains is_not_found
created = refl

from-to_config_map_example : from_config_map (to_config_map small) ≡ ok small
from-to_config_map_example = from-to_config_map small small_ints

abbrev no_changes : Changes
no_changes = record more_nodes { node_count = pos 0; cas_enabled = none }

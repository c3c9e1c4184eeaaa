-- ===== src/ClusterSpec/Create.antt =====
-- What a creation of a specification needs, and when it writes.
use karlon.Base.{◌≡◌, arith, true, String, List, All, contains, eq_iff}
use karlon.Base.Result.{ok, is_not_found}
use karlon.Objects.{ConfigMap}
use karlon.Services.{Call, Api, State, config_map_get, config_map_create}
use karlon.Services.Exec.{ask, to_result}
use karlon.ClusterSpec.{ClusterSpec, from_config_map}
use karlon.ClusterSpec.Valid.{
  valid_api_providers, valid_cluster_types, valid_api_provider, valid_cloud_and_type,
  validate_region,
}
use karlon.ClusterSpec.Api.{create}

abbrev pub CreatesNone : Call → Type 0
CreatesNone (config_map_create ns cm) = ⊥
CreatesNone _ = Unit

module _ {api : Api} where
  -- A creation of a specification that succeeds was for the cloud provider aws, a region of
  -- aws, a valid API provider and a cluster type of aws.
  pub only_aws :
      (aws_regions : List String) (ns : String) (cs : ClusterSpec) (s : State api)
      → to_result (create aws_regions ns cs s).0 ≡ ok tt
      → (cs.cloud_provider ≡ "aws")
        × (contains cs.region aws_regions ≡ true)
        × (contains cs.api_provider valid_api_providers ≡ true)
        × (contains cs.cluster_type (valid_cluster_types "aws") ≡ true)
  unfolding create valid_api_provider valid_cloud_and_type validate_region contains
  only_aws aws_regions ns cs s done = ground (arith, eq_iff cs.cloud_provider "aws")

  -- If the config map of the name can be read, a creation of a specification creates no config
  -- map, if no call before did.
  pub existing_kept :
      (aws_regions : List String) (ns : String) (cs : ClusterSpec) (cm : ConfigMap) (s : State api)
      → ask api (config_map_get ns cs.name) s.world ≡ ok cm
      → All CreatesNone s.calls
      → All CreatesNone (create aws_regions ns cs s).1.calls
  unfolding create from_config_map is_not_found
  existing_kept aws_regions ns cs cm s got h = ground arith

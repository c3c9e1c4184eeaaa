-- ===== src/ClusterSpec/Updates.antt =====
-- What an update of a specification writes.
use karlon.Base.{eq_iff, ◌≡◌, refl, arith, false, String, [], All}
use karlon.Base.Number.{IsInt}
use karlon.Base.Result.{Result, ok, err}
use karlon.Objects.{ConfigMap}
use karlon.Services.{Call, Api, State, config_map_get, config_map_create, config_map_update}
use karlon.Services.Exec.{ask}
use karlon.ClusterSpec.{ClusterSpec, from_config_map, to_config_map}
use karlon.ClusterSpec.Codec.{HasInts, from-to_config_map}
use karlon.ClusterSpec.Api.{Changes, is_dirty, apply, update}

-- the parts of a specification that no update changes
abbrev pub Fixed : Type 0
Fixed = String × String × String × String × String × String

abbrev pub fixed_part : ClusterSpec → Fixed
fixed_part cs = (
  cs.api_provider, cs.cloud_provider, cs.cluster_type, cs.region, cs.pod_cidr_block,
  cs.ssh_key_name,
)

abbrev pub fixed_of : Result ClusterSpec → Result Fixed
fixed_of (err e) = err e
fixed_of (ok cs) = ok (fixed_part cs)

-- the call writes a specification with the fixed part of `cs`
abbrev pub KeepsFixed : ClusterSpec → Call → Type 0
KeepsFixed cs (config_map_update ns cm) = fixed_of (from_config_map cm) ≡ ok (fixed_part cs)
KeepsFixed cs (config_map_create ns cm) = ⊥
KeepsFixed cs _ = Unit

-- the counts that an update asks for, where it asks for any, fit Go's `int`
pub record ChangesFit (c : Changes) : Type 0 where
  pub nodes : IsInt c.node_count
  pub masters : IsInt c.master_node_count
  pub min_nodes : IsInt c.cas_min_nodes
  pub max_nodes : IsInt c.cas_max_nodes

apply-HasInts :
    (c : Changes) (name : String) (cs : ClusterSpec)
    → ChangesFit c
    → HasInts cs
    → HasInts (apply c name cs)
unfolding apply
apply-HasInts c name cs fit ints = ground arith

-- A change that is not dirty leaves a specification as it is.
pub apply_clean : (c : Changes) (cs : ClusterSpec) → is_dirty c ≡ false → apply c cs.name cs ≡ cs
unfolding is_dirty apply
apply_clean c cs h = ground (
  arith,
  eq_iff c.kubernetes_version "",
  eq_iff c.node_type "",
  eq_iff c.description "",
  eq_iff c.tags "",
)

written_fixed :
    (c : Changes) (name : String) (cs : ClusterSpec)
    → ChangesFit c
    → HasInts cs
    → fixed_of (from_config_map (to_config_map (apply c name cs))) ≡ ok (fixed_part cs)
written_fixed c name cs fit ints =
    rw (from-to_config_map (apply c name cs) (apply-HasInts c name cs fit ints))
      (unfold apply in refl)

module _ {api : Api} where
  -- If the specification is read, what an update of it writes reads back with the API provider,
  -- cloud provider, type, region, pod CIDR block and SSH key of the old one. The conditions are
  -- that the counts of the change and of the old specification fit a Go int and that no call
  -- was made before.
  pub update-KeepsFixed :
      (ns name : String) (c : Changes) (cm : ConfigMap) (cs : ClusterSpec) (s : State api)
      → ask api (config_map_get ns name) s.world ≡ ok cm
      → from_config_map cm ≡ ok cs
      → ChangesFit c
      → HasInts cs
      → s.calls ≡ []
      → All (KeepsFixed cs) (update ns name c s).1.calls
  unfolding update
  update-KeepsFixed ns name c cm cs s got read fit ints fresh =
      ground (arith, written_fixed c name cs fit ints)

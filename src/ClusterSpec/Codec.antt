-- ===== src/ClusterSpec/Codec.antt =====
-- A specification is read back from the config map that stores it.
use karlon.Base.{◌≡◌, arith}
use karlon.Base.Dict.{lookup, get}
use karlon.Base.Number.{IsInt}
use karlon.Base.Number.RoundTrip.{atoi-itoa, parse_bool-format_bool}
use karlon.Base.Result.{ok}
use karlon.ClusterSpec.{ClusterSpec, from_config_map, to_config_map}

-- the counts fit Go's `int`
pub record HasInts (cs : ClusterSpec) : Type 0 where
  pub nodes : IsInt cs.node_count
  pub masters : IsInt cs.master_node_count
  pub min_nodes : IsInt cs.cas_min_nodes
  pub max_nodes : IsInt cs.cas_max_nodes

-- A cluster specification whose counts fit a Go int is read back from its config map as it was.
pub from-to_config_map :
    (cs : ClusterSpec) → HasInts cs → from_config_map (to_config_map cs) ≡ ok cs
unfolding from_config_map to_config_map get lookup
from-to_config_map cs h = ground (
  arith,
  atoi-itoa cs.node_count h.nodes,
  atoi-itoa cs.master_node_count h.masters,
  atoi-itoa cs.cas_min_nodes h.min_nodes,
  atoi-itoa cs.cas_max_nodes h.max_nodes,
  parse_bool-format_bool cs.cas_enabled,
)

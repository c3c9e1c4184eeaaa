-- ===== src/Clusters/Manifest.antt =====
-- pkg/cluster/simple_manifest.go: the manifest of a cluster, from its name, namespace, size and version.
pub mod Resources
pub mod Laws
mod Tests
use Prim.Native.String.{String, ◌++◌}
use mathlib.Core.List.{List, [], ◌∷◌}
use karlon.Base.Number.{ℤ}
use karlon.Base.Result.{Result, ok, err, chained}
use karlon.Base.Text.{join}
use karlon.Base.Yaml.{Yaml}
use karlon.Clusters.Manifest.Resources.{
  domain, with_v, cluster_resource, byo_cluster, hosted_control_plane, byo_machine_template,
  kubeadm_config_template, machine_deployment, installer_config_template,
}

-- the resources of GenerateClusterManifest; four of its parameters are not used
unfoldable pub manifest_resources : String → String → ℤ → String → List Yaml
manifest_resources cluster_name namespace replicas version =
    let hcp_name = cluster_name ++ "cp" in
    let k8s_version = with_v version in
    cluster_resource cluster_name namespace hcp_name
    ∷ byo_cluster cluster_name namespace (hcp_name ++ domain)
    ∷ hosted_control_plane hcp_name namespace ("oidc-auth-" ++ cluster_name)
        ("oidc-auth-" ++ hcp_name) k8s_version
    ∷ byo_machine_template cluster_name namespace
    ∷ kubeadm_config_template cluster_name namespace
    ∷ machine_deployment cluster_name namespace replicas (with_v k8s_version)
    ∷ installer_config_template cluster_name namespace
    ∷ []

module _ (marshal : Yaml → Result String) where
  unfoldable pub marshal_all : List Yaml → Result (List String)
  marshal_all [] = ok []
  marshal_all (r ∷ rs) = elim (marshal r) [
    | err e ↦ err (chained "failed to marshal manifest" e)
    | ok doc ↦ elim (marshal_all rs) [ err e ↦ err e | ok docs ↦ ok (doc ∷ docs) ]
  ]

  -- GenerateClusterManifest
  unfoldable pub generate_cluster_manifest : String → String → ℤ → String → Result String
  generate_cluster_manifest cluster_name namespace replicas version =
      elim (marshal_all (manifest_resources cluster_name namespace replicas version)) [
        | err e ↦ err e
        | ok docs ↦ ok (join "\n---\n" docs)
      ]

-- ===== src/Clusters/Manifest/Tests.antt =====
-- A generated manifest at concrete inputs.
use karlon.Base.{◌≡◌, refl, true, List}
use karlon.Base.Number.{pos}
use karlon.Base.Yaml.{Yaml, all_under}
use karlon.Clusters.Manifest.{manifest_resources}
use karlon.Clusters.Manifest.Resources.{
  cluster_resource, byo_cluster, hosted_control_plane, byo_machine_template,
  kubeadm_config_template, machine_deployment, installer_config_template,
}
use karlon.Clusters.Manifest.Laws.{
  reference_keys, references, resolve, references_resolve, control_plane_version, machine_version,
  HasPrefix, versions_agree,
}

abbrev byo : List Yaml
byo = manifest_resources "edge" "team-a" (pos 3) "1.32.0"

five_references : references reference_keys byo ≡ 5
unfolding manifest_resources cluster_resource byo_cluster hosted_control_plane byo_machine_template
    kubeadm_config_template machine_deployment installer_config_template all_under
five_references = refl

same_versions :
    (control_plane_version byo ≡ machine_version byo) × HasPrefix (control_plane_version byo)
same_versions = versions_agree "edge" "team-a" "1.32.0" (pos 3)

references_resolve_example : resolve reference_keys byo ≡ true
references_resolve_example = references_resolve "edge" "team-a" "1.32.0" (pos 3)

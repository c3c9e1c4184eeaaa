-- ===== src/BaseCluster/Tests.antt =====
-- Cluster templates at concrete inputs.
use karlon.Base.{◌≡◌, refl, true, false, String, none, some, List, [], ◌∷◌, All}
use karlon.Base.Result.{Result, ok, err}
use karlon.Services.{FileInfo, Resource}
use karlon.BaseCluster.{
  find_cluster, cluster_of, scan_dir, manifest_of, err_multiple_clusters, err_no_kustomization_yaml,
}
use karlon.Base.Dict.{get, lookup, insert, or_empty}
use karlon.Base.Number.{pos, itoa, write_digits}
use karlon.BaseCluster.Prepare.{
  Prepared, cas_max_annotation, cas_min_annotation, add_missing, add_cas_annotations,
  without_namespace, with_annotations, prepare_resource, prepare_all, prepare,
}
use karlon.BaseCluster.Prepared.{prepared_is_valid}
use karlon.BaseCluster.Again.{prepare_again}
use karlon.BaseCluster.Validity.{manifests_in, has_file, IsFile, manifest_of_lem}

abbrev file : String → FileInfo
file name = record { name = name; is_dir = false; is_symlink = false }

abbrev template : List FileInfo
template = file "configurations.yaml" ∷ file "eks.yaml" ∷ file "kustomization.yaml" ∷ []

abbrev resource : String → String → Resource
resource kind name = record { kind = kind; name = name; namespace = ""; annotations = none }

abbrev resources : List Resource
resources = resource "MachineDeployment" "md-0" ∷ resource "Cluster" "capi-eks" ∷ []

template_ok : manifest_of template ≡ ok "eks.yaml"
unfolding manifest_of scan_dir
template_ok = refl

no_kustomization :
    manifest_of (file "configurations.yaml" ∷ file "eks.yaml" ∷ []) ≡ err err_no_kustomization_yaml
unfolding manifest_of scan_dir
no_kustomization = refl

resources_ok : cluster_of resources ≡ ok "capi-eks"
unfolding cluster_of find_cluster
resources_ok = refl

two_clusters : cluster_of (resource "Cluster" "other" ∷ resources) ≡ err err_multiple_clusters
unfolding cluster_of find_cluster
two_clusters = refl

manifest_of_lem_example :
    (manifests_in template ≡ "eks.yaml" ∷ [])
    × (has_file "kustomization.yaml" template ≡ true)
    × (has_file "configurations.yaml" template ≡ true)
    × All IsFile template
manifest_of_lem_example = manifest_of_lem template "eks.yaml" (refl, (refl, (refl, tt))) template_ok

abbrev encode : Resource → Result String
encode r = ok r.name

abbrev raw : List Resource
raw =
    resource "MachineDeployment" "md-0"
    ∷ record { kind = "Cluster"; name = "capi-eks"; namespace = "team-a"; annotations = none }
    ∷ []

abbrev deployment : Resource
deployment = record {
  kind = "MachineDeployment";
  name = "md-0";
  namespace = "";
  annotations =
      some (insert cas_min_annotation "3" (insert cas_max_annotation "9" (or_empty none)));
}

abbrev fixed : Prepared
fixed = record {
  cluster = "capi-eks";
  resources = deployment ∷ resource "Cluster" "capi-eks" ∷ [];
  dirty = true;
}

raw_ok : prepare encode (pos 9) (pos 3) raw ≡ ok fixed
unfolding prepare prepare_all prepare_resource with_annotations without_namespace
    add_cas_annotations add_missing itoa write_digits get lookup insert
raw_ok = refl

prepared_is_valid_example : cluster_of fixed.resources ≡ ok "capi-eks"
prepared_is_valid_example = prepared_is_valid encode (pos 9) (pos 3) raw fixed raw_ok

prepare_again_example :
    prepare encode (pos 9) (pos 3) fixed.resources ≡ ok (record fixed { dirty = false })
prepare_again_example = prepare_again encode (pos 9) (pos 3) raw fixed raw_ok

-- ===== src/Clusters/Manifest/Laws.antt =====
-- What the resources of a generated manifest say of each other.
use Prim.Native.String.{String, [], ◌∷◌, ◌++◌}
use mathlib.Core.List.{List, [], ◌∷◌}
use karlon.Base.{
  ℕ, suc, ◌+◌, ◌≡◌, refl, sym, arith, Bool, true, false, ◌==◌, ◌&&◌, ◌||◌, if◌then◌else◌, eq_refl,
}
use karlon.Base.Number.{ℤ}
use karlon.Base.Yaml.{Yaml, text, text_at, all_under, find_field, under_any}
use karlon.Clusters.Manifest.{manifest_resources}
use karlon.Clusters.Manifest.Resources.{
  is_v, with_v, cluster_resource, byo_cluster, hosted_control_plane, byo_machine_template,
  kubeadm_config_template, machine_deployment, installer_config_template,
}

-- the resource has the API version, the kind and the name of a reference
abbrev pub is_target : Yaml → Yaml → Bool
is_target reference resource =
    text_at ("apiVersion" ∷ []) resource == text_at ("apiVersion" ∷ []) reference
    && (text_at ("kind" ∷ []) resource == text_at ("kind" ∷ []) reference
        && text_at ("metadata" ∷ "name" ∷ []) resource == text_at ("name" ∷ []) reference)

abbrev pub has_target : List Yaml → Yaml → Bool
has_target [] reference = false
has_target (r ∷ rs) reference = is_target reference r || has_target rs reference

abbrev pub all_have_targets : List Yaml → List Yaml → Bool
all_have_targets resources [] = true
all_have_targets resources (r ∷ rs) = has_target resources r && all_have_targets resources rs

abbrev pub reference_keys : List String
reference_keys = "controlPlaneRef" ∷ "infrastructureRef" ∷ "configRef" ∷ "installerRef" ∷ []

abbrev pub count : List Yaml → ℕ
count [] = 0
count (r ∷ rs) = suc (count rs)

-- how many references there are
abbrev pub references : List String → List Yaml → ℕ
references [] resources = 0
references (key ∷ keys) resources = count (under_any key resources) + references keys resources

-- every reference under one of the keys has a target
abbrev pub resolve : List String → List Yaml → Bool
resolve [] resources = true
resolve (key ∷ keys) resources =
    all_have_targets resources (under_any key resources) && resolve keys resources

-- For every name, namespace, size and version, each reference in a generated manifest, under
-- the keys controlPlaneRef, infrastructureRef, configRef and installerRef at any depth, has the
-- API version, kind and name of a resource of the manifest.
pub references_resolve :
    (name namespace version : String) (replicas : ℤ)
    → resolve reference_keys (manifest_resources name namespace replicas version) ≡ true
unfolding manifest_resources cluster_resource byo_cluster hosted_control_plane byo_machine_template
    kubeadm_config_template machine_deployment installer_config_template text_at all_under
    find_field
references_resolve name namespace version replicas =
    ground (arith, eq_refl name, eq_refl (name ++ "cp"))

abbrev pub find_kind : String → List Yaml → Yaml
find_kind kind [] = text ""
find_kind kind (r ∷ rs) =
    let rest = find_kind kind rs in if text_at ("kind" ∷ []) r == kind then r else rest

-- empty, or with the prefix v
abbrev pub HasPrefix : String → Type 0
HasPrefix [] = Unit
HasPrefix (c ∷ s) = is_v c ≡ true

with_v-HasPrefix : (version : String) → HasPrefix (with_v version)
unfolding with_v
with_v-HasPrefix [] = tt
with_v-HasPrefix (c ∷ s) = ground arith

with_v_kept : (version : String) → HasPrefix version → with_v version ≡ version
unfolding with_v
with_v_kept [] h = refl
with_v_kept (c ∷ s) h = ground arith

abbrev pub control_plane_version : List Yaml → String
control_plane_version resources =
    text_at ("spec" ∷ "version" ∷ []) (find_kind "HostedControlPlane" resources)

abbrev pub machine_version : List Yaml → String
machine_version resources =
    text_at ("spec" ∷ "template" ∷ "spec" ∷ "version" ∷ [])
      (find_kind "MachineDeployment" resources)

-- The version
pub versions_agree :
    (name namespace version : String) (replicas : ℤ)
    → (control_plane_version (manifest_resources name namespace replicas version)
        ≡ machine_version (manifest_resources name namespace replicas version))
      × HasPrefix (control_plane_version (manifest_resources name namespace replicas version))
unfolding manifest_resources cluster_resource byo_cluster hosted_control_plane byo_machine_template
    kubeadm_config_template machine_deployment installer_config_template text_at find_field
versions_agree name namespace version replicas =
    let prefixed : HasPrefix (with_v version) = with_v-HasPrefix version in
    (sym (with_v_kept (with_v version) prefixed), prefixed)

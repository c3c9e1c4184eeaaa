-- ===== src/BaseCluster.antt =====
-- pkg/basecluster/validate.go and errors.go: whether a directory in git can be a cluster template.
pub mod Validity
pub mod Prepare
pub mod Prepared
pub mod Again
mod Tests
use karlon.Base.{
  Bool, true, false, not, ◌==◌, ◌!=◌, String, Option, none, some, List, [], ◌∷◌, if◌then◌else◌,
}
use karlon.Base.Path.{join_path}
use karlon.Base.Text.{sprint}
use karlon.Base.Result.{Error, Result, ok, err, message, wrapping, text}
use karlon.Services.{
  Call, Api, State, RepoCreds, FileInfo, Resource, git_worktree, file_read_dir, dir_remove_all,
  manifest_infos,
}
use karlon.Services.Exec.{Exec, ◌>>=◌, ◌>>◌, pure, return_now, perform, or_else, must, attempt}
use karlon.Git.{clone_repo}

abbrev pub err_multiple_manifests : Error
err_multiple_manifests = message "multiple manifests found"

abbrev pub err_no_manifest : Error
err_no_manifest = message "failed to find cluster template manifest file"

abbrev pub err_no_kustomization_yaml : Error
err_no_kustomization_yaml = message "kustomization.yaml is missing"

abbrev pub err_no_configurations_yaml : Error
err_no_configurations_yaml = message "configurations.yaml is missing"

abbrev pub err_multiple_clusters : Error
err_multiple_clusters = message "there are 2 or more clusters"

abbrev pub err_no_cluster_resource : Error
err_no_cluster_resource = message "no cluster resource found"

abbrev pub err_builder_failed_run : Error
err_builder_failed_run = message "builder failed to run"

abbrev pub err_resource_has_namespace : Error
err_resource_has_namespace = message "resource has a namespace defined"

-- the loop of Validate; the text is the cluster's name so far
unfoldable pub find_cluster : List Resource → String → Result String
find_cluster [] cluster = ok cluster
find_cluster (r ∷ rs) cluster =
    let later = find_cluster rs r.name in
    let others = find_cluster rs cluster in
    if r.namespace != ""
    then err (
        wrapping err_resource_has_namespace
          (sprint ("resource: " ∷ r.name ∷ ", kind: " ∷ r.kind ∷ [])))
    else if r.kind == "Cluster"
    then (if cluster != "" then err err_multiple_clusters else later)
    else others

-- Validate, behind the builder
unfoldable pub cluster_of : List Resource → Result String
cluster_of rs = elim (find_cluster rs "") [
  | err e ↦ err e
  | ok cluster ↦ if cluster == "" then err err_no_cluster_resource else ok cluster
]

-- what the loop of validateDir has found
pub record Found : Type 0 where
  pub kustomization : Bool
  pub configurations : Bool
  pub manifest : String

unfoldable pub scan_dir : List FileInfo → Found → Result Found
scan_dir [] found = ok found
scan_dir (info ∷ infos) found =
    let with_kustomization = scan_dir infos (record found { kustomization = true }) in
    let with_configurations = scan_dir infos (record found { configurations = true }) in
    let with_manifest = scan_dir infos (record found { manifest = info.name }) in
    if info.is_dir
    then err (message (sprint ("found subdirectory: " ∷ info.name ∷ [])))
    else if info.name == "kustomization.yaml"
    then with_kustomization
    else if info.name == "configurations.yaml"
    then with_configurations
    else if found.manifest != ""
    then err err_multiple_manifests
    else with_manifest

abbrev pub nothing_found : Found
nothing_found = record { kustomization = false; configurations = false; manifest = "" }

-- validateDir, up to the name of the manifest
unfoldable pub manifest_of : List FileInfo → Result String
manifest_of infos = elim (scan_dir infos nothing_found) [
  | err e ↦ err e
  | ok found ↦
      if found.manifest == ""
      then err err_no_manifest
      else if not found.kustomization
      then err err_no_kustomization_yaml
      else if not found.configurations
      then err err_no_configurations_yaml
      else ok found.manifest
]

module _ {api : Api} where
  -- Validate
  unfoldable pub validate : String → Exec api Error String
  validate file_name = do
    got ← perform (manifest_infos file_name)
    infos ← or_else got λ e. return_now (wrapping err_builder_failed_run (text e))
    or_else (cluster_of infos) λ e. return_now e

  -- validateDir
  unfoldable pub validate_dir : String → List FileInfo → Exec api Error String
  unfolding validate join_path
  validate_dir dir_path infos = do
    manifest ← or_else (manifest_of infos) λ e. return_now e
    validate (join_path (dir_path ∷ manifest ∷ []))

  -- ValidateGitDir behind the clone
  unfoldable pub validate_clone : String → String → Exec api Error String
  unfolding join_path
  validate_clone dir repo_path = do
    tree ← perform (git_worktree dir)
    must "failed to get repo worktree" tree
    got ← perform (file_read_dir dir repo_path)
    infos ← must "failed to list repo directory" got
    validate_dir (join_path (dir ∷ repo_path ∷ [])) infos

  -- ValidateGitDir; the clone is removed however the validation ends
  unfoldable pub validate_git_dir : RepoCreds → String → String → String → Exec api Error String
  unfolding clone_repo
  validate_git_dir creds repo_url repo_revision repo_path = do
    cloned ← attempt (clone_repo creds repo_url repo_revision)
    dir ← must "failed to clone repo" cloned
    result ← attempt (validate_clone dir repo_path)
    perform (dir_remove_all dir)
    or_else result λ e. return_now e

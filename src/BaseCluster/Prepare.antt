-- ===== src/BaseCluster/Prepare.antt =====
-- pkg/basecluster/prepare.go: a directory in git is made a cluster template. Converting and encoding a
-- resource is a parameter, `encode`; what it writes is read back as the resource.
use karlon.Base.{
  Bool, true, false, not, ◌==◌, ◌!=◌, ◌&&◌, ◌||◌, String, Option, some, List, [], ◌∷◌,
  if◌then◌else◌,
}
use karlon.Base.Dict.{Dict, get, insert, or_empty}
use karlon.Base.Number.{ℤ, itoa}
use karlon.Base.Path.{join_path}
use karlon.Base.Result.{Error, Result, ok, err, message, because}
use karlon.Base.Text.{sprint}
use karlon.BaseCluster.{Found, nothing_found}
use karlon.Git.{clone_repo, commit_changes}
use karlon.Services.{
  Api, RepoCreds, FileInfo, Resource, git_worktree, git_push, file_read_dir, file_create,
  file_truncate, file_write, dir_remove_all, manifest_infos,
}
use karlon.Services.Exec.{Exec, ◌>>=◌, ◌>>◌, pure, return_now, perform, or_else, must, attempt}

abbrev pub cas_min_annotation : String
cas_min_annotation = "cluster.x-k8s.io/cluster-api-autoscaler-node-group-min-size"

abbrev pub cas_max_annotation : String
cas_max_annotation = "cluster.x-k8s.io/cluster-api-autoscaler-node-group-max-size"

abbrev pub err_2_or_more_clusters : Error
err_2_or_more_clusters = message "there are 2 or more clusters"

-- one annotation, where it has no value
unfoldable pub add_missing : String → String → Dict String × Bool → Dict String × Bool
add_missing key value (notes, modified) =
    if get key notes == "" then (insert key value notes, true) else (notes, modified)

-- addClusterAutoscalerAnnotations
unfoldable pub add_cas_annotations : Option (Dict String) → ℤ → ℤ → Dict String × Bool
add_cas_annotations notes cas_max cas_min =
    add_missing cas_min_annotation (itoa cas_min)
      (add_missing cas_max_annotation (itoa cas_max) (or_empty notes, false))

-- prepareCAPIManifestThenEncode, before the encoding: the resource, and whether it was modified
unfoldable pub without_namespace : Resource → Resource × Bool
without_namespace r = if r.namespace != "" then (record r { namespace = "" }, true) else (r, false)

unfoldable pub with_annotations : ℤ → ℤ → Resource × Bool → Resource × Bool
with_annotations cas_max cas_min (r, modified) =
    let (notes, changed) = add_cas_annotations r.annotations cas_max cas_min in
    if r.kind == "MachineDeployment" && changed
    then (record r { annotations = some notes }, true)
    else (r, modified)

unfoldable pub prepare_resource : ℤ → ℤ → Resource → Resource × Bool
prepare_resource cas_max cas_min r = with_annotations cas_max cas_min (without_namespace r)

-- what the loop of Prepare has: the cluster's name, the resources to encode, and `dirty`
pub record Prepared : Type 0 where
  pub cluster : String
  pub resources : List Resource
  pub dirty : Bool

abbrev pub put_first : Resource → Bool → Result Prepared → Result Prepared
put_first r modified (err e) = err e
put_first r modified (ok p) =
    ok (record p { resources = r ∷ p.resources; dirty = modified || p.dirty })

module _ (encode : Resource → Result String) where
  -- the loop of Prepare; the text is the cluster's name so far
  unfoldable pub prepare_all : ℤ → ℤ → List Resource → String → Result Prepared
  prepare_all cas_max cas_min [] cluster =
      ok (record { cluster = cluster; resources = []; dirty = false })
  prepare_all cas_max cas_min (r ∷ rs) cluster =
      let named = prepare_all cas_max cas_min rs r.name in
      let unnamed = prepare_all cas_max cas_min rs cluster in
      let (prepared, modified) = prepare_resource cas_max cas_min r in
      if r.kind == "Cluster" && cluster != ""
      then err err_2_or_more_clusters
      else elim (encode prepared) [
        | err e ↦ err (
            because "failed to remove namespace or encode object"
              (because "failed to encode object" e))
        | ok text ↦ put_first prepared modified (if r.kind == "Cluster" then named else unnamed)
      ]

  -- Prepare behind the builder, without validateOnly
  unfoldable pub prepare : ℤ → ℤ → List Resource → Result Prepared
  prepare cas_max cas_min rs = elim (prepare_all cas_max cas_min rs "") [
    | err e ↦ err e
    | ok p ↦ if p.cluster == "" then err (message "failed to find cluster resource") else ok p
  ]

-- the loop of prepareDir
unfoldable pub scan_files : List FileInfo → Found → Result Found
scan_files [] found = ok found
scan_files (info ∷ infos) found =
    let with_kustomization = scan_files infos (record found { kustomization = true }) in
    let with_configurations = scan_files infos (record found { configurations = true }) in
    let with_manifest = scan_files infos (record found { manifest = info.name }) in
    if info.is_dir
    then err (message (sprint ("found subdirectory: " ∷ info.name ∷ [])))
    else if info.name == "kustomization.yaml"
    then with_kustomization
    else if info.name == "configurations.yaml"
    then with_configurations
    else if found.manifest != ""
    then err (
        message
          (sprint ("multiple manifests found: (" ∷ found.manifest ∷ ", " ∷ info.name ∷ ")" ∷ [])))
    else with_manifest

-- kustomizationYamlTemplate
abbrev pub render_kustomization : String → String
render_kustomization manifest =
    sprint ("resources:\n- " ∷ manifest ∷ "\n\nconfigurations:\n- configurations.yaml\n" ∷ [])

module _ (encode : Resource → Result String) (encoded : List Resource → String)
    (configurations_yaml : String) where
  module _ {api : Api} where
    -- a file that is missing
    unfoldable pub add_file_at : String → String → String → String → Exec api Error (Unit {0})
    add_file_at dir path name text = do
      created ← perform (file_create dir path)
      must (sprint ("failed to create " ∷ name ∷ [])) created
      written ← perform (file_write dir path text)
      must (sprint ("failed to write to " ∷ name ∷ [])) written

    -- the manifest, where it was modified
    unfoldable pub overwrite_manifest : String → String → Prepared → Exec api Error (Unit {0})
    overwrite_manifest dir path p = if not p.dirty then pure tt else do
      opened ← perform (file_truncate dir path)
      must "failed to open manifest for writing" opened
      written ← perform (file_write dir path (encoded p.resources))
      must "failed to write to manifest" written

    -- prepareDir: the name of the manifest and of the cluster
    unfoldable pub prepare_dir : String → String → ℤ → ℤ → Exec api Error (String × String)
    prepare_dir dir path cas_max cas_min = do
      got ← perform (file_read_dir dir path)
      infos ← must "failed to list repo directory" got
      found ← or_else (scan_files infos nothing_found) return_now
      if found.manifest == ""
          then return_now (message "failed to find cluster template manifest file")
          else pure tt
      let manifest_path = join_path (path ∷ found.manifest ∷ [])
      read ← perform (manifest_infos (join_path (dir ∷ manifest_path ∷ [])))
      resources ←
          or_else read λ e.
            return_now (because "failed to prepare manifest" (because "builder failed to run" e))
      p ← must "failed to prepare manifest" (prepare encode cas_max cas_min resources)
      overwrite_manifest dir manifest_path p
      if not found.kustomization
          then add_file_at dir (join_path (path ∷ "kustomization.yaml" ∷ [])) "kustomization.yaml"
              (render_kustomization found.manifest)
          else pure tt
      if not found.configurations
          then add_file_at dir (join_path (path ∷ "configurations.yaml" ∷ [])) "configurations.yaml"
              configurations_yaml
          else pure tt
      pure (found.manifest, p.cluster)

    -- PrepareGitDir behind the clone: the cluster's name, and whether something changed
    unfoldable pub prepare_clone :
        RepoCreds → String → String → ℤ → ℤ → Exec api Error (String × Bool)
    prepare_clone creds dir path cas_max cas_min = do
      tree ← perform (git_worktree dir)
      must "failed to get repo worktree" tree
      prepared ← attempt (prepare_dir dir path cas_max cas_min)
      (manifest, cluster) ← must "failed to prepare directory" prepared
      committed ← attempt (
          commit_changes dir (
            sprint ("prepare cluster template files for " ∷ join_path (path ∷ manifest ∷ []) ∷ [])))
      changed ← must "failed to commit changes" committed
      if changed
          then (do
            pushed ← perform (git_push dir creds)
            must "failed to push to remote repository" pushed)
          else pure tt
      pure (cluster, changed)

    -- PrepareGitDir; the clone is removed however it ends
    unfoldable pub prepare_git_dir :
        RepoCreds → String → String → String → ℤ → ℤ → Exec api Error (String × Bool)
    prepare_git_dir creds url revision path cas_max cas_min = do
      cloned ← attempt (clone_repo creds url revision)
      dir ← must "failed to clone repo" cloned
      result ← attempt (prepare_clone creds dir path cas_max cas_min)
      perform (dir_remove_all dir)
      or_else result return_now

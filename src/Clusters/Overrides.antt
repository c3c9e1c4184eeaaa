-- ===== src/Clusters/Overrides.antt =====
-- The directory of patches of a cluster in git: CreatePatchDir (pkg/cluster/create.go),
-- DeployPatchToGit (git.go), CopyPatchManifests (pkg/gitutils/manifests.go) and DeleteOverridesDir
-- (delete.go).
use karlon.Base.{String, [], ◌∷◌, if◌then◌else◌}
use karlon.Base.Dict.{get, or_empty}
use karlon.Base.Path.{join_path}
use karlon.Base.Text.{sprint}
use karlon.Base.Result.{Error, message}
use karlon.Objects.{Application}
use karlon.Services.{
  Api, Libraries, Kustomization, RepoCreds, kube_client, git_worktree, git_push, file_lstat,
  file_remove, file_create, file_write,
}
use karlon.Services.Exec.{Exec, ◌>>=◌, ◌>>◌, pure, return_now, perform, or_else, must, attempt}
use karlon.Git.{get_repo_creds, clone_repo, clear_dir, commit_changes, commit_delete_changes}
use karlon.Clusters.{
  base_cluster_repo_url_annotation, base_cluster_repo_revision_annotation,
  base_cluster_repo_path_annotation,
}

-- the patched resource, the base in git
abbrev pub kustomization_of : String → String → String → Kustomization
kustomization_of base_url base_path base_revision = record {
  api_version = "kustomize.config.k8s.io/v1beta1";
  kind = "Kustomization";
  resources = sprint ("git::" ∷ base_url ∷ "//" ∷ base_path ∷ "?ref=" ∷ base_revision ∷ []) ∷ [];
  configurations = "configurations.yaml" ∷ [];
  patches = "patches.yaml" ∷ [];
}

-- clusterPathFromBasePath
abbrev pub cluster_path : String → String → String
cluster_path base_path name = join_path (base_path ∷ name ∷ [])

module _ (lib : Libraries) (configurations_yaml : String) where
  module _ {api : Api} where
    -- CopyPatchManifests
    unfoldable pub copy_patch_manifests :
        String → String → String → String → String → String → Exec api Error (Unit {0})
    copy_patch_manifests dir patch path base_url base_path base_revision = do
      yaml ←
          must "Failed to marshal the kustomization file"
            (lib.marshal (kustomization_of base_url base_path base_revision))
      template ← must "failed to create kustomization template" (lib.parse yaml)
      created ← perform (file_create dir (join_path (path ∷ "kustomization.yaml" ∷ [])))
      must "failed to create kustomization.yaml" created
      rendered ←
          or_else (lib.execute template)
            λ e. return_now (message "failed to execute kustomization.yaml manifest")
      written ← perform (file_write dir (join_path (path ∷ "kustomization.yaml" ∷ [])) rendered)
      or_else written λ e. return_now (message "failed to execute kustomization.yaml manifest")
      let dst = join_path (path ∷ "patches.yaml" ∷ [])
      created' ← perform (file_create dir dst)
      must (sprint ("failed to create destination file " ∷ dst ∷ [])) created'
      written' ← perform (file_write dir dst patch)
      must "failed to copy embedded file" written'

    -- DeployPatchToGit
    unfoldable pub deploy_patch_to_git :
        RepoCreds
        → String
        → String
        → String
        → String
        → String
        → String
        → String
        → String
        → Exec api Error (Unit {0})
    deploy_patch_to_git creds name url revision base_revision base patch base_url base_path = do
      cloned ← attempt (clone_repo creds url revision)
      dir ← must "failed to clone repo" cloned
      let path = cluster_path base name
      tree ← perform (git_worktree dir)
      must "failed to get repo worktree" tree
      clear_dir dir path
      copied ← attempt (copy_patch_manifests dir patch path base_url base_path base_revision)
      must "failed to copy embedded content" copied
      let conf = join_path (path ∷ "configurations.yaml" ∷ [])
      created ← perform (file_create dir conf)
      must "failed to create configurations.yaml" created
      written ← perform (file_write dir conf configurations_yaml)
      must "failed to write to configurations.yaml" written
      committed ←
          attempt
            (commit_changes dir (sprint ("deploy patches of the kkarlon cluster in " ∷ path ∷ [])))
      changed ← must "failed to commit changes" committed
      pushed ← perform (git_push dir creds)
      must "failed to push to remote repository" pushed

    -- CreatePatchDir
    unfoldable pub create_patch_dir :
        String
        → String
        → String
        → String
        → String
        → String
        → String
        → String
        → String
        → Exec api Error (Unit {0})
    create_patch_dir name url argocd_ns base revision base_revision patch base_url base_path = do
      client ← perform kube_client
      must "failed to get kube client" client
      creds_or ← attempt (get_repo_creds argocd_ns url)
      creds ← must "failed to get repo credentials" creds_or
      deployed ←
          attempt (
            deploy_patch_to_git creds name url revision base_revision base patch base_url base_path)
      must "failed to deploy git tree" deployed

module _ {api : Api} where
  -- DeleteOverridesDir
  unfoldable pub delete_overrides_dir : Application → String → String → Exec api Error (Unit {0})
  delete_overrides_dir app argocd_ns name = do
    let notes = or_empty app.meta.annotations
    let url = get base_cluster_repo_url_annotation notes
    let revision = get base_cluster_repo_revision_annotation notes
    let path = sprint (get base_cluster_repo_path_annotation notes ∷ "/" ∷ name ∷ [])
    creds_or ← attempt (get_repo_creds argocd_ns url)
    creds ← must "failed to get repo credentials" creds_or
    cloned ← attempt (clone_repo creds url revision)
    dir ← must "failed to clone repo" cloned
    tree ← perform (git_worktree dir)
    must "failed to get working tree" tree
    found ← perform (file_lstat dir path)
    info ← must "Failed to find the directory to delete" found
    if info.is_dir
        then pure tt
        else return_now (message (sprint ("unexpected file type for " ∷ path ∷ [])))
    removed ← perform (file_remove dir path)
    must "failed to recursively delete cluster directory" removed
    committed ←
        attempt (commit_delete_changes dir (sprint ("Deleted the files regarding to " ∷ path ∷ [])))
    changed ← must "failed to commit changes" committed
    if changed
        then (do
          pushed ← perform (git_push dir creds)
          must "failed to push to remote repository" pushed)
        else pure tt

-- ===== src/Clusters/Deploy.antt =====
-- The directory of a gen1 cluster in git: DeployToGit and ProcessDynamicProfile (pkg/cluster/git.go),
-- and the paths in it (util.go).
use karlon.Base.{◌!=◌, String, List, [], ◌∷◌, if◌then◌else◌}
use karlon.Base.Path.{join_path}
use karlon.Base.Result.{Error, Result, ok, err, message}
use karlon.Base.Text.{sprint, split, join}
use karlon.Objects.{Profile}
use karlon.Services.{Api, Libraries, RepoCreds, git_worktree, git_push, file_create, file_write}
use karlon.Services.Exec.{Exec, ◌>>=◌, ◌>>◌, pure, perform, must, attempt}
use karlon.Bundles.{Bundle}
use karlon.Clusters.Overrides.{cluster_path}
use karlon.Git.{clone_repo, clear_dir, commit_changes}
use karlon.Git.BundleApps.{process_bundles}
use karlon.Git.Embedded.{copy_manifests}
use karlon.Profiles.Overrides.{make_overrides_map}

-- mgmtPathFromClusterPath, workloadPathFromClusterPath and mgmtPathFromBasePath
abbrev pub mgmt_path_from_cluster_path : String → String
mgmt_path_from_cluster_path path = join_path (path ∷ "mgmt" ∷ [])

abbrev pub workload_path_from_cluster_path : String → String
workload_path_from_cluster_path path = join_path (path ∷ "workload" ∷ [])

abbrev pub mgmt_path_from_base_path : String → String → String
mgmt_path_from_base_path base_path name = join_path (cluster_path base_path name ∷ "mgmt" ∷ [])

-- decomposePath, on the components from the last one: the base path and the cluster's name
unfoldable pub decompose_reversed : List String → Result (String × List String)
decompose_reversed (last ∷ name ∷ c ∷ cs) =
    if last != "mgmt"
    then err
        (message (sprint ("malformed repo path: unexpected last component (" ∷ last ∷ ")" ∷ [])))
    else ok (name, c ∷ cs)
decompose_reversed _ = err (message "malformed repo path")

unfoldable pub reversed_onto : List String → List String → List String
reversed_onto [] ys = ys
reversed_onto (x ∷ xs) ys = reversed_onto xs (x ∷ ys)

unfoldable pub decompose_path : String → Result (String × String)
decompose_path mgmt_path = elim (decompose_reversed (reversed_onto (split "/" mgmt_path) [])) [
  | err e ↦ err e
  | ok (name, components) ↦ ok (join "/" (reversed_onto components []), name)
]

-- dynProfTmpl, executed on the settings that ProcessDynamicProfile makes
unfoldable pub render_profile_app : String → String → String → String → String → String
render_profile_app app_name namespace repo_url repo_path cluster_name = sprint (
    "\napiVersion: argoproj.io/v1alpha1\nkind: Application\nmetadata:\n  name: " ∷ app_name
    ∷ "\n  namespace: " ∷ namespace ∷ "\n  finalizers:\n  # This solves issue #17"
    ∷ "\n  - resources-finalizer.argocd.argoproj.io/foreground"
    ∷ "\nspec:\n  syncPolicy:\n    automated:\n      prune: true\n  destination:"
    ∷ "\n    server: https://kubernetes.default.svc\n    namespace: " ∷ namespace
    ∷ "\n  project: default\n  source:\n    repoURL: " ∷ repo_url ∷ "\n    path: " ∷ repo_path
    ∷ "\n    targetRevision: HEAD\n    helm:\n      parameters:\n      - name: clusterName"
    ∷ "\n        value: " ∷ cluster_name ∷ "\n      - name: profileAppName\n        value: "
    ∷ app_name ∷ "\n" ∷ [])

module _ {api : Api} where
  -- ProcessDynamicProfile
  unfoldable pub process_dynamic_profile :
      String → String → String → String → String → String → String → Exec api Error (Unit {0})
  process_dynamic_profile dir cluster_name profile_name argocd_ns repo_url repo_path app_path = do
    let app_name = sprint (cluster_name ∷ "-profile-" ∷ profile_name ∷ [])
    created ← perform (file_create dir app_path)
    must (sprint ("failed to create application file " ∷ app_path ∷ [])) created
    rendered ← perform (
        file_write dir app_path (
          render_profile_app app_name argocd_ns repo_url (join_path (repo_path ∷ "mgmt" ∷ []))
            cluster_name))
    must (sprint ("failed to render application template " ∷ app_path ∷ [])) rendered

  -- what the profile puts into the directory
  unfoldable pub deploy_profile :
      String → String → String → String → String → List Bundle → Profile → Exec api Error (Unit {0})
  deploy_profile dir argocd_ns name repo_url path bundles prof = do
    let mgmt_path = mgmt_path_from_cluster_path path
    if prof.spec.repo_url != ""
        then (do
          processed ← attempt (
              process_dynamic_profile dir name prof.name argocd_ns prof.spec.repo_url
                prof.spec.repo_path (join_path (mgmt_path ∷ "templates" ∷ "profile.yaml" ∷ [])))
          must "failed to process dynamic profile" processed)
        else (do
          processed ← attempt (
              process_bundles dir name repo_url mgmt_path (workload_path_from_cluster_path path)
                bundles (make_overrides_map prof))
          must "failed to process bundles" processed)

module _ (lib : Libraries) where
  module _ {api : Api} where
    -- DeployToGit
    unfoldable pub deploy_to_git :
        RepoCreds
        → String
        → List Bundle
        → String
        → String
        → String
        → String
        → Profile
        → Exec api Error (Unit {0})
    deploy_to_git creds argocd_ns bundles name repo_url repo_branch base_path prof = do
      cloned ← attempt (clone_repo creds repo_url repo_branch)
      dir ← must "failed to clone repo" cloned
      let path = cluster_path base_path name
      tree ← perform (git_worktree dir)
      must "failed to get repo worktree" tree
      clear_dir dir path
      copied ←
          attempt (copy_manifests dir "." lib.cluster_manifests (mgmt_path_from_cluster_path path))
      must "failed to copy embedded content" copied
      deploy_profile dir argocd_ns name repo_url path bundles prof
      committed ← attempt (commit_changes dir (sprint ("deploy kkarlon cluster " ∷ path ∷ [])))
      changed ← must "failed to commit changes" committed
      if changed
          then (do
            pushed ← perform (git_push dir creds)
            must "failed to push to remote repository" pushed)
          else pure tt

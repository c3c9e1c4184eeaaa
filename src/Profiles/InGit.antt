-- ===== src/Profiles/InGit.antt =====
-- createInGit of pkg/profile/git.go: the directory of a dynamic profile is made anew. The embedded
-- manifests are a parameter.
use karlon.Base.{List, [], ◌∷◌, if◌then◌else◌}
use karlon.Base.Path.{join_path}
use karlon.Base.Result.{Error}
use karlon.Base.Text.{sprint}
use karlon.Objects.{Profile}
use karlon.Services.{Api, RepoCreds, Entries, git_worktree, git_push}
use karlon.Services.Exec.{Exec, ◌>>=◌, ◌>>◌, pure, perform, must, attempt}
use karlon.Bundles.{Bundle}
use karlon.Git.{clone_repo, clear_dir, commit_changes}
use karlon.Git.BundleApps.{process_bundles}
use karlon.Git.Embedded.{copy_manifests}
use karlon.Profiles.Overrides.{make_overrides_map}

module _ (embedded : Entries) where
  module _ {api : Api} where
    unfoldable pub create_in_git : RepoCreds → Profile → List Bundle → Exec api Error (Unit {0})
    create_in_git creds profile bundles = do
      cloned ← attempt (clone_repo creds profile.spec.repo_url profile.spec.repo_revision)
      dir ← must "failed to clone repo" cloned
      tree ← perform (git_worktree dir)
      must "failed to get repo worktree" tree
      clear_dir dir profile.spec.repo_path
      let mgmt_path = join_path (profile.spec.repo_path ∷ "mgmt" ∷ [])
      copied ← attempt (copy_manifests dir "." embedded mgmt_path)
      must "failed to copy embedded content" copied
      let workload_path = join_path (profile.spec.repo_path ∷ "workload" ∷ [])
      processed ← attempt (
          process_bundles dir "{{ .Values.clusterName }}" profile.spec.repo_url mgmt_path
            workload_path bundles (make_overrides_map profile))
      must "failed to process bundles" processed
      committed ←
          attempt
            (commit_changes dir (sprint ("manage kkarlon profile " ∷ profile.spec.repo_path ∷ [])))
      changed ← must "failed to commit changes" committed
      if changed
          then (do
            pushed ← perform (git_push dir creds)
            must "failed to push to remote repository" pushed)
          else pure tt

-- ===== src/Git.antt =====
-- pkg/argocd/repo.go and pkg/gitutils/gitutils.go: a repository registered with ArgoCD is cloned, and
-- what has changed in the clone is committed. Making the directory and cloning into it are one call.
pub mod Commits
pub mod BundleApps
pub mod BundleFiles
pub mod StoredBundles
pub mod Embedded
mod Tests
use karlon.Base.{
  Bool, true, false, ◌==◌, String, Option, none, some, List, [], ◌∷◌, find_first, if◌then◌else◌,
}
use karlon.Base.Dict.{Dict, get}
use karlon.Base.Text.{sprint}
use karlon.Base.Result.{Error, Result, ok, err, message, because, is_not_found}
use karlon.Objects.{Secret}
use karlon.Services.{
  Call, Api, State, RepoCreds, FileInfo, FileStatus, kube_client, secret_list, make_temp_dir,
  git_clone, git_status, git_add, git_commit, file_lstat, file_stat, file_remove,
}
use karlon.Services.Exec.{Exec, ◌>>=◌, ◌>>◌, pure, return_now, perform, or_else, must, attempt}

abbrev pub creds_of : Secret → RepoCreds
creds_of secret = record {
  url = get "url" secret.content;
  username = get "username" secret.content;
  password = get "password" secret.content;
}

module _ {api : Api} where
  -- GetRepoCredsFromArgoCd
  unfoldable pub get_repo_creds : String → String → Exec api Error RepoCreds
  get_repo_creds argocd_ns repo_url = do
    listed ← perform (secret_list argocd_ns "argocd.argoproj.io/secret-type=repository")
    secrets ← must "failed to list secrets" listed
    elim (find_first (λ (secret : Secret). repo_url == get "url" secret.content) secrets) [
      | none ↦ return_now (
          message (
            sprint (
              "did not find argocd repository matching " ∷ repo_url ∷ " (did you register it?)"
              ∷ [])))
      | some secret ↦ pure (creds_of secret)
    ]

  -- GetKubeclientAndRepoCreds
  unfoldable pub get_client_and_creds : String → String → Exec api Error RepoCreds
  unfolding get_repo_creds
  get_client_and_creds argocd_ns repo_url = do
    client ← perform kube_client
    must "failed to get kubernetes client" client
    creds ← attempt (get_repo_creds argocd_ns repo_url)
    must "failed to get repository credentials from argocd" creds

  -- CloneRepo
  unfoldable pub clone_repo : RepoCreds → String → String → Exec api Error String
  clone_repo creds repo_url branch = do
    made ← perform (make_temp_dir "kkarlon-")
    dir ← or_else made return_now
    cloned ← perform (git_clone dir creds repo_url branch)
    must "failed to clone repository" cloned
    pure dir

  -- an old directory goes first
  unfoldable pub clear_dir : String → String → Exec api Error (Unit {0})
  clear_dir dir path = do
    found ← perform (file_lstat dir path)
    elim found [
      | err e ↦ pure tt
      | ok info ↦
          if info.is_dir
          then (do
            removed ← perform (file_remove dir path)
            must "failed to recursively delete cluster directory" removed)
          else return_now (message (sprint ("unexpected file type for " ∷ path ∷ [])))
    ]

  -- one round of the loop of CommitChanges: whether the file was added. The callers keep only the
  -- text of its error.
  unfoldable pub add_file : String → FileStatus → Exec api Error Bool
  add_file dir status = if status.deleted then pure false else do
    got ← perform (file_lstat dir status.file)
    info ← must (sprint ("failed to check if " ∷ status.file ∷ " is a symlink" ∷ [])) got
    if info.is_symlink
        then (do
          target ← perform (file_stat dir status.file)
          elim target [
            | ok _ ↦ do perform (git_add dir status.file); pure true
            | err e ↦
                if is_not_found e
                then pure false
                else do perform (git_add dir status.file); pure true
          ])
        else do perform (git_add dir status.file); pure true

  -- the loop; the Boolean is `changed`
  unfoldable pub add_files : String → List FileStatus → Bool → Exec api Error Bool
  add_files dir [] changed = pure changed
  add_files dir (status ∷ rest) changed = do
    added ← add_file dir status
    add_files dir rest (if added then true else changed)

  unfoldable pub commit_changes : String → String → Exec api Error Bool
  commit_changes dir msg = do
    got ← perform (git_status dir)
    statuses ← must "failed to get worktree status" got
    changed ← add_files dir statuses false
    if changed
        then (do
          committed ← perform (git_commit dir msg)
          must "failed to commit change" committed
          pure true)
        else pure false

  unfoldable pub add_every_file : String → List FileStatus → Bool → Exec api Error Bool
  add_every_file dir [] changed = pure changed
  add_every_file dir (status ∷ rest) changed = do
    perform (git_add dir status.file)
    add_every_file dir rest true

  unfoldable pub commit_delete_changes : String → String → Exec api Error Bool
  commit_delete_changes dir msg = do
    got ← perform (git_status dir)
    statuses ← must "failed to get worktree status" got
    changed ← add_every_file dir statuses false
    if changed
        then (do
          committed ← perform (git_commit dir msg)
          must "failed to commit change" committed
          pure true)
        else pure false

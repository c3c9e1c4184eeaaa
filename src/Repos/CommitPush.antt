-- ===== src/Repos/CommitPush.antt =====
-- pkg/gitrepo/commit_push.go: one file is committed and pushed.
use karlon.Base.{◌==◌, ◌||◌, String, [], ◌∷◌, if◌then◌else◌}
use karlon.Base.Path.{join_path, dir_of}
use karlon.Base.Result.{Error, Result, message, chained}
use karlon.Base.Text.{sprint}
use karlon.Services.{
  Api, make_temp_dir, git_clone_branch, path_make_dirs, path_write_file, git_worktree, git_add_file,
  git_commit, get_env, git_push, dir_remove_all,
}
use karlon.Services.Exec.{Exec, ◌>>=◌, ◌>>◌, pure, perform, or_else, return_now, attempt}

module _ {api : Api} where
  -- `if err != nil { return fmt.Errorf("text: %w", err) }`
  abbrev expect : {A : Type 0} → String → Result A → Exec api Error A
  expect t r = or_else r λ e. return_now (chained t e)

  -- the push, with the credentials of the environment
  unfoldable pub push_file : String → String → Exec api Error (Unit {0})
  push_file url dir = do
    username ← perform (get_env "GIT_USERNAME")
    password ← perform (get_env "GIT_TOKEN")
    if username == "" || password == ""
        then return_now (
            message
              "GIT_USERNAME and GIT_TOKEN environment variables must be set for push authentication")
        else pure tt
    pushed ← perform (git_push dir (record { url = url; username = username; password = password }))
    expect "failed to push" pushed

  -- CommitAndPushFile in its temporary directory
  unfoldable pub commit_file :
      String → String → String → String → String → String → Exec api Error (Unit {0})
  commit_file dir repo_url branch file_path content commit_msg = do
    cloned ← perform (git_clone_branch dir repo_url (sprint ("refs/heads/" ∷ branch ∷ [])))
    expect "failed to clone repo" cloned
    let full_path : String = join_path (dir ∷ file_path ∷ [])
    made ← perform (path_make_dirs (dir_of full_path))
    expect "failed to create directory" made
    written ← perform (path_write_file full_path content)
    expect "failed to write file" written
    tree ← perform (git_worktree dir)
    expect "failed to get worktree" tree
    added ← perform (git_add_file dir file_path)
    expect "failed to add file" added
    committed ← perform (git_commit dir commit_msg)
    expect "failed to commit" committed
    push_file repo_url dir

  -- CommitAndPushFile; the directory is removed however it ends
  unfoldable pub commit_and_push_file :
      String → String → String → String → String → Exec api Error (Unit {0})
  commit_and_push_file repo_url branch file_path content commit_msg = do
    made ← perform (make_temp_dir "kkarlon-git-")
    dir ← expect "failed to create temp dir" made
    result ← attempt (commit_file dir repo_url branch file_path content commit_msg)
    perform (dir_remove_all dir)
    or_else result return_now

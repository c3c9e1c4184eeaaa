-- ===== src/Repos/Pushed.antt =====
-- How the commit of one file ends.
use karlon.Base.{◌≡◌, refl, arith, false, ◌==◌, ◌||◌, String, List, [], ◌∷◌}
use karlon.Base.Path.{join_path, dir_of}
use karlon.Base.Result.{Error}
use karlon.Base.Text.{sprint}
use karlon.Services.{
  Call, Api, State, make_temp_dir, git_clone_branch, path_make_dirs, path_write_file, git_worktree,
  git_add_file, git_commit, git_push, get_env, dir_remove_all,
}
use karlon.Services.Exec.{Flow, stop, go}
use karlon.Repos.CommitPush.{push_file, commit_file, commit_and_push_file}

-- what is to be committed
pub record Commit : Type 0 where
  pub repo_url : String
  pub branch : String
  pub file_path : String
  pub content : String
  pub msg : String

-- the last call removes a temporary directory, or has tried to make one
unfoldable pub IsTidy : List Call → Type 0
IsTidy (dir_remove_all dir ∷ calls) = Unit
IsTidy (make_temp_dir prefix ∷ calls) = Unit
IsTidy _ = ⊥

-- the calls that put the file into a clone of the branch and commit it, the latest first
abbrev pub commit_calls : Commit → String → List Call → List Call
commit_calls c dir before =
    git_commit dir c.msg
    ∷ git_add_file dir c.file_path
    ∷ git_worktree dir
    ∷ path_write_file (join_path (dir ∷ c.file_path ∷ [])) c.content
    ∷ path_make_dirs (dir_of (join_path (dir ∷ c.file_path ∷ [])))
    ∷ git_clone_branch dir c.repo_url (sprint ("refs/heads/" ∷ c.branch ∷ []))
    ∷ before

-- the last calls read the credentials and push with them, and neither of them is empty
pub record IsPushed (url dir : String) (before calls : List Call) : Type 0 where
  pub username : String
  pub password : String
  pub given : (username == "" || password == "") ≡ false
  pub last :
      calls
      ≡ git_push dir (record { url = url; username = username; password = password })
        ∷ get_env "GIT_TOKEN"
        ∷ get_env "GIT_USERNAME"
        ∷ before

pushed_lem :
    (url dir username password : String) (before : List Call)
    → (username == "" || password == "") ≡ false
    → IsPushed url dir before (
        git_push dir (record { url = url; username = username; password = password })
        ∷ get_env "GIT_TOKEN"
        ∷ get_env "GIT_USERNAME"
        ∷ before)
pushed_lem url dir username password before given = record {
  username = username;
  password = password;
  given = given;
  last = refl;
}

-- the calls behind `before` are those of a run that makes a directory, commits in it, pushes and removes it
pub record IsPublished (c : Commit) (before calls : List Call) : Type 0 where
  pub dir : String
  pub inner : List Call
  pub pushed :
      IsPushed c.repo_url dir (commit_calls c dir (make_temp_dir "kkarlon-git-" ∷ before)) inner
  pub last : calls ≡ dir_remove_all dir ∷ inner

published_lem :
    (c : Commit) (dir : String) (before inner : List Call)
    → IsPushed c.repo_url dir (commit_calls c dir (make_temp_dir "kkarlon-git-" ∷ before)) inner
    → IsPublished c before (dir_remove_all dir ∷ inner)
published_lem c dir before inner pushed = record {
  dir = dir;
  inner = inner;
  pushed = pushed;
  last = refl;
}

module _ {api : Api} where
  unfoldable Pushed : String → String → List Call → Flow Error (Unit {0}) × State api → Type 0
  Pushed url dir before (stop e, s) = Unit
  Pushed url dir before (go x, s) = IsPushed url dir before s.calls

  abbrev pub IsDone : Commit → List Call → Flow Error (Unit {0}) × State api → Type 0
  IsDone c before (stop e, s) = IsTidy s.calls
  IsDone c before (go x, s) = IsPublished c before s.calls

  stopped-Pushed :
      (url dir : String) (before : List Call) (e : Error) (s : State api)
      → Pushed url dir before (stop e, s)
  unfolding Pushed
  stopped-Pushed url dir before e s = tt

  push_file-Pushed :
      (url dir : String) (s : State api) → Pushed url dir s.calls (push_file url dir s)
  unfolding push_file Pushed
  push_file-Pushed url dir s = grind (arith, pushed_lem url dir)

  commit_file-Pushed :
      (c : Commit) (dir : String) (s : State api)
      → Pushed c.repo_url dir
          (commit_calls c dir s.calls)
          (commit_file dir c.repo_url c.branch c.file_path c.content c.msg s)
  unfolding commit_file
  commit_file-Pushed c dir s =
      grind (arith, push_file-Pushed c.repo_url dir, stopped-Pushed c.repo_url dir)

  -- Whatever the services answer, a run of CommitAndPushFile that ends well has cloned the branch
  -- into a new directory, written the content to the file, added the file and committed with the
  -- message, pushed the directory with a user and a password, and removed it, in this order and
  -- with no other call, and one that ends with an error has as its last call the removal of the
  -- directory, or the attempt to make it.
  pub commit_and_push_file_lem :
      (c : Commit) (s : State api)
      → IsDone c s.calls (commit_and_push_file c.repo_url c.branch c.file_path c.content c.msg s)
  unfolding commit_and_push_file Pushed IsTidy
  commit_and_push_file_lem c s =
      grind (arith, λ (dir : String). commit_file-Pushed c dir, published_lem c)

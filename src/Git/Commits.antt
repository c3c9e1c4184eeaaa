-- ===== src/Git/Commits.antt =====
-- What the git functions call, and when they commit.
use karlon.Base.{
  ◌≡◌, refl, arith, Bool, true, false, String, List, [], ◌∷◌, if◌then◌else◌, inl, inr, Bool-cases,
  All,
}
use karlon.Base.Result.{ok}
use karlon.Services.{
  Call, Api, State, RepoCreds, FileStatus, kube_client, secret_list, make_temp_dir, git_clone,
  git_worktree, git_status, git_add, git_commit, git_push, file_read_dir, file_lstat, file_stat,
  file_remove, file_make_dirs, file_create, file_write, dir_remove_all, manifest_infos,
}
use karlon.Services.Exec.{to_result}
use karlon.Git.{
  get_repo_creds, get_client_and_creds, clone_repo, clear_dir, add_file, add_files, commit_changes,
  add_every_file, commit_delete_changes,
}

-- the calls that concern a clone and the credentials for it, not the resources of karlon or ArgoCD
abbrev pub is_side : Call → Bool
is_side kube_client = true
is_side (secret_list ns selector) = true
is_side (make_temp_dir prefix) = true
is_side (git_clone dir creds url branch) = true
is_side (git_worktree dir) = true
is_side (git_status dir) = true
is_side (git_add dir f) = true
is_side (git_commit dir msg) = true
is_side (git_push dir creds) = true
is_side (file_read_dir dir p) = true
is_side (file_lstat dir p) = true
is_side (file_stat dir p) = true
is_side (file_remove dir p) = true
is_side (file_make_dirs dir p) = true
is_side (file_create dir p) = true
is_side (file_write dir p t) = true
is_side (dir_remove_all dir) = true
is_side (manifest_infos p) = true
is_side _ = false

-- the other calls
unfoldable pub others : List Call → List Call
others [] = []
others (c ∷ cs) = let rest = others cs in if is_side c then rest else c ∷ rest

module _ {api : Api} where
  pub get_repo_creds-others :
      (ns url : String) (s : State api) → others (get_repo_creds ns url s).1.calls ≡ others s.calls
  unfolding get_repo_creds others
  get_repo_creds-others ns url s = ground arith

  pub get_client_and_creds-others :
      (ns url : String) (s : State api)
      → others (get_client_and_creds ns url s).1.calls ≡ others s.calls
  unfolding get_client_and_creds others
  get_client_and_creds-others ns url s = grind (arith, get_repo_creds-others)

  pub clone_repo-others :
      (creds : RepoCreds) (url branch : String) (s : State api)
      → others (clone_repo creds url branch s).1.calls ≡ others s.calls
  unfolding clone_repo others
  clone_repo-others creds url branch s = ground arith

  pub clear_dir-others :
      (dir path : String) (s : State api) → others (clear_dir dir path s).1.calls ≡ others s.calls
  unfolding clear_dir others
  clear_dir-others dir path s = ground arith

  add_file-others :
      (dir : String) (status : FileStatus) (s : State api)
      → others (add_file dir status s).1.calls ≡ others s.calls
  unfolding add_file others
  add_file-others dir status s = ground arith

  add_files-others :
      (dir : String) (statuses : List FileStatus) (changed : Bool) (s : State api)
      → others (add_files dir statuses changed s).1.calls ≡ others s.calls
  unfolding add_files others
  add_files-others dir [] changed s = refl
  add_files-others dir (status ∷ rest) changed s =
      grind (arith, add_file-others dir status s, add_files-others dir rest)

  pub commit_changes-others :
      (dir msg : String) (s : State api)
      → others (commit_changes dir msg s).1.calls ≡ others s.calls
  unfolding commit_changes others
  commit_changes-others dir msg s = grind (arith, add_files-others)

  add_every_file-others :
      (dir : String) (statuses : List FileStatus) (changed : Bool) (s : State api)
      → others (add_every_file dir statuses changed s).1.calls ≡ others s.calls
  unfolding add_every_file others
  add_every_file-others dir [] changed s = refl
  add_every_file-others dir (status ∷ rest) changed s =
      grind (arith, add_every_file-others dir rest)

  pub commit_delete_changes-others :
      (dir msg : String) (s : State api)
      → others (commit_delete_changes dir msg s).1.calls ≡ others s.calls
  unfolding commit_delete_changes others
  commit_delete_changes-others dir msg s = grind (arith, add_every_file-others)

-- A predicate that holds of the side calls holds of all calls exactly if it holds of the others.
module _ (P : Call → Type 0) where
  pub All-others :
      (side : (c : Call) → is_side c ≡ true → P c) (cs : List Call) → All P (others cs) → All P cs
  unfolding others
  All-others side [] h = tt
  All-others side (c ∷ cs) h = elim (Bool-cases (is_side c)) [
    | inl aside ↦ (side c aside, All-others side cs (ground arith))
    | inr other ↦ ground (arith, All-others side cs)
  ]

  pub others-All : (cs : List Call) → All P cs → All P (others cs)
  unfolding others
  others-All [] h = tt
  others-All (c ∷ cs) h = elim (Bool-cases (is_side c)) [
    | inl aside ↦ ground (arith, others-All cs)
    | inr other ↦ ground (arith, others-All cs)
  ]

abbrev pub CommitsNone : Call → Type 0
CommitsNone (git_commit dir msg) = ⊥
CommitsNone _ = Unit

-- what the last call is
abbrev pub ends_in_commit : List Call → Bool
ends_in_commit (git_commit dir msg ∷ calls) = true
ends_in_commit _ = false

module _ {api : Api} where
  add_file-CommitsNone :
      (dir : String) (status : FileStatus) (s : State api)
      → All CommitsNone s.calls
      → All CommitsNone (add_file dir status s).1.calls
  unfolding add_file
  add_file-CommitsNone dir status s h = ground arith

  add_files-CommitsNone :
      (dir : String) (statuses : List FileStatus) (changed : Bool) (s : State api)
      → All CommitsNone s.calls
      → All CommitsNone (add_files dir statuses changed s).1.calls
  unfolding add_files
  add_files-CommitsNone dir [] changed s h = h
  add_files-CommitsNone dir (status ∷ rest) changed s h =
      grind (arith, add_file-CommitsNone dir status s h, add_files-CommitsNone dir rest)

  -- If no call before commits, CommitChanges that reports a change without an error has made a
  -- commit as its last call, and one that reports none has made no commit.
  pub commit_changes_lem :
      (dir msg : String) (s : State api)
      → All CommitsNone s.calls
      → (to_result (commit_changes dir msg s).0 ≡ ok true
          → ends_in_commit (commit_changes dir msg s).1.calls ≡ true)
        × (to_result (commit_changes dir msg s).0 ≡ ok false
            → All CommitsNone (commit_changes dir msg s).1.calls)
  unfolding commit_changes
  commit_changes_lem dir msg s h =
      (λ changed. grind arith, λ unchanged. grind (arith, add_files-CommitsNone))

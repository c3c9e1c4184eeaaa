-- ===== src/Clusters/Directory.antt =====
-- The functions on a cluster's directory in git make no calls but those that concern git.
use karlon.Base.{◌≡◌, arith, String}
use karlon.Objects.{Application}
use karlon.Services.{Api, State, Libraries, RepoCreds}
use karlon.Git.Commits.{
  others, get_repo_creds-others, clone_repo-others, clear_dir-others, commit_changes-others,
  commit_delete_changes-others,
}
use karlon.Clusters.Overrides.{
  copy_patch_manifests, deploy_patch_to_git, create_patch_dir, delete_overrides_dir,
}

module _ (lib : Libraries) (conf : String) {api : Api} where
  copy_patch_manifests-others :
      (dir patch path base_url base_path base_revision : String) (s : State api)
      → others
          (copy_patch_manifests lib conf dir patch path base_url base_path base_revision s).1.calls
        ≡ others s.calls
  unfolding copy_patch_manifests others
  copy_patch_manifests-others dir patch path base_url base_path base_revision s = ground arith

  deploy_patch_to_git-others :
      (creds : RepoCreds) (name url revision base_revision base patch base_url base_path : String)
      (s : State api)
      → others
          (deploy_patch_to_git lib conf creds name url revision base_revision base patch base_url
            base_path s).1.calls
        ≡ others s.calls
  unfolding deploy_patch_to_git others
  deploy_patch_to_git-others creds name url revision base_revision base patch base_url base_path s =
      grind (
        arith, clone_repo-others, clear_dir-others, copy_patch_manifests-others,
        commit_changes-others,
      )

  pub create_patch_dir-others :
      (name url ns base revision base_revision patch base_url base_path : String) (s : State api)
      → others
          (create_patch_dir lib conf name url ns base revision base_revision patch base_url
            base_path s).1.calls
        ≡ others s.calls
  unfolding create_patch_dir others
  create_patch_dir-others name url ns base revision base_revision patch base_url base_path s =
      grind (arith, get_repo_creds-others, deploy_patch_to_git-others)

module _ {api : Api} where
  pub delete_overrides_dir-others :
      (app : Application) (ns name : String) (s : State api)
      → others (delete_overrides_dir app ns name s).1.calls ≡ others s.calls
  unfolding delete_overrides_dir others
  delete_overrides_dir-others app ns name s =
      grind (arith, get_repo_creds-others, clone_repo-others, commit_delete_changes-others)

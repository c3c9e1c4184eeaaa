-- ===== src/Git/Tests.antt =====
-- Commits at concrete inputs.
use karlon.Base.{◌≡◌, refl, true, false, [], ◌∷◌}
use karlon.Base.Result.{ok}
use karlon.Services.{Call, Answer, State, FileStatus, git_status, git_add, git_commit, file_lstat}
use karlon.Services.Quiet.{quiet, fixed}
use karlon.Git.{commit_changes, add_files, add_file}
use karlon.Base.{subst, inl, ◌++◌}
use karlon.Base.Dict.{insert, lookup, get}
use karlon.Base.Result.{Result, err}
use karlon.Objects.{Secret, Profile}
use karlon.Services.{secret_get}
use karlon.Services.Exec.{go}
use karlon.Bundles.Api.{
  static_bundle, empty_bundle, bundle_of, get_bundles, get_bundles_from_profile,
}
use karlon.Bundles.Kinds.{IsBundle}
use karlon.Git.BundleApps.{process_bundles}
use karlon.Git.BundleFiles.{written, all_files}
use karlon.Git.StoredBundles.{stored_bundles_deployed}

abbrev removed : FileStatus
removed = record { file = "edge/patches.yaml"; deleted = true }

abbrev changed : FileStatus
changed = record { file = "edge/kustomization.yaml"; deleted = false }

-- a clone with the two files in its status
abbrev edited : (c : Call) → Answer c
edited (git_status dir) = ok (removed ∷ changed ∷ [])
edited (file_lstat dir p) = ok (record { name = p; is_dir = false; is_symlink = false })
edited c = quiet c

abbrev only_removed : (c : Call) → Answer c
only_removed (git_status dir) = ok (removed ∷ [])
only_removed c = quiet c

abbrev start : {answers : (c : Call) → Answer c} → State (fixed answers)
start = record { world = tt; calls = [] }

edited_calls :
    (commit_changes {api = fixed edited} "dir" "msg" start).1.calls
    ≡ git_commit "dir" "msg"
      ∷ git_add "dir" "edge/kustomization.yaml"
      ∷ file_lstat "dir" "edge/kustomization.yaml"
      ∷ git_status "dir"
      ∷ []
unfolding commit_changes add_files add_file
edited_calls = refl

abbrev web : Secret
web = static_bundle "kind: Pod" (empty_bundle "web" "servers" "")

web-IsBundle : IsBundle web
unfolding IsBundle static_bundle insert lookup get
web-IsBundle = inl (refl, ("kind: Pod", refl), refl)

abbrev with_web : (c : Call) → Answer c
with_web (secret_get ns name) = ok web
with_web c = quiet c

abbrev HoldsBundle : Result Secret → Type 0
HoldsBundle (ok secr) = IsBundle secr
HoldsBundle (err e) = Unit

abbrev web_profile : Profile
web_profile = record {
  name = "web";
  namespace = "kkarlon";
  spec = record {
    description = "";
    tags = [];
    bundles = "web" ∷ [];
    overrides = [];
    repo_url = "";
    repo_path = "";
    repo_revision = "";
  };
}

read_web : get_bundles_from_profile {api = fixed with_web} web_profile "kkarlon" start ≡ (
  go (bundle_of "web" web ∷ []),
  record { world = tt; calls = secret_get "kkarlon" "web" ∷ [] },
)
unfolding get_bundles_from_profile get_bundles
read_web = refl

stored_bundles_deployed_example :
    ((process_bundles {api = fixed with_web} "dir" "edge" "https://git/clusters" "edge/mgmt"
        "edge/workload"
        (bundle_of "web" web ∷ [])
        []
        start).0
      ≡ go tt)
    × (written
          (process_bundles {api = fixed with_web} "dir" "edge" "https://git/clusters" "edge/mgmt"
            "edge/workload"
            (bundle_of "web" web ∷ [])
            []
            start).1.calls
        ≡ all_files "edge" "https://git/clusters" "edge/mgmt" "edge/workload" []
            (bundle_of "web" web ∷ [])
          ++ written [])
stored_bundles_deployed_example =
    stored_bundles_deployed {api = fixed with_web} web_profile "kkarlon" (bundle_of "web" web ∷ [])
      start (record { world = tt; calls = secret_get "kkarlon" "web" ∷ [] }) "dir" "edge"
      "https://git/clusters" "edge/mgmt" "edge/workload" [] start
      (λ ns name w secr h. subst HoldsBundle h web-IsBundle)
      (λ dir path w. refl, λ dir path w. refl, λ dir path text w. refl) read_web

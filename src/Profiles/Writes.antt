-- ===== src/Profiles/Writes.antt =====
-- pkg/profile/create.go and update.go: Create and Update.
use karlon.Base.{
  Bool, true, false, ◌==◌, ◌!=◌, ◌&&◌, not, String, Option, none, some, List, [], ◌∷◌,
  if◌then◌else◌,
}
use karlon.Base.Path.{join_path}
use karlon.Base.Result.{Error, message, chained}
use karlon.Objects.{Profile, ProfileSpec, Override}
use karlon.Services.{Api, Entries, kube_client, runtime_client, profile_create, profile_update}
use karlon.Services.Exec.{Exec, ◌>>=◌, ◌>>◌, pure, return_now, perform, or_else, must, attempt}
use karlon.Bundles.Api.{list, get_bundles_from_profile}
use karlon.Git.{get_repo_creds, get_client_and_creds}
use karlon.Profiles.{string_list, comma_separated, string_lists_equivalent, is_sub_list}
use karlon.Profiles.Api.{err_missing_bundles, bundle_names, check_names, get_augmented}
use karlon.Profiles.InGit.{create_in_git}
use karlon.Profiles.Overrides.{merge}

-- what a profile is to become; a nil slice of bundles is `none`
pub record Change : Type 0 where
  pub bundles : Option (List String)
  pub desc : String
  pub tags : String
  pub overrides : List Override

abbrev pub given : Option (List String) → List String
given none = []
given (some names) = names

-- the four changes of Update, each with `dirty`
unfoldable pub change_description : String → ProfileSpec × Bool → ProfileSpec × Bool
change_description desc (spec, dirty) =
    if desc != "" && desc != spec.description
    then (record spec { description = desc }, true)
    else (spec, dirty)

unfoldable pub change_tags : String → ProfileSpec × Bool → ProfileSpec × Bool
change_tags tags (spec, dirty) =
    if tags != "" && not (string_lists_equivalent (string_list tags) spec.tags)
    then (record spec { tags = string_list tags }, true)
    else (spec, dirty)

unfoldable pub wanted_bundles : Option (List String) → ProfileSpec → String
wanted_bundles none spec = comma_separated spec.bundles
wanted_bundles (some names) spec = comma_separated names

unfoldable pub change_bundles : Option (List String) → ProfileSpec × Bool → ProfileSpec × Bool
change_bundles names (spec, dirty) =
    let wanted = string_list (wanted_bundles names spec) in
    if not (string_lists_equivalent wanted spec.bundles)
    then (record spec { bundles = wanted }, true)
    else (spec, dirty)

unfoldable pub change_overrides : List Override → ProfileSpec × Bool → ProfileSpec × Bool
change_overrides overrides (spec, dirty) =
    let (merged, changed) = merge overrides (spec.overrides, dirty) in
    (record spec { overrides = merged }, changed)

unfoldable pub apply_change : Change → ProfileSpec → ProfileSpec × Bool
apply_change c spec =
    change_overrides c.overrides
      (change_bundles c.bundles (change_tags c.tags (change_description c.desc (spec, false))))

module _ (embedded : Entries) where
  module _ {api : Api} where
    -- what Update does with a profile that has changed
    unfoldable pub save_profile : String → String → Profile → Exec api Error (Unit {0})
    save_profile argocd_ns ns prof = do
      if prof.spec.repo_url != ""
          then (do
            creds_or ← attempt (get_client_and_creds argocd_ns prof.spec.repo_url)
            creds ← must "failed to get kubeclient and repository credentials" creds_or
            got ← attempt (get_bundles_from_profile prof ns)
            bundles ← must "failed to get bundles" got
            written ← attempt (create_in_git embedded creds prof bundles)
            must "failed to update dynamic profile in git" written)
          else pure tt
      cli ← perform runtime_client
      must "failed to get new controller runtime client" cli
      updated ← perform (profile_update prof)
      must "failed to update profile" updated

    -- Update; the Boolean is `dirty`
    unfoldable pub update_profile : String → String → String → Change → Exec api Error Bool
    update_profile argocd_ns ns name c = do
      or_else (check_names (given c.bundles)) return_now
      listed ← attempt (list ns)
      existing ← or_else listed λ e. return_now (chained "failed to list bundles" e)
      if is_sub_list (given c.bundles) (bundle_names existing)
          then pure tt
          else return_now err_missing_bundles
      got ← attempt (get_augmented name ns)
      found ← must "failed to get augmented profile" got
      if found.legacy then return_now (message "cannot update a legacy (gen1) profile") else pure tt
      let changed : ProfileSpec × Bool = apply_change c found.profile.spec
      if changed.1
          then (do save_profile argocd_ns ns (record found.profile { spec = changed.0 }); pure true)
          else pure false

    -- Create
    unfoldable pub create_profile :
        String
        → String
        → String
        → String
        → String
        → String
        → List String
        → String
        → String
        → List Override
        → Exec api Error (Unit {0})
    create_profile argocd_ns ns name repo_url base_path revision bundles desc tags overrides = do
      or_else (check_names bundles) return_now
      cli ← perform runtime_client
      must "failed to get controller runtime client" cli
      listed ← attempt (list ns)
      existing ← or_else listed return_now
      if is_sub_list bundles (bundle_names existing)
          then pure tt
          else return_now err_missing_bundles
      let p : Profile = record {
        name = name;
        namespace = ns;
        spec = record {
          description = desc;
          tags = string_list tags;
          bundles = bundles;
          overrides = overrides;
          repo_url = repo_url;
          repo_path = if repo_url == "" then "" else join_path (base_path ∷ name ∷ []);
          repo_revision = if repo_url == "" then "" else revision;
        };
      }
      if repo_url != ""
          then (do
            client ← perform kube_client
            must "failed to get kubernetes client" client
            got ← attempt (get_bundles_from_profile p ns)
            stored ← must "failed to get bundles" got
            creds_or ← attempt (get_repo_creds argocd_ns repo_url)
            creds ← must "failed to get repository credentials" creds_or
            written ← attempt (create_in_git embedded creds p stored)
            must "failed to create dynamic profile in git" written)
          else pure tt
      created ← perform (profile_create p)
      must "failed to create profile configmap" created

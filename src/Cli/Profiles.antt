-- ===== src/Cli/Profiles.antt =====
-- pkg/cmd/profile: create, update and delete.
use karlon.Base.{
  Bool, true, false, ◌&&◌, not, String, Option, none, some, List, [], ◌∷◌, if◌then◌else◌,
}
use karlon.Base.Result.{Error, Result, ok, err, message, chained, is_not_found}
use karlon.Base.Text.{split}
use karlon.Cli.{need_config, repo_or_alias}
use karlon.Objects.{Override}
use karlon.Profiles.Api.{delete_legacy, delete_profile}
use karlon.Profiles.Writes.{update_profile, create_profile}
use karlon.Repos.{RepoCtxCfg}
use karlon.Services.{Api, Entries, runtime_client}
use karlon.Services.Exec.{Exec, ◌>>=◌, ◌>>◌, pure, return_now, perform, or_else, attempt, must}

abbrev pub is_given : Option (List String) → Bool
is_given none = false
is_given (some names) = true

-- one round of the loop of processOverrides
abbrev pub override_of : List String → Result Override
override_of (bundle ∷ (key ∷ (value ∷ []))) =
    ok (record { bundle = bundle; key = key; value = value })
override_of items = err (message "malformed override parameter, it should be a triple")

unfoldable pub process_overrides : List String → Result (List Override)
process_overrides [] = ok []
process_overrides (o ∷ os) = elim (override_of (split "," o)) [
  | err e ↦ err e
  | ok first ↦ elim (process_overrides os) [ err e ↦ err e | ok rest ↦ ok (first ∷ rest) ]
]

module _ {api : Api} where
  -- deleteProfile, and the command, which takes a profile that is not found for a legacy one
  unfoldable pub delete_current : String → String → Exec api Error (Unit {0})
  delete_current ns name = do
    cli ← perform runtime_client
    or_else cli λ e. return_now (chained "failed to get controller client" e)
    deleted ← attempt (delete_profile ns name)
    or_else deleted return_now

  unfoldable pub delete_profile_command : String → String → Exec api Error (Unit {0})
  delete_profile_command ns name = do
    need_config
    deleted ← attempt (delete_current ns name)
    or_else deleted λ e.
        if not (is_not_found e)
        then return_now e
        else do legacy ← attempt (delete_legacy ns name); or_else legacy return_now

module _ (embedded : Entries) where
  module _ {api : Api} where
    -- update; `clear` hands no bundles on, as no bundles do, and the Boolean is `modified`
    unfoldable pub update_profile_command :
        String
        → String
        → String
        → Bool
        → Option (List String)
        → String
        → String
        → List String
        → Exec api Error Bool
    update_profile_command argocd_ns ns name clear bundles desc tags overrides = do
      need_config
      if clear && is_given bundles
          then return_now (message "bundles must not be specified when using --clear")
          else pure tt
      os ← must "failed to process overrides" (process_overrides overrides)
      modified ← attempt (
          update_profile embedded argocd_ns ns name (record {
            bundles = if clear then none else bundles;
            desc = desc;
            tags = tags;
            overrides = os;
          }))
      or_else modified return_now

  module _ (unmarshal : String → Result RepoCtxCfg) where
    module _ {api : Api} where
      -- create
      unfoldable pub create_profile_command :
          String
          → String
          → String
          → String
          → Bool
          → String
          → String
          → String
          → List String
          → String
          → String
          → List String
          → Exec api Error (Unit {0})
      create_profile_command argocd_ns ns name repo_url is_static alias base_path branch bundles
            desc tags overrides =
          do
            url ← if is_static then pure repo_url else repo_or_alias unmarshal repo_url alias
            need_config
            os ← must "failed to process overrides" (process_overrides overrides)
            created ← attempt (
                create_profile embedded argocd_ns ns name url base_path branch bundles desc tags os)
            or_else created return_now

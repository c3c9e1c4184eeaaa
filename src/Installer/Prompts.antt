-- ===== src/Installer/Prompts.antt =====
-- What an installation of CAPI asks, and when it begins.
use karlon.Base.{◌≡◌, arith, Bool, true, false, ◌==◌, ◌&&◌, ◌||◌, String, List, [], ◌∷◌, All}
use karlon.Services.{Call, Api, State, ask_to_proceed, capi_init}
use karlon.Services.Exec.{Flow, stop, go}
use karlon.Installer.{
  Failure, err_bootstrap, plain, RequiredEnv, required_envs, recover_on_fail, unset_env,
  ensure_envs, ensure_requisites, bootstrap_aws, run_bootstrap,
}
use karlon.Installer.Calls.{prepares, prepare_provider-All}
use karlon.Installer.Capi.{
  provider_name, unless_soft, prepare_provider, prepare_providers, install_capi,
}

abbrev pub AsksNone : Call → Type 0
AsksNone (ask_to_proceed q) = ⊥
AsksNone _ = Unit

abbrev pub InitsNone : Call → Type 0
InitsNone (capi_init o) = ⊥
InitsNone _ = Unit

module _ {api : Api} where
  -- no question was asked, and the failure is none that leads to one
  unfoldable NoSoft : Flow Failure (Unit {0}) × State api → Type 0
  NoSoft (stop (err_bootstrap true msg), s) = All AsksNone s.calls
  NoSoft (stop (err_bootstrap false msg), s) = ⊥
  NoSoft (stop (plain e), s) = All AsksNone s.calls
  NoSoft (go x, s) = All AsksNone s.calls

  ensure_envs-NoSoft :
      (envs : List RequiredEnv) (s : State api)
      → All AsksNone s.calls
      → NoSoft (ensure_envs true envs s)
  unfolding ensure_envs unset_env NoSoft
  ensure_envs-NoSoft [] s h = ground arith
  ensure_envs-NoSoft (e ∷ es) s h = grind (arith, ensure_envs-NoSoft es)

  run_bootstrap-NoSoft : (s : State api) → All AsksNone s.calls → NoSoft (bootstrap_aws true s)
  unfolding bootstrap_aws recover_on_fail NoSoft
  run_bootstrap-NoSoft s h = ground arith

  prepare_provider-NoSoft :
      (name : String) (s : State api) → All AsksNone s.calls → NoSoft (prepare_provider true name s)
  unfolding prepare_provider ensure_requisites run_bootstrap unless_soft NoSoft
  prepare_provider-NoSoft name s h =
      grind (arith, ensure_envs-NoSoft required_envs, run_bootstrap-NoSoft)

  prepare_providers-NoSoft :
      (ps : List String) (s : State api)
      → All AsksNone s.calls
      → NoSoft (prepare_providers true ps s)
  unfolding prepare_providers NoSoft
  prepare_providers-NoSoft [] s h = ground arith
  prepare_providers-NoSoft (p ∷ ps) s h =
      grind (arith, prepare_provider-NoSoft, prepare_providers-NoSoft ps)

  -- An installation of CAPI with the flag no-confirm asks the user nothing, whatever the
  -- services answer, if no question was asked before: none of the failures of the installers is
  -- a soft one.
  pub confirmed_run_is_silent :
      (kubeconfig_path core_provider : String) (infrastructure bootstraps : List String)
      (s : State api)
      → All AsksNone s.calls
      → All AsksNone
          (install_capi kubeconfig_path core_provider infrastructure bootstraps true s).1.calls
  unfolding install_capi NoSoft
  confirmed_run_is_silent kubeconfig_path core_provider infrastructure bootstraps s h =
      grind (arith, prepare_providers-NoSoft infrastructure)

-- the providers that the installer knows
abbrev pub all_known : List String → Bool
all_known [] = true
all_known (p ∷ ps) = (provider_name p == "aws" || provider_name p == "docker") && all_known ps

prepares-InitsNone : (c : Call) → prepares c ≡ true → InitsNone c
prepares-InitsNone c h = ground arith

module _ {api : Api} where
  -- it stopped before the initialisation
  abbrev pub IsStopped : Flow Failure (Unit {0}) × State api → Type 0
  IsStopped (stop f, s) = All InitsNone s.calls
  IsStopped (go x, s) = ⊥

  prepare_unknown :
      (no_confirm : Bool) (name : String) (s : State api)
      → (name == "aws" || name == "docker") ≡ false
      → All InitsNone s.calls
      → IsStopped (prepare_provider no_confirm name s)
  unfolding prepare_provider
  prepare_unknown no_confirm name s h hs = ground arith

  prepare_providers-unknown :
      (no_confirm : Bool) (ps : List String) (s : State api)
      → all_known ps ≡ false
      → All InitsNone s.calls
      → IsStopped (prepare_providers no_confirm ps s)
  unfolding prepare_providers
  prepare_providers-unknown no_confirm [] s h hs = ground arith
  prepare_providers-unknown no_confirm (p ∷ ps) s h hs = grind (
    arith,
    prepare_unknown no_confirm (provider_name p),
    prepare_provider-All InitsNone prepares-InitsNone no_confirm (provider_name p),
    prepare_providers-unknown no_confirm ps,
  )

  -- An installation of CAPI
  pub unknown_provider_stops :
      (kubeconfig_path core_provider : String) (infrastructure bootstraps : List String)
      (no_confirm : Bool) (s : State api)
      → all_known infrastructure ≡ false
      → All InitsNone s.calls
      → IsStopped
          (install_capi kubeconfig_path core_provider infrastructure bootstraps no_confirm s)
  unfolding install_capi
  unknown_provider_stops kubeconfig_path core_provider infrastructure bootstraps no_confirm s h hs =
      grind (arith, prepare_providers-unknown no_confirm infrastructure)

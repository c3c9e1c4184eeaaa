-- ===== src/Installer/Calls.antt =====
-- What the installation of CAPI calls: a predicate of its calls is kept by all of its functions.
use karlon.Base.{◌≡◌, arith, Bool, true, false, ◌||◌, String, Option, List, [], ◌∷◌, All}
use karlon.Services.{
  Call, Api, State, get_env, set_env, ask_to_proceed, run_aws_admin, aws_credentials,
  render_credentials, capi_client, capi_config, default_core_provider, capi_init,
}
use karlon.Installer.{
  Failure, RequiredEnv, required_envs, recover_on_fail, unset_env, ensure_envs, ensure_requisites,
  bootstrap_aws, run_bootstrap,
}
use karlon.Installer.Capi.{unless_soft, prepare_provider, prepare_providers, install_capi}

-- the calls before the initialisation by clusterctl
abbrev pub prepares : Call → Bool
prepares (get_env n) = true
prepares (set_env n v) = true
prepares (ask_to_proceed q) = true
prepares (run_aws_admin args) = true
prepares (aws_credentials region) = true
prepares (render_credentials c) = true
prepares _ = false

-- those of clusterctl
abbrev pub initializes : Call → Bool
initializes capi_client = true
initializes capi_config = true
initializes default_core_provider = true
initializes (capi_init o) = true
initializes _ = false

abbrev pub installs_capi : Call → Bool
installs_capi c = prepares c || initializes c

module _ (P : Call → Type 0) (kept : (c : Call) → prepares c ≡ true → P c) {api : Api} where
  ensure_envs-All :
      (silence : Bool) (envs : List RequiredEnv) (s : State api)
      → All P s.calls
      → All P (ensure_envs silence envs s).1.calls
  unfolding ensure_envs unset_env recover_on_fail
  ensure_envs-All silence [] s h = h
  ensure_envs-All silence (e ∷ es) s h = grind (arith, ensure_envs-All silence es, kept)

  bootstrap_aws-All :
      (silence : Bool) (s : State api) → All P s.calls → All P (bootstrap_aws silence s).1.calls
  unfolding bootstrap_aws recover_on_fail
  bootstrap_aws-All silence s h = grind (arith, kept)

  unless_soft-All :
      (name : String) (f : Option Failure) (s : State api)
      → All P s.calls
      → All P (unless_soft name f s).1.calls
  unfolding unless_soft
  unless_soft-All name f s h = grind (arith, kept)

  pub prepare_provider-All :
      (no_confirm : Bool) (name : String) (s : State api)
      → All P s.calls
      → All P (prepare_provider no_confirm name s).1.calls
  unfolding prepare_provider ensure_requisites run_bootstrap
  prepare_provider-All no_confirm name s h = grind (
    arith,
    ensure_envs-All no_confirm required_envs,
    bootstrap_aws-All no_confirm,
    unless_soft-All name,
  )

  pub prepare_providers-All :
      (no_confirm : Bool) (ps : List String) (s : State api)
      → All P s.calls
      → All P (prepare_providers no_confirm ps s).1.calls
  unfolding prepare_providers
  prepare_providers-All no_confirm [] s h = h
  prepare_providers-All no_confirm (p ∷ ps) s h =
      grind (arith, prepare_provider-All no_confirm, prepare_providers-All no_confirm ps)

module _ (P : Call → Type 0) (kept : (c : Call) → installs_capi c ≡ true → P c) {api : Api} where
  pub install_capi-All :
      (kubeconfig_path core_provider : String) (infrastructure bootstraps : List String)
      (no_confirm : Bool) (s : State api)
      → All P s.calls
      → All P
          (install_capi kubeconfig_path core_provider infrastructure bootstraps no_confirm
            s).1.calls
  unfolding install_capi
  install_capi-All kubeconfig_path core_provider infrastructure bootstraps no_confirm s h = grind (
    arith,
    prepare_providers-All P (λ c first. kept c (ground arith)) no_confirm infrastructure,
    kept,
  )

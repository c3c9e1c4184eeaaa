-- ===== src/Installer/Capi.antt =====
-- pkg/cmd/install/install.go: installCAPI. The colour of a text is left out.
use karlon.Base.{Bool, false, ◌==◌, String, Option, none, some, List, [], ◌∷◌, if◌then◌else◌}
use karlon.Base.Text.{sprint, split}
use karlon.Installer.{
  Failure, err_bootstrap, plain, caught, new_installer_service, ensure_requisites, run_bootstrap,
}
use karlon.Services.{
  Api, ask_to_proceed, capi_client, capi_config, default_core_provider, capi_init,
}
use karlon.Services.Exec.{Exec, ◌>>=◌, ◌>>◌, pure, return_now, perform, or_else}

-- the name before the version in a provider, `strings.Split(provider, ":")[0]`
abbrev pub first_word : List String → String
first_word [] = ""
first_word (w ∷ ws) = w

unfoldable pub provider_name : String → String
provider_name provider = first_word (split ":" provider)

module _ {api : Api} where
  -- what follows an error of EnsureRequisites or Bootstrap: a soft failure may be accepted
  unfoldable pub unless_soft : String → Option Failure → Exec api Failure (Unit {0})
  unless_soft name none = pure tt
  unless_soft name (some (err_bootstrap false msg)) = do
    proceed ← perform (
        ask_to_proceed (
          sprint (
            "Warning failed to perform bootstrap steps for " ∷ name
            ∷ "\n. Continue(CAPI provider may not succeed)?[y/n]" ∷ [])))
    if proceed then pure tt else return_now (err_bootstrap false msg)
  unless_soft name (some e) = return_now e

  -- one round of the second loop
  unfoldable pub prepare_provider : Bool → String → Exec api Failure (Unit {0})
  prepare_provider no_confirm name = do
    installer ← or_else (new_installer_service name no_confirm) λ e. return_now (plain e)
    ensured ← caught (ensure_requisites installer)
    unless_soft name ensured
    booted ← caught (run_bootstrap installer)
    unless_soft name booted

  unfoldable pub prepare_providers : Bool → List String → Exec api Failure (Unit {0})
  prepare_providers no_confirm [] = pure tt
  prepare_providers no_confirm (p ∷ ps) = do
    prepare_provider no_confirm (provider_name p)
    prepare_providers no_confirm ps

  -- installCAPI
  unfoldable pub install_capi :
      String → String → List String → List String → Bool → Exec api Failure (Unit {0})
  install_capi kubeconfig_path core_provider infrastructure bootstraps no_confirm = do
    prepare_providers no_confirm infrastructure
    client ← perform capi_client
    or_else client λ e. return_now (plain e)
    config ← perform capi_config
    or_else config λ e. return_now (plain e)
    current ← perform default_core_provider
    installed ← perform (
        capi_init (record {
          kubeconfig = kubeconfig_path;
          core_provider = if current == "" then core_provider else "";
          bootstrap_providers = bootstraps;
          infrastructure_providers = infrastructure;
        }))
    or_else installed λ e. return_now (plain e)

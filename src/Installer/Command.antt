-- ===== src/Installer/Command.antt =====
-- pkg/cmd/install/install.go: the command. Without a flag both parts are installed.
use karlon.Base.{Bool, not, ◌&&◌, String, List, if◌then◌else◌}
use karlon.Installer.{Failure}
use karlon.Installer.Capi.{install_capi}
use karlon.Installer.Tools.{install_cli_tools}
use karlon.Services.{Api}
use karlon.Services.Exec.{Exec, ◌>>=◌, ◌>>◌, pure, attempt}

pub record InstallFlags : Type 0 where
  pub tools_only : Bool
  pub capi_only : Bool
  pub no_confirm : Bool
  pub kubectl_path : String
  pub argocd_path : String
  pub kubeconfig_path : String
  pub infrastructure : List String
  pub bootstraps : List String

module _ {api : Api} where
  -- the name of the core provider has no flag, so it is empty
  unfoldable pub install_command : String → InstallFlags → Exec api Failure (Unit {0})
  install_command platform f = do
    let neither : Bool = not f.tools_only && not f.capi_only
    if neither
        then (do
          tools ← attempt (install_cli_tools f.kubectl_path f.argocd_path platform)
          install_capi f.kubeconfig_path "" f.infrastructure f.bootstraps f.no_confirm)
        else (do
          if f.tools_only
              then (do
                tools ← attempt (install_cli_tools f.kubectl_path f.argocd_path platform)
                pure tt)
              else pure tt
          if f.capi_only
              then install_capi f.kubeconfig_path "" f.infrastructure f.bootstraps f.no_confirm
              else pure tt)

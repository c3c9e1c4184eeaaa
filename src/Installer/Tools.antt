-- ===== src/Installer/Tools.antt =====
-- pkg/cmd/install/install.go: the tools of the command line. What is printed is left out; `platform` is
-- runtime.GOOS.
use karlon.Base.{◌==◌, String, [], ◌∷◌, if◌then◌else◌}
use karlon.Base.Result.{Error, Result, ok, err, message}
use karlon.Base.Text.{sprint}
use karlon.Services.{Api, look_path, run_command}
use karlon.Services.Exec.{Exec, ◌>>=◌, ◌>>◌, pure, return_now, perform, or_else, attempt}

abbrev pub default_kubectl_path : String
default_kubectl_path = "/usr/local/bin/kubectl"

abbrev pub default_argocd_path : String
default_argocd_path = "/usr/local/bin/argocd"

abbrev pub err_kubectl_present : Error
err_kubectl_present =
    message
      "kubectl is already present at default(/usr/local/bin/kubectl) location or user specifed location"

abbrev pub err_git_present : Error
err_git_present = message "git is already installed"

abbrev pub err_argocd_present : Error
err_argocd_present =
    message
      "argocd is already present at default(/usr/local/bin/argocd) location or user specifed location"

abbrev pub err_kubectl_fail : Error
err_kubectl_fail = message "error installing kubectl"

abbrev pub err_argocd_fail : Error
err_argocd_fail = message "error installing argocd"

abbrev pub err_curl_missing : Error
err_curl_missing = message "please install curl and set it in path"

abbrev pub kubectl_url : String → String → String
kubectl_url platform ver = sprint (
    "https://storage.googleapis.com/kubernetes-release/release/"
    ∷ ver
    ∷ "/bin/"
    ∷ platform
    ∷ (if platform == "windows" then "/amd64/kubectl.exe" else "/amd64/kubectl")
    ∷ [])

abbrev pub argocd_url : String → String
argocd_url platform = sprint (
    "https://github.com/argoproj/argo-cd/releases/download/v2.4.18/argocd-"
    ∷ platform
    ∷ (if platform == "windows" then "-amd64.exe" else "-amd64")
    ∷ [])

module _ {api : Api} where
  -- downloadKubectlLatest
  unfoldable pub download_kubectl : String → String → Exec api Error (Unit {0})
  download_kubectl path platform = do
    got ← perform (
        run_command (
          "curl" ∷ "-sL" ∷ "https://storage.googleapis.com/kubernetes-release/release/stable.txt"
          ∷ []))
    ver ← or_else got return_now
    saved ←
        perform
          (run_command ("sudo" ∷ "curl" ∷ "-o" ∷ path ∷ "-LO" ∷ kubectl_url platform ver ∷ []))
    x ← or_else saved return_now
    pure tt

  -- downloadArgoCD
  unfoldable pub download_argocd : String → String → Exec api Error (Unit {0})
  download_argocd path platform = do
    saved ← perform (run_command ("sudo" ∷ "curl" ∷ "-o" ∷ path ∷ "-LO" ∷ argocd_url platform ∷ []))
    x ← or_else saved return_now
    pure tt

  unfoldable pub make_executable : String → Exec api Error (Unit {0})
  make_executable path = do
    changed ← perform (run_command ("sudo" ∷ "chmod" ∷ "+x" ∷ path ∷ []))
    x ← or_else changed return_now
    pure tt

  unfoldable pub require_curl : Exec api Error (Unit {0})
  require_curl = do
    found ← perform (look_path "curl")
    or_else found λ e. return_now err_curl_missing

  -- installKubectlPlatform
  unfoldable pub install_kubectl_platform : String → String → Exec api Error (Unit {0})
  install_kubectl_platform path platform =
      if platform == "windows"
      then (do require_curl; download_kubectl path platform)
      else (do download_kubectl path platform; make_executable path)

  -- installArgoCDPlatform: an error of the download is printed only
  unfoldable pub install_argocd_platform : String → String → Exec api Error (Unit {0})
  install_argocd_platform path platform =
      if platform == "windows"
      then (do require_curl; r ← attempt (download_argocd path platform); pure tt)
      else (do r ← attempt (download_argocd path platform); make_executable path)

  -- installKubectl and installArgoCD; that a tool is there already is an error
  unfoldable pub install_tool :
      Error → Error → String → String → Exec api Error (Unit {0}) → Exec api Error (Unit {0})
  install_tool present failure default_path path install = do
    found ← perform (look_path default_path)
    elim found [ ok _ ↦ return_now present | err _ ↦ pure tt ]
    found' ← perform (look_path path)
    elim found' [ ok _ ↦ return_now present | err _ ↦ pure tt ]
    installed ← attempt install
    or_else installed λ e. return_now failure

  unfoldable pub install_kubectl : String → String → Exec api Error (Unit {0})
  install_kubectl path platform =
      install_tool err_kubectl_present err_kubectl_fail default_kubectl_path path
        (install_kubectl_platform path platform)

  unfoldable pub install_argocd : String → String → Exec api Error (Unit {0})
  install_argocd path platform =
      install_tool err_argocd_present err_argocd_fail default_argocd_path path
        (install_argocd_platform path platform)

  -- verifyGit
  unfoldable pub verify_git : Exec api Error (Unit {0})
  verify_git = do
    found ← perform (look_path "git")
    or_else found return_now
    return_now err_git_present

  -- installCLITools: how each of the three ended
  unfoldable pub install_cli_tools :
      String
      → String
      → String
      → Exec api Error (Result (Unit {0}) × Result (Unit {0}) × Result (Unit {0}))
  install_cli_tools kubectl_path argocd_path platform = do
    kubectl ← attempt (install_kubectl kubectl_path platform)
    git ← attempt verify_git
    argocd ← attempt (install_argocd argocd_path platform)
    pure (kubectl, git, argocd)

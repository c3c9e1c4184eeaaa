-- ===== src/Installer/Verify.antt =====
-- pkg/cmd/verify/verify.go: whether the tools and services are there. What is printed of each is left out;
-- the last line is the result.
use karlon.Base.{Bool, true, false, ◌==◌, ◌&&◌, String, [], ◌∷◌, if◌then◌else◌}
use karlon.Base.Result.{Error, Result, ok, err, message}
use karlon.Services.{
  Api, client_config, get_env, look_path, build_config, namespace_get, run_command,
}
use karlon.Services.Exec.{Exec, ◌>>=◌, ◌>>◌, pure, return_now, perform, or_else, attempt}

abbrev pub err_ns : Error
err_ns = message "failed to get the namespace"

abbrev pub err_kubectl_install : Error
err_kubectl_install = message "kubectl is not installed or missing in your $PATH"

abbrev pub err_kube_config_missing : Error
err_kube_config_missing = message "KUBECONFIG must be set"

abbrev pub err_kubectl_set : Error
err_kubectl_set = message "error setting kubeconfig"

abbrev pub err_kc_permission : Error
err_kc_permission = message "set the kubeconfig or kubeconfig does not have required access"

abbrev pub err_argocd : Error
err_argocd = message "argocd is not installed or missing in your $PATH"

abbrev pub err_argocd_auth_token : Error
err_argocd_auth_token = message "ArgoCD authentication token has expired. Login to ArgoCD again"

abbrev pub err_git : Error
err_git = message "git is not installed or missing in your $PATH"

abbrev pub err_karlon_ns : Error
err_karlon_ns = message "kkkarlon is not installed or missing in your $PATH"

abbrev pub err_capi : Error
err_capi = message "capi services are not installed or missing in your $PATH"

-- the status of a check
abbrev pub status : Result (Unit {0}) → Bool
status (ok _) = true
status (err _) = false

module _ {api : Api} where
  -- checkNamespace
  unfoldable pub check_namespace : String → Exec api Error (Unit {0})
  check_namespace namespace = do
    found ← perform (namespace_get namespace)
    or_else found λ e. return_now err_ns

  unfoldable pub verify_kubectl : String → Exec api Error (Unit {0})
  verify_kubectl kubeconfig_path = do
    found ← perform (look_path "kubectl")
    or_else found λ e. return_now err_kubectl_install
    if kubeconfig_path == "" then return_now err_kube_config_missing else pure tt
    config ← perform (build_config kubeconfig_path)
    or_else config λ e. return_now err_kubectl_set
    checked ← attempt (check_namespace "kube-system")
    or_else checked λ e. return_now err_kc_permission

  unfoldable pub verify_argocd : Exec api Error (Unit {0})
  verify_argocd = do
    found ← perform (look_path "argocd")
    or_else found λ e. return_now err_argocd
    listed ← perform (run_command ("argocd" ∷ "account" ∷ "list" ∷ []))
    x ← or_else listed λ e. return_now err_argocd_auth_token
    pure tt

  unfoldable pub verify_git_cli : Exec api Error (Unit {0})
  verify_git_cli = do found ← perform (look_path "git"); or_else found λ e. return_now err_git

  -- verifyArlon and verifyCapi
  unfoldable pub verify_namespace : String → Error → Exec api Error (Unit {0})
  verify_namespace namespace e = do
    checked ← attempt (check_namespace namespace)
    or_else checked λ _. return_now e

  -- verify: whether the last line says that all requirements are installed
  unfoldable pub verify : Exec api Error Bool
  verify = do
    config ← perform client_config
    or_else config λ e. return_now (message "failed to get k8s client config")
    kubeconfig_path ← perform (get_env "KUBECONFIG")
    kubectl ← attempt (verify_kubectl kubeconfig_path)
    argocd ← attempt verify_argocd
    git ← attempt verify_git_cli
    capi ← attempt (verify_namespace "capi-system" err_capi)
    own ← attempt (verify_namespace "kkkarlon" err_karlon_ns)
    pure (status kubectl && (status argocd && (status git && (status own && status capi))))

-- ===== src/Installer/Checks.antt =====
-- What the verification and the installation of the tools report.
use karlon.Base.{◌≡◌, arith, Bool, true, false, ◌!=◌, ◌&&◌, String, [], ◌∷◌}
use karlon.Base.Result.{is_ok}
use karlon.Services.{
  Call, Answer, Api, State, client_config, get_env, look_path, build_config, namespace_get,
  run_command,
}
use karlon.Services.Quiet.{fixed}
use karlon.Services.Exec.{go, ask, to_result}
use karlon.Installer.Tools.{
  default_argocd_path, require_curl, install_argocd_platform, install_tool, install_argocd,
}
use karlon.Installer.Verify.{
  status, check_namespace, verify_kubectl, verify_argocd, verify_git_cli, verify_namespace, verify,
}

-- what the services must answer
abbrev pub all_there : ((c : Call) → Answer c) → Bool
all_there answers =
    is_ok (answers (look_path "kubectl"))
    && (answers (get_env "KUBECONFIG") != ""
        && (is_ok (answers (build_config (answers (get_env "KUBECONFIG"))))
            && (is_ok (answers (namespace_get "kube-system"))
                && (is_ok (answers (look_path "argocd"))
                    && (is_ok (answers (run_command ("argocd" ∷ "account" ∷ "list" ∷ [])))
                        && (is_ok (answers (look_path "git"))
                            && (is_ok (answers (namespace_get "kkkarlon"))
                                && is_ok (answers (namespace_get "capi-system")))))))))

module _ (answers : (c : Call) → Answer c) where
  kubectl_there :
      (s : State (fixed answers))
      → status
          (to_result (verify_kubectl {api = fixed answers} (answers (get_env "KUBECONFIG")) s).0)
        ≡ (is_ok (answers (look_path "kubectl"))
            && (answers (get_env "KUBECONFIG") != ""
                && (is_ok (answers (build_config (answers (get_env "KUBECONFIG"))))
                    && is_ok (answers (namespace_get "kube-system")))))
  unfolding verify_kubectl check_namespace
  kubectl_there s = ground arith

  -- verify
  pub verify_lem :
      (s : State (fixed answers))
      → is_ok (answers client_config) ≡ true
      → (verify {api = fixed answers} s).0 ≡ go (all_there answers)
  unfolding verify verify_argocd verify_git_cli verify_namespace check_namespace
  verify_lem s h = grind (arith, kubectl_there)

module _ {api : Api} where
  -- On Windows
  pub failed_download_installed :
      (path : String) (s : State api)
      → ((w : api.World) → is_ok (ask api (look_path default_argocd_path) w) ≡ false)
      → ((w : api.World) → is_ok (ask api (look_path path) w) ≡ false)
      → ((w : api.World) → is_ok (ask api (look_path "curl") w) ≡ true)
      → (install_argocd path "windows" s).0 ≡ go tt
  unfolding install_argocd install_tool install_argocd_platform require_curl
  failed_download_installed path s default_missing missing curl =
      grind (arith, default_missing, missing, curl)

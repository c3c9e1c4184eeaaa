-- ===== src/Setup/Command.antt =====
-- pkg/cmd/initialize/init.go: the command. A client that cannot be made is an error. The login and the client
-- of ArgoCD end the program where they fail, and the model goes on, as the code does where they succeed.
use karlon.Base.{ℕ, Bool, true, false, not, ◌==◌, String, none, some, List, [], ◌∷◌, if◌then◌else◌}
use karlon.Base.Dict.{get}
use karlon.Base.Number.{pos}
use karlon.Base.Result.{Error, Result, message, is_not_found}
use karlon.Cli.{prepare_git_command}
use karlon.Installer.{Failure, err_bootstrap, plain, caught}
use karlon.Installer.Command.{install_command}
use karlon.Installer.Tools.{default_kubectl_path, default_argocd_path}
use karlon.Repos.{RepoCtxCfg, repo_default_ctx, get_repo_cfg_path}
use karlon.Repos.Commands.{register}
use karlon.Services.{
  Api, RepoCreds, Resource, KubeObject, client_config, runtime_client, kube_client, ask_to_proceed,
  default_config_path, secret_get, argo_login, path_remove,
}
use karlon.Services.Exec.{Exec, ◌>>=◌, ◌>>◌, pure, return_now, perform, or_else, attempt}
use karlon.Setup.{
  LocalConfig, InstallFiles, default_argo_namespace, default_karlon_namespace, can_install_argocd,
  can_install_karlon, begin_argocd_install, begin_karlon_install,
}
use karlon.Setup.Examples.{
  port_forward, check_examples, run_generate_cluster_template, push_manifests,
}

-- an element of baseClusterArgs
pub record Example : Type 0 where
  pub repo_path : String
  pub name : String
  pub manifest_file_name : String
  pub provider : String
  pub flavor : String

abbrev pub examples : List Example
examples =
    record {
      repo_path = "examples/baseclusters/docker";
      name = "docker-example";
      manifest_file_name = "capd.yaml";
      provider = "docker";
      flavor = "development";
    }
    ∷ record {
      repo_path = "examples/baseclusters/aws";
      name = "aws-example";
      manifest_file_name = "capa.yaml";
      provider = "aws";
      flavor = "";
    }
    ∷ record {
      repo_path = "examples/baseclusters/aws-eks";
      name = "aws-eks-example";
      manifest_file_name = "capa-eks.yaml";
      provider = "aws";
      flavor = "eks";
    }
    ∷ []

abbrev pub example_paths : List Example → List String
example_paths [] = []
example_paths (e ∷ es) = e.repo_path ∷ example_paths es

-- the flags of init
pub record InitFlags : Type 0 where
  pub no_confirm : Bool
  pub add_examples : Bool
  pub git_user : String
  pub password : String
  pub repo_url : String

module _ {api : Api} where
  -- whether to install what is missing
  unfoldable pub should_install : Bool → String → Exec api Error Bool
  should_install no_confirm question =
      if no_confirm then pure true else perform (ask_to_proceed question)

  -- an error of another command
  unfoldable pub propagate : Exec api Failure (Unit {0}) → Exec api Error (Unit {0})
  propagate m = do
    failed ← caught m
    elim failed [
      | none ↦ pure tt
      | some f ↦ elim f [
        | err_bootstrap hard msg ↦ return_now (message msg)
        | plain e ↦ return_now e
      ]
    ]

  -- getArgoAdminPassword
  unfoldable pub get_argo_admin_password : String → Exec api Error String
  get_argo_admin_password argo_ns = do
    got ← perform (secret_get argo_ns "argocd-initial-admin-secret")
    secr ← or_else got return_now
    pure (get "password" secr.content)

  module _ (poll : Exec api Error Bool → Exec api Error (Unit {0}))
      (documents : String → List (Result KubeObject)) (files : InstallFiles) where
    -- the first part of the command: ArgoCD
    unfoldable pub offer_argocd : Bool → Exec api Error (Unit {0})
    offer_argocd no_confirm = do
      missing ← attempt (can_install_argocd default_argo_namespace)
      install ← or_else missing return_now
      if not install then pure tt else do
        proceed ←
            should_install no_confirm
              "ArgoCD not found, possibly not installed. Proceed to install? [y/n]"
        if not proceed then pure tt else do
          installed ← attempt (begin_argocd_install poll documents files)
          or_else installed return_now

    -- what is done while ArgoCD is forwarded
    unfoldable pub log_in_and_install :
        (LocalConfig → Result String) → ℕ → Exec api Error (Unit {0})
    log_in_and_install marshal port = do
      got ← attempt (get_argo_admin_password default_argo_namespace)
      password ← or_else got return_now
      perform (argo_login "admin" password)
      installed ← attempt (
          begin_karlon_install poll documents files marshal default_karlon_namespace
            default_argo_namespace)
      or_else installed return_now

    -- the second part: karlon's controllers
    unfoldable pub offer_karlon :
        (LocalConfig → Result String) → String → Bool → Exec api Error (Unit {0})
    offer_karlon marshal host no_confirm = do
      missing ← attempt (can_install_karlon default_karlon_namespace)
      install ← or_else missing return_now
      if not install then pure tt else do
        proceed ←
            should_install no_confirm
              "kkkarlon namespace not found. Install kkkarlon controller?[y/n]"
        if not proceed then pure tt else do
          installed ←
              attempt (port_forward host default_argo_namespace (log_in_and_install marshal))
          or_else installed return_now

    -- the command up to the examples
    unfoldable pub set_up :
        (LocalConfig → Result String) → String → String → Bool → Exec api Error (Unit {0})
    set_up marshal host platform no_confirm = do
      config ← perform client_config
      or_else config return_now
      client ← perform runtime_client
      or_else client return_now
      clientset ← perform kube_client
      or_else clientset return_now
      offer_argocd no_confirm
      argo_config ← perform default_config_path
      path ← or_else argo_config return_now
      offer_karlon marshal host no_confirm
      propagate (
          install_command platform (record {
            tools_only = false;
            capi_only = true;
            no_confirm = no_confirm;
            kubectl_path = default_kubectl_path;
            argocd_path = default_argocd_path;
            kubeconfig_path = "";
            infrastructure = "aws" ∷ "docker" ∷ [];
            bootstraps = [];
          }))

module _ (unmarshal : String → Result RepoCtxCfg) (marshal_cfg : RepoCtxCfg → Result String) where
  module _ {api : Api} where
    -- the workspace repository becomes the default one
    unfoldable pub register_workspace : InitFlags → ℕ → Exec api Error (Unit {0})
    register_workspace f port = do
      got ← attempt get_repo_cfg_path
      path ← or_else got return_now
      removed ← perform (path_remove path)
      or_else removed λ e. if not (is_not_found e) then return_now e else pure tt
      if f.repo_url == "" then return_now (message "repoUrl not set") else pure tt
      registered ←
          attempt (register unmarshal marshal_cfg f.repo_url f.git_user f.password repo_default_ctx)
      or_else registered return_now

  module _ (encode : Resource → Result String) (encoded : List Resource → String)
      (configurations_yaml : String) where
    module _ {api : Api} where
      -- the loop over the examples
      unfoldable pub push_examples : RepoCreds → List Example → Exec api Error (Unit {0})
      push_examples creds [] = pure tt
      push_examples creds (e ∷ es) = do
        generated ← attempt (run_generate_cluster_template e.name "v1.23.14" e.provider e.flavor)
        manifest ← or_else generated return_now
        pushed ← attempt (push_manifests creds e.repo_path manifest e.manifest_file_name)
        or_else pushed return_now
        prepared ← attempt (
            prepare_git_command unmarshal encode encoded configurations_yaml "argocd" ""
              repo_default_ctx "main" e.repo_path (pos 9) (pos 1))
        x ← or_else prepared return_now
        push_examples creds es

      -- the command behind set_up
      unfoldable pub add_examples_to : String → InitFlags → Exec api Error (Unit {0})
      add_examples_to host f = do
        registered ← attempt (port_forward host default_argo_namespace (register_workspace f))
        or_else registered return_now
        let creds : RepoCreds = record {
          url = f.repo_url;
          username = f.git_user;
          password = f.password;
        }
        checked ← attempt (check_examples creds (example_paths examples) f.no_confirm)
        exists ← or_else checked return_now
        if exists then pure tt else push_examples creds examples

    module _ {api : Api} (poll : Exec api Error Bool → Exec api Error (Unit {0}))
        (documents : String → List (Result KubeObject)) (files : InstallFiles) where
      -- init
      unfoldable pub init :
          (LocalConfig → Result String) → String → String → InitFlags → Exec api Error (Unit {0})
      init marshal host platform f = do
        prepared ← attempt (set_up poll documents files marshal host platform f.no_confirm)
        or_else prepared return_now
        if not f.add_examples
            then pure tt
            else do added ← attempt (add_examples_to host f); or_else added return_now

-- ===== src/Services.antt =====
-- The services that the program calls: the Kubernetes API, ArgoCD's API and git. They are not in the
-- repository, so they are the parameter `Api`: a world of any type, and an answer to each call that
-- may depend on the world and change it. A state keeps the world and the calls made, latest first.
pub mod Exec
pub mod Quiet
use karlon.Base.{ℕ, Bool, true, false, String, Option, none, some, List, [], ◌∷◌}
use karlon.Base.Dict.{Dict}
use karlon.Base.Result.{Result}
use karlon.Objects.{
  Meta, Cluster, ClusterRegistration, CallHomeConfig, AppProfile, Profile, Secret, ConfigMap,
  ArgoCluster, Application, ApplicationSet,
}

-- argocd.RepoCreds
pub record RepoCreds : Type 0 where
  pub url : String
  pub username : String
  pub password : String

-- os.FileInfo, and an entry of go-git's Status
pub record FileInfo : Type 0 where
  pub name : String
  pub is_dir : Bool
  pub is_symlink : Bool

pub record FileStatus : Type 0 where
  pub file : String
  pub deleted : Bool

-- resource.Info of a manifest: its kind, name and namespace, and its annotations
pub record Resource : Type 0 where
  pub kind : String
  pub name : String
  pub namespace : String
  pub annotations : Option (Dict String)

-- what a kustomization.yaml of the program says
pub record Kustomization : Type 0 where
  pub api_version : String
  pub kind : String
  pub resources : List String
  pub configurations : List String
  pub patches : List String

-- the files embedded in the program: a file with its name and text, or a folder
mutual
  pub data Entry : Type 0 where
    file : String → String → Entry
    folder : String → Entries → Entry

  pub data Entries : Type 0 where
    end : Entries
    entry_then : Entry → Entries → Entries

-- What the program takes from libraries, without a call: ArgoCD's constant for the finalizer of a
-- cascading deletion, yaml.Marshal, text/template's Parse and Execute on a text without data, and the
-- files that the build embeds
pub record Libraries : Type 0 where
  pub foreground_finalizer : String
  pub marshal : Kustomization → Result String
  pub parse : String → Result String
  pub execute : String → Result String
  -- the manifests embedded in pkg/cluster
  pub cluster_manifests : Entries

-- clusterctl's InitOptions, as the installer sets them
pub record InitOptions : Type 0 where
  pub kubeconfig : String
  pub core_provider : String
  pub bootstrap_providers : List String
  pub infrastructure_providers : List String

-- an unstructured object of Kubernetes, a condition of a deployment, and a pod
pub record KubeObject : Type 0 where
  pub kind : String
  pub name : String
  pub namespace : String
  pub content : String

pub record Condition : Type 0 where
  pub condition_type : String
  pub reason : String

pub record Pod : Type 0 where
  pub name : String
  pub phase : String

-- One constructor for each request. Handles, such as a clone or a client made from a kubeconfig, are
-- opaque texts.
pub data Call : Type 0 where
  -- custom resources, by the controller runtime client; `helper` is patch.NewHelper
  cluster_get : String → String → Call
  cluster_helper : String → Call
  cluster_patch : Cluster → Call
  cluster_status_update : Cluster → Call
  registration_get : String → String → Call
  registration_helper : String → Call
  registration_patch : ClusterRegistration → Call
  registration_status_update : ClusterRegistration → Call
  call_home_get : String → String → Call
  call_home_status_update : CallHomeConfig → Call
  app_profile_get : String → String → Call
  app_profile_list : Call
  app_profile_list_in : String → Call
  app_profile_status_update : AppProfile → Call
  profile_get : String → String → Call
  profile_list : String → Call
  profile_create : Profile → Call
  profile_update : Profile → Call
  profile_delete : String → String → Call
  -- core resources: the namespace comes first
  secret_get : String → String → Call
  secret_list : String → String → Call
  secret_create : String → Secret → Call
  secret_update : String → Secret → Call
  secret_delete : String → String → Call
  -- a patch by the controller runtime client: the object as it is to be
  secret_patch : Secret → Call
  service_account_get : String → String → Call
  config_map_get : String → String → Call
  config_map_list : String → String → Call
  config_map_create : String → ConfigMap → Call
  config_map_update : String → ConfigMap → Call
  config_map_delete : String → String → Call
  -- a kubeconfig becomes a configuration, and that a client of another cluster
  rest_config : String → Call
  new_clientset : String → Call
  install_manager_rbac : String → Call
  remote_secret_get : String → String → String → Call
  remote_secret_create : String → String → Secret → Call
  write_kubeconfig : String → String → String → Call
  -- kubernetes.NewForConfig over the program's own configuration
  kube_client : Call
  -- ctrlruntimeclient.NewClient over it, and os.ReadFile
  runtime_client : Call
  read_file : String → Call
  -- the configuration of the command line: the directory of ArgoCD's, and files by their path
  default_config_dir : Call
  path_stat : String → Call
  path_make_dirs : String → Call
  path_open : String → Call
  path_read : String → Call
  path_truncate : String → Call
  path_write : String → String → Call
  prompt_password : Call
  path_write_file : String → String → Call
  make_temp_dir : String → Call
  set_env : String → String → Call
  -- cli.AskToProceed, exec.LookPath, and the output of a command
  ask_to_proceed : String → Call
  look_path : String → Call
  run_command : List String → Call
  -- the administration of AWS, and clusterctl
  run_aws_admin : List String → Call
  aws_credentials : String → Call
  render_credentials : String → Call
  capi_client : Call
  capi_config : Call
  default_core_provider : Call
  capi_init : InitOptions → Call
  capi_template : String → String → String → String → Call
  template_yaml : String → Call
  -- the management cluster: its configuration, namespaces, deployments and any object
  client_config : Call
  build_config : String → Call
  namespace_get : String → Call
  namespace_create : String → Call
  deployment_get : String → String → Call
  object_create : KubeObject → Call
  pod_list : String → String → Call
  port_forward_open : String → Call
  port_forward_ports : Call
  port_forward_stop : Call
  http_get : String → Call
  argo_login : String → String → Call
  create_token : String → Call
  default_config_path : Call
  path_remove : String → Call
  path_remove_all : String → Call
  file_overwrite : String → String → Call
  get_env : String → Call
  git_clone_branch : String → String → String → Call
  git_add_file : String → String → Call
  repo_validate_access : RepoCreds → Call
  repo_create : RepoCreds → Call
  -- a git repository: a clone is a directory, and its work tree a file system
  git_clone : String → RepoCreds → String → String → Call
  git_worktree : String → Call
  git_status : String → Call
  git_add : String → String → Call
  git_commit : String → String → Call
  git_push : String → RepoCreds → Call
  file_read_dir : String → String → Call
  file_lstat : String → String → Call
  file_stat : String → String → Call
  file_remove : String → String → Call
  file_make_dirs : String → String → Call
  file_truncate : String → String → Call
  file_create : String → String → Call
  file_write : String → String → String → Call
  dir_remove_all : String → Call
  -- the resources of a manifest, read by kubectl's builder
  manifest_infos : String → Call
  -- ArgoCD; an `object` is read from Kubernetes, not from its API
  application_client : Call
  application_get : String → Call
  application_create : Application → Call
  application_update : Application → Call
  application_delete : String → Call
  application_list : String → Call
  app_set_list : String → String → Call
  app_set_get : String → String → Call
  application_object_get : String → String → Call
  app_set_update : ApplicationSet → Call
  app_set_delete : String → String → Call
  cluster_client : Call
  argo_cluster_list : Call
  argo_cluster_update : ArgoCluster → Call
  argo_cluster_get : String → Call
  argo_cluster_create : ArgoCluster → String → String → Call
  argo_cluster_delete : String → String → Call

abbrev pub Answer : Call → Type 0
Answer (cluster_get ns n) = Result Cluster
Answer (cluster_helper n) = Result (Unit {0})
Answer (cluster_patch c) = Result (Unit {0})
Answer (cluster_status_update c) = Result (Unit {0})
Answer (registration_get ns n) = Result ClusterRegistration
Answer (registration_helper n) = Result (Unit {0})
Answer (registration_patch r) = Result (Unit {0})
Answer (registration_status_update r) = Result (Unit {0})
Answer (call_home_get ns n) = Result CallHomeConfig
Answer (call_home_status_update c) = Result (Unit {0})
Answer (app_profile_get ns n) = Result AppProfile
Answer app_profile_list = Result (List AppProfile)
Answer (app_profile_list_in ns) = Result (List AppProfile)
Answer (app_profile_status_update p) = Result (Unit {0})
Answer (profile_get ns n) = Result Profile
Answer (profile_list ns) = Result (List Profile)
Answer (profile_create p) = Result (Unit {0})
Answer (profile_update p) = Result (Unit {0})
Answer (profile_delete ns n) = Result (Unit {0})
Answer (secret_get ns n) = Result Secret
Answer (secret_list ns selector) = Result (List Secret)
Answer (secret_create ns s) = Result (Unit {0})
Answer (secret_update ns s) = Result (Unit {0})
Answer (secret_delete ns n) = Result (Unit {0})
Answer (secret_patch s) = Result (Unit {0})
Answer (service_account_get ns n) = Result (Unit {0})
Answer (config_map_get ns n) = Result ConfigMap
Answer (config_map_list ns selector) = Result (List ConfigMap)
Answer (config_map_create ns m) = Result (Unit {0})
Answer (config_map_update ns m) = Result (Unit {0})
Answer (config_map_delete ns n) = Result (Unit {0})
Answer (rest_config d) = Result String
Answer (new_clientset c) = Result String
Answer (install_manager_rbac c) = Result String
Answer (remote_secret_get c ns n) = Result Secret
Answer (remote_secret_create c ns s) = Result (Unit {0})
Answer (write_kubeconfig u c t) = Result String
Answer kube_client = Result (Unit {0})
Answer runtime_client = Result (Unit {0})
Answer (read_file p) = Result String
Answer default_config_dir = Result String
Answer (path_stat p) = Result (Unit {0})
Answer (path_make_dirs p) = Result (Unit {0})
Answer (path_open p) = Result (Unit {0})
Answer (path_read p) = Result String
Answer (path_truncate p) = Result (Unit {0})
Answer (path_write p t) = Result (Unit {0})
Answer prompt_password = String
Answer (path_write_file p t) = Result (Unit {0})
Answer (make_temp_dir prefix) = Result String
Answer (set_env n v) = Result (Unit {0})
Answer (ask_to_proceed q) = Bool
Answer (look_path n) = Result (Unit {0})
Answer (run_command args) = Result String
Answer (run_aws_admin args) = Result (Unit {0})
Answer (aws_credentials region) = Result String
Answer (render_credentials c) = Result String
Answer capi_client = Result (Unit {0})
Answer capi_config = Result (Unit {0})
Answer default_core_provider = String
Answer (capi_init o) = Result (Unit {0})
Answer (capi_template n version provider flavor) = Result String
Answer (template_yaml t) = Result String
Answer client_config = Result (Unit {0})
Answer (build_config path) = Result (Unit {0})
Answer (namespace_get n) = Result (Unit {0})
Answer (namespace_create n) = Result (Unit {0})
Answer (deployment_get ns n) = Result (List Condition)
Answer (object_create o) = Result (Unit {0})
Answer (pod_list ns selector) = Result (List Pod)
Answer (port_forward_open url) = Result (Unit {0})
Answer port_forward_ports = Result (List ℕ)
Answer port_forward_stop = Unit {0}
Answer (http_get link) = Result String
Answer (argo_login user password) = Unit {0}
Answer (create_token n) = Result String
Answer default_config_path = Result String
Answer (path_remove p) = Result (Unit {0})
Answer (path_remove_all p) = Result (Unit {0})
Answer (file_overwrite dir p) = Result (Unit {0})
Answer (get_env n) = String
Answer (git_clone_branch dir url branch) = Result (Unit {0})
Answer (git_add_file dir f) = Result (Unit {0})
Answer (repo_validate_access creds) = Result (Unit {0})
Answer (repo_create creds) = Result String
Answer (git_clone dir creds url branch) = Result (Unit {0})
Answer (git_worktree dir) = Result (Unit {0})
Answer (git_status dir) = Result (List FileStatus)
Answer (git_add dir f) = Unit {0}
Answer (git_commit dir m) = Result (Unit {0})
Answer (git_push dir creds) = Result (Unit {0})
Answer (file_read_dir dir p) = Result (List FileInfo)
Answer (file_lstat dir p) = Result FileInfo
Answer (file_stat dir p) = Result (Unit {0})
Answer (file_remove dir p) = Result (Unit {0})
Answer (file_make_dirs dir p) = Result (Unit {0})
Answer (file_truncate dir p) = Result (Unit {0})
Answer (file_create dir p) = Result (Unit {0})
Answer (file_write dir p t) = Result (Unit {0})
Answer (dir_remove_all dir) = Unit {0}
Answer (manifest_infos p) = Result (List Resource)
Answer application_client = Result (Unit {0})
Answer (application_get n) = Result Application
Answer (application_create a) = Result Application
Answer (application_update a) = Result Application
Answer (application_delete n) = Result (Unit {0})
Answer (application_list selector) = Result (List Application)
Answer (app_set_list ns selector) = Result (List ApplicationSet)
Answer (app_set_get ns n) = Result ApplicationSet
Answer (application_object_get ns n) = Result Application
Answer (app_set_update a) = Result (Unit {0})
Answer (app_set_delete ns n) = Result (Unit {0})
Answer cluster_client = Result (Unit {0})
Answer argo_cluster_list = Result (List ArgoCluster)
Answer (argo_cluster_update c) = Result (Unit {0})
Answer (argo_cluster_get n) = Result ArgoCluster
Answer (argo_cluster_create c conf t) = Result (Unit {0})
Answer (argo_cluster_delete n server) = Result (Unit {0})

pub record Api : Type 1 where
  pub World : Type 0
  pub answer : (c : Call) → World → Answer c × World

module _ (api : Api) where
  pub record State : Type 0 where
    pub world : api.World
    pub calls : List Call

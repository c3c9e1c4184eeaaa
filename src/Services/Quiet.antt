-- ===== src/Services/Quiet.antt =====
-- A service that knows no object and accepts every write: what the tests vary.
use karlon.Base.{true, some, []}
use karlon.Base.Result.{Error, ok, err, kube, grpc, message}
use karlon.Services.{
  Call, Answer, Api, cluster_get, registration_get, call_home_get, app_profile_get,
  app_profile_list, secret_get, secret_list, config_map_get, rest_config, new_clientset,
  install_manager_rbac, remote_secret_get, write_kubeconfig, application_get, application_create,
  application_update, argo_cluster_get,
}

abbrev pub missing : Error
missing = kube true "not found"

-- gRPC's NotFound is 5
abbrev pub no_application : Error
no_application = grpc (some 5) "not found"

abbrev pub quiet : (c : Call) → Answer c
quiet (cluster_get ns n) = err missing
quiet (registration_get ns n) = err missing
quiet (call_home_get ns n) = err missing
quiet (app_profile_get ns n) = err missing
quiet app_profile_list = ok []
quiet (Call.app_profile_list_in _) = ok []
quiet (secret_get ns n) = err missing
quiet (secret_list ns selector) = ok []
quiet (config_map_get ns n) = err missing
quiet (rest_config d) = ok d
quiet (new_clientset c) = ok c
quiet (install_manager_rbac c) = ok "token"
quiet (remote_secret_get c ns n) = err missing
quiet (write_kubeconfig u c t) = ok "kubeconfig"
quiet (application_get n) = err no_application
quiet (application_create a) = ok a
quiet (application_update a) = ok a
quiet (argo_cluster_get n) = err no_application
quiet (Call.cluster_helper _) = ok tt
quiet (Call.cluster_patch _) = ok tt
quiet (Call.cluster_status_update _) = ok tt
quiet (Call.registration_helper _) = ok tt
quiet (Call.registration_patch _) = ok tt
quiet (Call.registration_status_update _) = ok tt
quiet (Call.call_home_status_update _) = ok tt
quiet (Call.app_profile_status_update _) = ok tt
quiet (Call.service_account_get _ _) = ok tt
quiet (Call.config_map_create _ _) = ok tt
quiet (Call.config_map_update _ _) = ok tt
quiet (Call.config_map_delete _ _) = ok tt
quiet (Call.remote_secret_create _ _ _) = ok tt
quiet (Call.application_list _) = ok []
quiet (Call.app_set_list _ _) = ok []
quiet (Call.app_set_get ns n) = err missing
quiet (Call.application_object_get ns n) = err missing
quiet (Call.app_set_update _) = ok tt
quiet Call.cluster_client = ok tt
quiet Call.argo_cluster_list = ok []
quiet (Call.argo_cluster_update _) = ok tt
quiet Call.kube_client = ok tt
quiet (Call.profile_get _ _) = err missing
quiet (Call.profile_list _) = ok []
quiet (Call.profile_create _) = ok tt
quiet (Call.profile_update _) = ok tt
quiet (Call.profile_delete _ _) = ok tt
quiet (Call.secret_create _ _) = ok tt
quiet (Call.secret_update _ _) = ok tt
quiet (Call.secret_delete _ _) = ok tt
quiet (Call.secret_patch _) = ok tt
quiet (Call.config_map_list _ _) = ok []
quiet Call.runtime_client = ok tt
quiet (Call.read_file _) = err missing
quiet (Call.file_make_dirs _ _) = ok tt
quiet (Call.file_truncate _ _) = ok tt
quiet Call.default_config_dir = ok "/home/user/.config/argocd"
quiet (Call.path_stat _) = ok tt
quiet (Call.path_make_dirs _) = ok tt
quiet (Call.path_open _) = ok tt
quiet (Call.path_read _) = ok ""
quiet (Call.path_truncate _) = ok tt
quiet (Call.path_write _ _) = ok tt
quiet Call.prompt_password = "secret"
quiet (Call.path_write_file _ _) = ok tt
quiet (Call.make_temp_dir _) = ok "/tmp/kkarlon-1"
quiet (Call.get_env _) = "set"
quiet (Call.set_env _ _) = ok tt
quiet (Call.ask_to_proceed _) = true
quiet (Call.look_path _) = ok tt
quiet (Call.run_command _) = ok "v1.25.0"
quiet (Call.run_aws_admin _) = ok tt
quiet (Call.aws_credentials _) = ok "chain"
quiet (Call.render_credentials _) = ok "profile"
quiet Call.capi_client = ok tt
quiet Call.capi_config = ok tt
quiet Call.default_core_provider = ""
quiet (Call.capi_init _) = ok tt
quiet (Call.capi_template _ _ _ _) = ok "template"
quiet (Call.template_yaml _) = ok "kind: Cluster"
quiet Call.client_config = ok tt
quiet (Call.build_config _) = ok tt
quiet (Call.namespace_get _) = ok tt
quiet (Call.namespace_create _) = ok tt
quiet (Call.deployment_get _ _) = ok []
quiet (Call.object_create _) = ok tt
quiet (Call.pod_list _ _) = ok []
quiet (Call.port_forward_open _) = ok tt
quiet Call.port_forward_ports = ok []
quiet Call.port_forward_stop = tt
quiet (Call.http_get _) = ok ""
quiet (Call.argo_login _ _) = tt
quiet (Call.create_token _) = ok "token"
quiet Call.default_config_path = ok "/home/user/.config/argocd/config"
quiet (Call.path_remove _) = ok tt
quiet (Call.path_remove_all _) = ok tt
quiet (Call.file_overwrite _ _) = ok tt
quiet (Call.git_clone_branch _ _ _) = ok tt
quiet (Call.git_add_file _ _) = ok tt
quiet (Call.repo_validate_access _) = ok tt
quiet (Call.repo_create creds) = ok creds.url
quiet (Call.app_set_delete _ _) = ok tt
quiet (Call.git_clone _ _ _ _) = ok tt
quiet (Call.git_worktree _) = ok tt
quiet (Call.git_status _) = ok []
quiet (Call.git_add _ _) = tt
quiet (Call.git_commit _ _) = ok tt
quiet (Call.git_push _ _) = ok tt
quiet (Call.file_read_dir _ _) = ok []
quiet (Call.file_lstat _ _) = err (message "no such file")
quiet (Call.file_stat _ _) = ok tt
quiet (Call.file_remove _ _) = ok tt
quiet (Call.file_create _ _) = ok tt
quiet (Call.file_write _ _ _) = ok tt
quiet (Call.dir_remove_all _) = tt
quiet (Call.manifest_infos _) = ok []
quiet Call.application_client = ok tt
quiet (Call.application_delete _) = ok tt
quiet (Call.argo_cluster_create _ _ _) = ok tt
quiet (Call.argo_cluster_delete _ _) = ok tt

-- a service whose answers do not depend on what was called before
abbrev pub fixed : ((c : Call) → Answer c) → Api
fixed answers = record { World = Unit {0}; answer = λ c w. (answers c, w) }

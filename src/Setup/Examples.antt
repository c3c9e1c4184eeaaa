-- ===== src/Setup/Examples.antt =====
-- pkg/cmd/initialize/init.go: the way to ArgoCD's server, and the examples in the workspace repository.
use Prim.Native.Char.{code}
use Prim.Native.String.{String, [], ◌∷◌}
use mathlib.Core.List.{List, [], ◌∷◌}
use karlon.Base.{ℕ, Bool, true, false, not, ◌==◌, ◌&&◌, nat_eq, none, some, Option, if◌then◌else◌}
use karlon.Base.Path.{join_path}
use karlon.Base.Result.{Error, ok, err, message, chained, kube, is_not_found}
use karlon.Base.Text.{sprint}
use karlon.Git.{clone_repo, commit_changes}
use karlon.Services.{
  Api, Pod, RepoCreds, FileStatus, pod_list, port_forward_open, port_forward_ports,
  port_forward_stop, ask_to_proceed, path_remove_all, path_make_dirs, file_stat, file_overwrite,
  file_write, git_worktree, git_status, git_add, git_commit, git_push, dir_remove_all, capi_client,
  capi_template, template_yaml,
}
use karlon.Services.Exec.{Exec, ◌>>=◌, ◌>>◌, pure, return_now, perform, or_else, attempt}
use karlon.Setup.{default_argo_server_deployment}

-- `strings.Contains`
unfoldable pub starts_with : String → String → Bool
starts_with [] s = true
starts_with (c ∷ p) [] = false
starts_with (c ∷ p) (d ∷ s) = let rest = starts_with p s in nat_eq (code c) (code d) && rest

unfoldable pub contains_text : String → String → Bool
contains_text sub [] = starts_with sub []
contains_text sub (c ∷ s) =
    let later = contains_text sub s in if starts_with sub (c ∷ s) then true else later

-- the loop of portForward over the pods: the first one that runs the server, if there is one
unfoldable pub running_server : List Pod → Option Pod
running_server [] = none
running_server (p ∷ ps) =
    let later = running_server ps in
    if contains_text default_argo_server_deployment p.name && p.phase == "Running"
    then some p
    else later

-- the pod at podIdx, the first one where none runs
abbrev pub server_pod : Pod → List Pod → Pod
server_pod p ps = elim (running_server (p ∷ ps)) [ none ↦ p | some found ↦ found ]

module _ {api : Api} where
  unfoldable pub call_back : (ℕ → Exec api Error (Unit {0})) → Exec api Error (Unit {0})
  call_back callback = do
    got ← perform port_forward_ports
    ports ← or_else got return_now
    elim ports [
      | [] ↦ return_now (message "failed to get ports")
      | port ∷ rest ↦ elim rest [
        | [] ↦ callback port
        | other ∷ others ↦ return_now (message "failed to get ports")
      ]
    ]

  -- runPortForward; the forwarding is stopped however it ends
  unfoldable pub run_port_forward :
      String → String → Pod → (ℕ → Exec api Error (Unit {0})) → Exec api Error (Unit {0})
  run_port_forward host argo_ns pod callback = do
    opened ← perform (
        port_forward_open (
          sprint
            (host ∷ "/api/v1/namespaces/" ∷ argo_ns ∷ "/pods/" ∷ pod.name ∷ "/portforward" ∷ [])))
    or_else opened return_now
    result ← attempt (call_back callback)
    perform port_forward_stop
    or_else result return_now

  -- portForward
  unfoldable pub port_forward :
      String → String → (ℕ → Exec api Error (Unit {0})) → Exec api Error (Unit {0})
  port_forward host argo_ns callback = do
    got ← perform (pod_list argo_ns "app.kubernetes.io/name=argocd-server")
    pods ← or_else got return_now
    elim pods [
      | [] ↦ return_now (kube true "pod.v1 \"argocd-server\" not found")
      | p ∷ ps ↦ run_port_forward host argo_ns (server_pod p ps) callback
    ]

  -- whether a directory that is there is removed
  unfoldable pub keep_or_delete : String → Bool → Exec api Error (Option Bool)
  keep_or_delete path no_confirm = if no_confirm then pure (some true) else do
    answer ← perform (
        ask_to_proceed (
          sprint (
            "Example directory " ∷ path ∷ " already exists. Remove and proceed or Exit?[y/n]"
            ∷ [])))
    pure (some answer)

  -- the loop of checkExamples: whether a directory is there and stays
  unfoldable pub clear_examples : String → Bool → List String → Exec api Error Bool
  clear_examples dir no_confirm [] = pure false
  clear_examples dir no_confirm (path ∷ paths) = do
    found ← perform (file_stat dir path)
    should_delete ← elim found [
      | err e ↦ if is_not_found e then pure none else keep_or_delete path no_confirm
      | ok _ ↦ keep_or_delete path no_confirm
    ]
    elim should_delete [
      | none ↦ clear_examples dir no_confirm paths
      | some false ↦ pure true
      | some true ↦ (do
        removed ← perform (path_remove_all (join_path (dir ∷ path ∷ [])))
        or_else removed return_now
        clear_examples dir no_confirm paths)
    ]

  unfoldable pub add_statuses : String → List FileStatus → Exec api Error (Unit {0})
  add_statuses dir [] = pure tt
  add_statuses dir (status ∷ statuses) = do
    perform (git_add dir status.file)
    add_statuses dir statuses

  -- checkExamples in its clone
  unfoldable pub check_clone : RepoCreds → String → Bool → List String → Exec api Error Bool
  check_clone creds dir no_confirm paths = do
    tree ← perform (git_worktree dir)
    or_else tree return_now
    kept ← attempt (clear_examples dir no_confirm paths)
    declined ← or_else kept return_now
    if declined then pure true else do
      got ← perform (git_status dir)
      statuses ← or_else got λ e. return_now (chained "failed to get worktree status" e)
      add_statuses dir statuses
      committed ← perform (git_commit dir "clearing examples")
      or_else committed λ e. return_now (chained "failed to commit change" e)
      pushed ← perform (git_push dir creds)
      or_else pushed return_now
      pure false

  -- checkExamples: true where the user keeps a directory
  unfoldable pub check_examples : RepoCreds → List String → Bool → Exec api Error Bool
  check_examples creds paths no_confirm = do
    cloned ← attempt (clone_repo creds creds.url "main")
    dir ← or_else cloned return_now
    result ← attempt (check_clone creds dir no_confirm paths)
    perform (dir_remove_all dir)
    or_else result return_now

  -- runGenerateClusterTemplate
  unfoldable pub run_generate_cluster_template :
      String → String → String → String → Exec api Error String
  run_generate_cluster_template name version provider flavor = do
    client ← perform capi_client
    or_else client return_now
    got ← perform (capi_template name version provider flavor)
    template ← or_else got return_now
    printed ← perform (template_yaml template)
    out ← or_else printed return_now
    pure (sprint (out ∷ "\n" ∷ []))

  -- pushManifests in its clone
  unfoldable pub push_clone :
      RepoCreds → String → String → String → String → Exec api Error (Unit {0})
  push_clone creds dir repo_path manifest manifest_name = do
    tree ← perform (git_worktree dir)
    or_else tree return_now
    made ← perform (path_make_dirs (join_path (dir ∷ repo_path ∷ [])))
    or_else made return_now
    let path : String = join_path (repo_path ∷ manifest_name ∷ [])
    opened ← perform (file_overwrite dir path)
    or_else opened return_now
    written ← perform (file_write dir path manifest)
    or_else written return_now
    committed ← attempt (commit_changes dir (sprint ("add " ∷ path ∷ [])))
    changed ← or_else committed return_now
    if not changed
        then pure tt
        else do pushed ← perform (git_push dir creds); or_else pushed return_now

  -- pushManifests
  unfoldable pub push_manifests : RepoCreds → String → String → String → Exec api Error (Unit {0})
  push_manifests creds repo_path manifest manifest_name = do
    cloned ← attempt (clone_repo creds creds.url "main")
    dir ← or_else cloned return_now
    result ← attempt (push_clone creds dir repo_path manifest manifest_name)
    perform (dir_remove_all dir)
    or_else result return_now

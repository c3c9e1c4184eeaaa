-- ===== src/Controllers/Registration.antt =====
-- pkg/controllers/clusterregistration_controller.go. `OrDie` clients are taken to open: where they
-- do not, the process ends and no code of this file runs.
mod States
mod Finalizer
mod Tests
use karlon.Base.{
  ℕ, Bool, true, false, not, ◌||◌, ◌==◌, ◌!=◌, String, Option, none, some, List, [], ◌∷◌, ◌++◌,
  contains, remove_all, if◌then◌else◌,
}
use karlon.Base.Dict.{lookup}
use karlon.Base.Text.{sprint}
use karlon.Base.Result.{Error, Result, ok, err, is_not_found, text}
use karlon.Objects.{Meta, ClusterRegistration, Status, Secret, ArgoCluster}
use karlon.Services.{
  Call, Api, State, registration_get, registration_helper, registration_patch,
  registration_status_update, secret_get, rest_config, new_clientset, install_manager_rbac,
  argo_cluster_get, argo_cluster_create, argo_cluster_delete,
}
use karlon.Services.Exec.{Exec, Flow, stop, go, ◌>>=◌, ◌>>◌, pure, return_now, perform, or_else}
use karlon.Controllers.Reply.{Reply, done, again, again_in, failed}

abbrev pub finalizer : String
finalizer = "clusterregistration.core.kkarlon.io"

-- controllerutil.AddFinalizer on an object that lacks it
abbrev pub add_finalizer : ClusterRegistration → ClusterRegistration
add_finalizer cr = record cr {
  meta = record cr.meta { finalizers = cr.meta.finalizers ++ finalizer ∷ [] };
}

-- controllerutil.RemoveFinalizer
pub remove_finalizer : ClusterRegistration → ClusterRegistration
unfolding remove_all
remove_finalizer cr = record cr {
  meta = record cr.meta { finalizers = remove_all finalizer cr.meta.finalizers };
}

abbrev pub set_status : ClusterRegistration → String → String → ClusterRegistration
set_status cr state msg = record cr { status = record { state = state; message = msg } }

module _ {api : Api} where
  pub update_state : ClusterRegistration → String → String → Reply → Exec api Reply Reply
  update_state cr state msg result = do
    r ← perform (registration_status_update (set_status cr state msg))
    or_else r (λ e. return_now (failed e))
    pure result

  pub reconcile_delete : ClusterRegistration → Exec api Reply Reply
  unfolding remove_finalizer
  reconcile_delete cr = do
    found ← perform (argo_cluster_get cr.spec.cluster_name)
    elim found [
      | err e ↦ pure tt
      | ok clust ↦ do
        r ← perform (argo_cluster_delete cr.spec.cluster_name clust.server)
        or_else r (λ e. return_now (again_in 10))
    ]
    r ← perform (registration_patch (remove_finalizer cr))
    or_else r (λ e. return_now (failed e))
    pure done

  -- from the kubeconfig secret to the cluster in ArgoCD
  pub register : ClusterRegistration → Secret → Exec api Reply Reply
  unfolding update_state
  register cr secret = do
    let key = cr.spec.kubeconfig_secret_key_name
    kubeconfig ← elim (lookup key secret.content) [
      | none ↦ do
        r ← update_state cr "error" (sprint ("secret subkey " ∷ key ∷ " does not exist" ∷ [])) done
        return_now r
      | some d ↦ pure d
    ]
    conf_or ← perform (rest_config kubeconfig)
    conf ← or_else conf_or λ e. do
      let msg = sprint ("failed to read kubeconfig from secret: " ∷ text e ∷ [])
      r ← update_state cr "error" msg done
      return_now r
    client_or ← perform (new_clientset conf)
    client ← or_else client_or λ e. do
      let msg = sprint ("failed to get clientset from config: " ∷ text e ∷ [])
      r ← update_state cr "error" msg done
      return_now r
    token_or ← perform (install_manager_rbac client)
    token ← or_else token_or λ e. do
      let msg = sprint (
          "failed to install service account in destination cluster: '"
          ∷ text e
          ∷ "' ... retrying in 10 secs"
          ∷ [])
      r ← update_state cr "retrying" msg (again_in 10)
      return_now r
    let name = if cr.spec.cluster_name == "" then cr.meta.name else cr.spec.cluster_name
    created ←
        perform
          (argo_cluster_create (record { name = name; server = ""; annotations = none }) conf token)
    or_else created λ e. do
      let msg =
          sprint ("failed to add cluster to argocd: '" ∷ text e ∷ "' ... retrying in 10 secs" ∷ [])
      r ← update_state cr "retrying" msg (again_in 10)
      return_now r
    update_state cr "complete" "successfully added cluster to argocd" done

  -- behind the finalizer: the cluster is looked up, and registered where it is new
  pub reconcile_present : String → ClusterRegistration → Exec api Reply Reply
  unfolding update_state
  reconcile_present ns cr = do
    found ← perform (argo_cluster_get cr.spec.cluster_name)
    elim found [
      | ok clust ↦ do
        let msg = sprint ("cluster " ∷ cr.spec.cluster_name ∷ " already exists -- ok" ∷ [])
        r ← update_state cr "complete" msg done
        return_now r
      | err e ↦ pure tt
    ]
    secret_or ← perform (secret_get ns cr.spec.kubeconfig_secret_name)
    secret ← or_else secret_or λ e.
        if is_not_found e
        then (do
          let msg = sprint (
              "kubeconfig secret " ∷ cr.spec.kubeconfig_secret_name
              ∷ " does not exist yet, retrying in 10 seconds" ∷ [])
          r ← update_state cr "retrying" msg (again_in 10)
          return_now r)
        else do
          r ← update_state cr "error" (sprint ("failed to read secret: " ∷ text e ∷ [])) done
          return_now r
    register cr secret

  pub reconcile : String → String → Exec api Reply Reply
  reconcile ns name = do
    got ← perform (registration_get ns name)
    cr ← or_else got λ e. return_now (if is_not_found e then done else again)
    helper ← perform (registration_helper name)
    or_else helper λ e. return_now again
    if cr.meta.deleting
        then reconcile_delete cr
        else if cr.status.state == "complete" || cr.status.state == "error"
        then pure done
        else if cr.spec.kubeconfig_secret_name == "" || cr.spec.kubeconfig_secret_key_name == ""
        then update_state cr "error" "clusterregistration has an invalid spec" done
        else if not (contains finalizer cr.meta.finalizers)
        then (do
          r ← perform (registration_patch (add_finalizer cr))
          or_else r (λ e. return_now (failed e))
          pure done)
        else reconcile_present ns cr

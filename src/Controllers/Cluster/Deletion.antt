-- ===== src/Controllers/Cluster/Deletion.antt =====
-- pkg/controllers/cluster_controller.go: reconcileDelete. First the override goes, then the cluster app,
-- then the karlon app, one in each reconciliation, and at last the finalizer.
use karlon.Base.{Bool, false, String, none, some, [], ◌∷◌, remove_all, if◌then◌else◌}
use karlon.Base.Text.{sprint}
use karlon.Base.Result.{ok, err, text}
use karlon.Objects.{Application, Cluster}
use karlon.Services.{Api, application_get, application_delete, kube_client, cluster_patch}
use karlon.Services.Exec.{Exec, ◌>>=◌, ◌>>◌, pure, return_now, perform, or_else, attempt}
use karlon.Controllers.Reply.{Reply, done, failed}
use karlon.Controllers.Cluster.Status.{retry_delay, update_state, unless_not_found}
use karlon.Clusters.Overrides.{delete_overrides_dir}

abbrev pub finalizer : String
finalizer = "cluster.core.kkarlon.io"

-- controllerutil.RemoveFinalizer
unfoldable pub without_finalizer : Cluster → Cluster
unfolding remove_all
without_finalizer cl = record cl {
  meta = record cl.meta { finalizers = remove_all finalizer cl.meta.finalizers };
}

-- kkarlonAppName
abbrev pub kkarlon_app_name : String → String
kkarlon_app_name name = sprint (name ∷ "-kkarlon" ∷ [])

-- an override that is in git
abbrev pub has_override : Cluster → Bool
has_override cl = elim cl.spec.override [ none ↦ false | some ovr ↦ cl.status.override_successful ]

abbrev pub override_gone : Cluster → Cluster
override_gone cl = record cl { status = record cl.status { override_successful = false } }

module _ (argocd_ns : String) where
  module _ {api : Api} where
    unfoldable pub delete_override : Cluster → Application → Exec api Reply Reply
    unfolding update_state
    delete_override cl app = do
      client ← perform kube_client
      elim client [
        | ok _ ↦ pure tt
        | err e ↦ do
          r ←
              update_state cl "error-deleting-override"
                (sprint ("failed to get kubeclient: " ∷ text e ∷ [])) retry_delay
          return_now r
      ]
      deleted ← attempt (delete_overrides_dir app argocd_ns app.meta.name)
      elim deleted [
        | ok _ ↦ pure tt
        | err e ↦ do
          r ←
              update_state cl "error-deleting-override"
                (sprint ("failed to delete overrides directory: " ∷ text e ∷ [])) retry_delay
          return_now r
      ]
      update_state (override_gone cl) "override-deleted" "override deleted successfully" done

    -- an application that exists is deleted, unless its deletion is pending
    unfoldable pub delete_app : Cluster → Application → String → String → Exec api Reply Reply
    unfolding update_state
    delete_app cl app name what = if app.meta.deleting then pure retry_delay else do
      deleted ← perform (application_delete name)
      elim deleted [
        | ok _ ↦ pure tt
        | err e ↦ do
          r ←
              update_state cl (sprint ("error-deleting-" ∷ what ∷ "-app" ∷ []))
                (sprint ("failed to delete " ∷ what ∷ " app: " ∷ text e ∷ [])) retry_delay
          return_now r
      ]
      update_state cl (sprint ("deleting-" ∷ what ∷ "-app" ∷ []))
          (sprint ("deleting " ∷ what ∷ " app" ∷ [])) done

    unfoldable pub reconcile_delete : Cluster → Exec api Reply Reply
    unfolding unless_not_found without_finalizer
    reconcile_delete cl = do
      found ← perform (application_get cl.meta.name)
      elim found [
        | ok app ↦
            if has_override cl
            then (do r ← delete_override cl app; return_now r)
            else do r ← delete_app cl app cl.meta.name "cluster"; return_now r
        | err e ↦ unless_not_found cl "delete-retrying" e
      ]
      found' ← perform (application_get (kkarlon_app_name cl.meta.name))
      elim found' [
        | ok app ↦ do r ← delete_app cl app (kkarlon_app_name cl.meta.name) "kkarlon"; return_now r
        | err e ↦ unless_not_found cl "delete-retrying" e
      ]
      patched ← perform (cluster_patch (without_finalizer cl))
      or_else patched λ e. return_now (failed e)
      pure done

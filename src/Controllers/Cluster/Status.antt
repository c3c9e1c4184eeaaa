-- ===== src/Controllers/Cluster/Status.antt =====
-- pkg/controllers/cluster_controller.go: UpdateState, and the check that ArgoCD has no application.
use karlon.Base.{nat_eq, String, none, some, [], ◌∷◌, if◌then◌else◌}
use karlon.Base.Number.{pos, itoa}
use karlon.Base.Text.{sprint}
use karlon.Base.Result.{Error, grpc_code}
use karlon.Objects.{Cluster}
use karlon.Services.{Api, cluster_status_update}
use karlon.Services.Exec.{Exec, ◌>>=◌, ◌>>◌, pure, return_now, perform, or_else}
use karlon.Controllers.Reply.{Reply, again_in, failed}
use karlon.Clusters.Create.{not_found_code}

-- retryDelayAsResult
abbrev pub retry_delay : Reply
retry_delay = again_in 10

abbrev pub set_status : Cluster → String → String → Cluster
set_status cl state msg = record cl { status = record cl.status { state = state; message = msg } }

module _ {api : Api} where
  -- UpdateState
  unfoldable pub update_state : Cluster → String → String → Reply → Exec api Reply Reply
  update_state cl state msg result = do
    r ← perform (cluster_status_update (set_status cl state msg))
    or_else r (λ e. return_now (failed e))
    pure result

  -- an error of a look-up other than "not found" ends the reconciliation in the given state
  unfoldable pub unless_not_found : Cluster → String → Error → Exec api Reply (Unit {0})
  unfolding update_state
  unless_not_found cl state e = elim (grpc_code e) [
    | none ↦ do
      r ← update_state cl state "failed to get grpc status from argocd API" retry_delay
      return_now r
    | some code ↦ if nat_eq code not_found_code then pure tt else do
      r ←
          update_state cl state (sprint ("unexpected grpc status: " ∷ itoa (pos code) ∷ []))
            retry_delay
      return_now r
  ]

-- ===== src/Controllers/Apps.antt =====
-- pkg/controllers/application_controller.go, applicationset_controller.go and profile_controller.go:
-- which changes make the app profiles be reconciled.
use karlon.Base.{◌!=◌, String, Option, if◌then◌else◌}
use karlon.Base.Dict.{get}
use karlon.Base.Result.{is_not_found}
use karlon.Services.{Api, app_set_get, application_object_get}
use karlon.Services.Exec.{Exec, ◌>>=◌, pure, return_now, perform, or_else}
use karlon.AppProfile.{reconcile_everything}
use karlon.AppProfile.Apps.{Fields}
use karlon.Controllers.Reply.{Reply, done, again}

module _ (decode : String → Option Fields) where
  module _ {api : Api} where
    -- reconcileApplication: only the app of a gen2 cluster counts
    unfoldable pub reconcile_application : String → String → Exec api Reply Reply
    reconcile_application ns name = do
      got ← perform (application_object_get ns name)
      app ← or_else got λ e. return_now (if is_not_found e then done else again)
      if get "kkarlon-type" app.meta.labels != "cluster-app"
          then pure done
          else reconcile_everything decode

    -- reconcileApplicationSet: an app that is gone counts too
    unfoldable pub reconcile_application_set : String → String → Exec api Reply Reply
    reconcile_application_set ns name = do
      got ← perform (app_set_get ns name)
      app ← or_else got λ e.
          if is_not_found e
          then (do r ← reconcile_everything decode; return_now r)
          else return_now again
      if get "kkarlon-type" app.labels != "application"
          then pure done
          else reconcile_everything decode

module _ {api : Api} where
  -- ProfileReconciler.Reconcile does nothing
  abbrev pub reconcile_gen1_profile : String → String → Exec api Reply Reply
  reconcile_gen1_profile ns name = pure done

-- ===== src/Controllers/Cluster/Settling.antt =====
-- A Cluster whose applications are there, over two reconciliations.
use karlon.Base.{
  ◌≡◌, refl, sym, ◌∙◌, subst, arith, true, ◌==◌, String, Option, none, ◌∷◌, if◌then◌else◌, eq_iff,
  eq_refl,
}
use karlon.Base.Dict.{Dict, get, or_empty}
use karlon.Base.Result.{ok}
use karlon.Objects.{Application, Cluster}
use karlon.Services.{Call, Answer, Api, State, Libraries, application_get, application_update}
use karlon.Services.Exec.{Flow, go}
use karlon.AppProfile.Clusters.{profiles_key}
use karlon.Controllers.Reply.{Reply, done}
use karlon.Controllers.Cluster.Deletion.{kkarlon_app_name}
use karlon.Controllers.Cluster.Progress.{is_prepared, after_sync, synced_lem}
use karlon.Controllers.Cluster.{
  synced, ensure_kkarlon_app, sync_app, ensure_apps, reconcile_present,
}

-- an ArgoCD that holds the cluster app, the world, and another application under every other name
abbrev pub answer_of :
    ((c : Call) → Answer c)
    → Application
    → String
    → (c : Call) → Application
    → Answer c × Application
answer_of others root name (application_get n) app = (ok (if n == name then app else root), app)
answer_of others root name (application_update new) app = (ok new, new)
answer_of others root name c app = (others c, app)

abbrev pub keeping : ((c : Call) → Answer c) → Application → String → Api
keeping others root name = record { World = Application; answer = answer_of others root name }

-- an application with other annotations
abbrev pub with_notes : Application → Option (Dict String) → Application
with_notes app notes = record app { meta = record app.meta { annotations = notes } }

module _ (lib : Libraries) (conf argocd_ns : String) (others : (c : Call) → Answer c)
    (root : Application) (cl : Cluster) where
  -- a reconciliation behind the finalizer, and the state after the two look-ups of one
  abbrev pub run :
      State (keeping others root cl.meta.name)
      → Flow Reply Reply × State (keeping others root cl.meta.name)
  run = reconcile_present lib conf argocd_ns {api = keeping others root cl.meta.name} cl

  abbrev pub looked :
      State (keeping others root cl.meta.name) → State (keeping others root cl.meta.name)
  looked s = record s {
    calls =
        application_get cl.meta.name ∷ application_get (kkarlon_app_name cl.meta.name) ∷ s.calls;
  }

  abbrev sync :
      Application
      → State (keeping others root cl.meta.name)
      → Flow Reply Reply × State (keeping others root cl.meta.name)
  sync = sync_app lib conf argocd_ns {api = keeping others root cl.meta.name} cl

  run_lem :
      (s : State (keeping others root cl.meta.name))
      → is_prepared cl ≡ true
      → run s ≡ sync s.world (looked s)
  unfolding reconcile_present ensure_apps ensure_kkarlon_app
  run_lem s ready = ground (arith, eq_refl cl.meta.name)

  sync_world :
      (s : State (keeping others root cl.meta.name)) (app : Application)
      → s.world ≡ app
      → cl.status.state ≡ "created"
      → (sync app s).1.world ≡ with_notes app (after_sync cl.meta.annotations app.meta.annotations)
  unfolding sync_app
  sync_world s app here created = ground (arith, eq_iff cl.status.state "created")

  sync_settled :
      (s : State (keeping others root cl.meta.name)) (app : Application)
      → synced cl.meta.annotations app.meta.annotations ≡ none
      → cl.status.state ≡ "created"
      → sync app s ≡ (go done, s)
  unfolding sync_app
  sync_settled s app same created = ground (arith, eq_iff cl.status.state "created")

  -- Where ArgoCD has both applications of a prepared Cluster in state created and stores what
  -- it is sent, one reconciliation leaves the cluster app with the Cluster's annotation of
  -- profiles and all but the annotations as it was, whatever annotations it had, and the next
  -- one is quiet: it ends well, and the two look-ups are its only calls.
  pub settles :
      (s : State (keeping others root cl.meta.name))
      → is_prepared cl ≡ true
      → cl.status.state ≡ "created"
      → (get profiles_key (or_empty (run s).1.world.meta.annotations)
          ≡ get profiles_key (or_empty cl.meta.annotations))
        × ((run s).1.world ≡ with_notes s.world (run s).1.world.meta.annotations)
        × (run (run s).1 ≡ (go done, looked (run s).1))
  settles s ready created =
      let world : (run s).1.world
          ≡ with_notes s.world (after_sync cl.meta.annotations s.world.meta.annotations) =
        rw (run_lem s ready) (sync_world (looked s) s.world refl created) in
      let (agrees, quiet) = synced_lem cl.meta.annotations s.world.meta.annotations in
      (
        subst
            (λ (app : Application).
              get profiles_key (or_empty app.meta.annotations)
              ≡ get profiles_key (or_empty cl.meta.annotations))
            (sym world) agrees,
        subst (λ (app : Application). app ≡ with_notes s.world app.meta.annotations) (sym world)
            refl,
        run_lem (run s).1 ready
            ∙ sync_settled (looked (run s).1) (run s).1.world
                (subst
                  (λ (app : Application). synced cl.meta.annotations app.meta.annotations ≡ none)
                  (sym world) quiet)
                created,
      )

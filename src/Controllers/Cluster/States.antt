-- ===== src/Controllers/Cluster/States.antt =====
-- When a reconciliation of a Cluster writes the state created.
use karlon.Base.{◌≡◌, arith, true, false, ◌==◌, String, List, All, eq_refl}
use karlon.Base.Result.{ok, is_ok}
use karlon.Base.Text.{sprint}
use karlon.Objects.{Application, Cluster, OverrideSpec}
use karlon.Services.{
  Call, Api, State, Libraries, cluster_status_update, cluster_get, application_get,
  application_create,
}
use karlon.Services.Exec.{ask}
use karlon.Controllers.Cluster.Deletion.{delete_override, delete_app, reconcile_delete}
use karlon.Controllers.Cluster.{
  validate_template, create_override, ensure_kkarlon_app, create_app, ensure_apps,
  reconcile_present, reconcile,
}
use karlon.Git.Commits.{is_side, others, All-others, others-All, get_client_and_creds-others}
use karlon.BaseCluster.Validity.{validate_git_dir-others}
use karlon.Clusters.Directory.{create_patch_dir-others, delete_overrides_dir-others}
use karlon.Clusters.Create.{create_gen2, create, require_new, find_spec}
use karlon.Clusters.ClusterApp.{construct_cluster_app, create_cluster_app}

-- the call does not write the state created
abbrev pub ClaimsNone : Call → Type 0
ClaimsNone (cluster_status_update cl) = (cl.status.state == "created") ≡ false
ClaimsNone _ = Unit

side-ClaimsNone : (c : Call) → is_side c ≡ true → ClaimsNone c
side-ClaimsNone (cluster_status_update cl) h = ground arith
side-ClaimsNone _ h = tt

-- no call writes it
abbrev Unclaimed : List Call → Type 0
Unclaimed calls = All ClaimsNone (others calls)

module _ (lib : Libraries) (conf ns : String) {api : Api} where
  validate_template-Unclaimed :
      (cl : Cluster) (s : State api)
      → Unclaimed s.calls
      → Unclaimed (validate_template lib conf ns cl s).1.calls
  unfolding validate_template others
  validate_template-Unclaimed cl s h =
      grind (arith, get_client_and_creds-others, validate_git_dir-others)

  create_override-Unclaimed :
      (cl : Cluster) (ovr : OverrideSpec) (s : State api)
      → Unclaimed s.calls
      → Unclaimed (create_override lib conf ns cl ovr s).1.calls
  unfolding create_override others
  create_override-Unclaimed cl ovr s h = grind (arith, create_patch_dir-others)

  ensure_kkarlon_app-Unclaimed :
      (cl : Cluster) (s : State api)
      → Unclaimed s.calls
      → Unclaimed (ensure_kkarlon_app lib conf ns cl s).1.calls
  unfolding ensure_kkarlon_app create_gen2 create require_new find_spec others
  ensure_kkarlon_app-Unclaimed cl s h = ground arith

module _ (lib : Libraries) (conf ns : String) {api : Api} (cl : Cluster)
    (unseen : (w : api.World) → is_ok (ask api (application_get cl.meta.name) w) ≡ false)
    (refused : (app : Application) (w : api.World)
      → (app.meta.name == cl.meta.name) ≡ true
      → is_ok (ask api (application_create app) w) ≡ false) where
  create_app-Unclaimed :
      (s : State api) → Unclaimed s.calls → Unclaimed (create_app lib conf ns cl s).1.calls
  unfolding create_app create_cluster_app construct_cluster_app others
  create_app-Unclaimed s h = grind (arith, refused, eq_refl cl.meta.name)

  ensure_apps-Unclaimed :
      (s : State api) → Unclaimed s.calls → Unclaimed (ensure_apps lib conf ns cl s).1.calls
  unfolding ensure_apps others
  ensure_apps-Unclaimed s h =
      grind (arith, unseen, ensure_kkarlon_app-Unclaimed lib conf ns cl, create_app-Unclaimed)

  reconcile_present-Unclaimed :
      (s : State api) → Unclaimed s.calls → Unclaimed (reconcile_present lib conf ns cl s).1.calls
  unfolding reconcile_present
  reconcile_present-Unclaimed s h = grind (
    arith,
    validate_template-Unclaimed lib conf ns cl,
    ensure_apps-Unclaimed,
    create_override-Unclaimed lib conf ns cl,
  )

module _ (ns : String) {api : Api} where
  delete_override-Unclaimed :
      (cl : Cluster) (app : Application) (s : State api)
      → Unclaimed s.calls
      → Unclaimed (delete_override ns cl app s).1.calls
  unfolding delete_override others
  delete_override-Unclaimed cl app s h = grind (arith, delete_overrides_dir-others)

  delete_cluster_app-Unclaimed :
      (cl : Cluster) (app : Application) (name : String) (s : State api)
      → Unclaimed s.calls
      → Unclaimed (delete_app ns cl app name "cluster" s).1.calls
  unfolding delete_app others sprint
  delete_cluster_app-Unclaimed cl app name s h = ground arith

  delete_kkarlon_app-Unclaimed :
      (cl : Cluster) (app : Application) (name : String) (s : State api)
      → Unclaimed s.calls
      → Unclaimed (delete_app ns cl app name "kkarlon" s).1.calls
  unfolding delete_app others sprint
  delete_kkarlon_app-Unclaimed cl app name s h = ground arith

  reconcile_delete-Unclaimed :
      (cl : Cluster) (s : State api)
      → Unclaimed s.calls
      → Unclaimed (reconcile_delete ns cl s).1.calls
  unfolding reconcile_delete others
  reconcile_delete-Unclaimed cl s h =
      grind (
        arith, delete_override-Unclaimed, delete_cluster_app-Unclaimed,
        delete_kkarlon_app-Unclaimed,
      )

module _ (lib : Libraries) (conf argocd_ns : String) {api : Api} (cl : Cluster)
    (unseen : (w : api.World) → is_ok (ask api (application_get cl.meta.name) w) ≡ false)
    (refused : (app : Application) (w : api.World)
      → (app.meta.name == cl.meta.name) ≡ true
      → is_ok (ask api (application_create app) w) ≡ false) where
  reconcile-Unclaimed :
      (ns name : String) (s : State api)
      → ask api (cluster_get ns name) s.world ≡ ok cl
      → Unclaimed s.calls
      → Unclaimed (reconcile lib conf argocd_ns ns name s).1.calls
  unfolding reconcile others
  reconcile-Unclaimed ns name s got h = grind (
    arith,
    reconcile_present-Unclaimed lib conf argocd_ns {api = api} cl unseen refused,
    reconcile_delete-Unclaimed argocd_ns {api = api} cl,
  )

  -- A reconciliation of a Cluster writes the state created only if ArgoCD has its cluster app:
  -- where ArgoCD shows no application of the Cluster's name and refuses every creation of one,
  -- no status is written with that state, whatever the other services answer and whatever the
  -- state of the Cluster is, if none was written before.
  pub created_is_earned :
      (ns name : String) (s : State api)
      → ask api (cluster_get ns name) s.world ≡ ok cl
      → All ClaimsNone s.calls
      → All ClaimsNone (reconcile lib conf argocd_ns ns name s).1.calls
  created_is_earned ns name s got h =
      All-others ClaimsNone side-ClaimsNone _
        (reconcile-Unclaimed ns name s got (others-All ClaimsNone s.calls h))

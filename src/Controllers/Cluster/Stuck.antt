-- ===== src/Controllers/Cluster/Stuck.antt =====
-- Where the controller tries for ever: an application or a directory that is lost.
use karlon.Base.{
  ◌≡◌, ◌≢◌, refl, sym, ap, subst, ◌∙◌, arith, inl, inr, true, ◌==◌, String, Option, none, some,
  List, ◌∷◌, All, find_first,
}
use karlon.Base.Dict.{Dict, get, lookup, or_empty}
use karlon.Git.{get_repo_creds}
use karlon.BaseCluster.Validity.{Result-cases}
use karlon.Clusters.{base_cluster_repo_url_annotation}
use karlon.Base.Result.{Error, ok, err}
use karlon.Objects.{Application, Cluster, Secret}
use karlon.Services.{Call, Api, State, Libraries, kube_client, application_get, application_delete}
use karlon.Services.Exec.{ask, next, outcome, to_result}
use karlon.Git.Commits.{is_side, others, All-others, others-All}
use karlon.Clusters.Create.{create_gen2, create, require_new, find_spec}
use karlon.Clusters.Directory.{delete_overrides_dir-others}
use karlon.Controllers.Reply.{done}
use karlon.Controllers.Cluster.Deletion.{kkarlon_app_name, delete_override, reconcile_delete}
use karlon.Controllers.Cluster.{synced, ensure_kkarlon_app, ensure_apps}
use karlon.Services.{RepoCreds, secret_list}
use karlon.Clusters.Overrides.{delete_overrides_dir}
use karlon.Controllers.Cluster.Deletion.{has_override}
use karlon.Controllers.Cluster.Progress.{CreatesNone, after_sync}

module _ (lib : Libraries) (conf argocd_ns : String) {api : Api} where
  -- If ArgoCD has the cluster app but no karlon app, the reconciliation never creates the
  -- karlon app, if no call before created an application, and does not end well: Create refuses
  -- because the cluster app exists.
  pub lost_app_stays_lost :
      (cl : Cluster) (app : Application) (e : Error) (s : State api)
      → ask api (application_get (kkarlon_app_name cl.meta.name)) s.world ≡ err e
      → ((w : api.World) → ask api (application_get cl.meta.name) w ≡ ok app)
      → All CreatesNone s.calls
      → All CreatesNone (ensure_apps lib conf argocd_ns cl s).1.calls
        × (outcome (ensure_apps lib conf argocd_ns cl s).0 ≢ done)
  unfolding ensure_apps ensure_kkarlon_app create_gen2 create require_new find_spec
  lost_app_stays_lost cl app e s lost has_app h =
      let known = has_app (
        next api kube_client
          (next api (application_get (kkarlon_app_name cl.meta.name)) s.world)) in
      (ground arith, λ ended. ground arith)

-- no application is deleted
abbrev pub DeletesNone : Call → Type 0
DeletesNone (application_delete name) = ⊥
DeletesNone _ = Unit

side-DeletesNone : (c : Call) → is_side c ≡ true → DeletesNone c
side-DeletesNone (application_delete name) h = ground arith
side-DeletesNone _ h = tt

abbrev repository_label : String
repository_label = "argocd.argoproj.io/secret-type=repository"

-- no repository is registered under the empty URL
abbrev pub NoneUnnamed : String → Api → Type 0
NoneUnnamed argocd_ns api =
    (w : api.World) (secrets : List Secret)
    → ask api (secret_list argocd_ns repository_label) w ≡ ok secrets
    → find_first (λ (secret : Secret). "" == get "url" secret.content) secrets ≡ none

after_sync-none : (notes : Option (Dict String)) → after_sync none notes ≡ none
unfolding synced
after_sync-none none = refl
after_sync-none (some notes) = refl

module _ (argocd_ns : String) {api : Api} where
  unregistered-fails :
      (s : State api)
      → NoneUnnamed argocd_ns api
      → (creds : RepoCreds) → to_result (get_repo_creds argocd_ns "" s).0 ≢ ok creds
  unfolding get_repo_creds
  unregistered-fails s registered creds done =
      elim (Result-cases (ask api (secret_list argocd_ns repository_label) s.world)) [
        | inl (e, failed) ↦ ground arith
        | inr (secrets, listed) ↦ let missing = registered s.world secrets listed in ground arith
      ]

  -- without an annotation for it, the repository of the override is looked up under the empty name
  lost_notes-fail :
      (app : Application) (name : String) (s : State api)
      → app.meta.annotations ≡ none
      → NoneUnnamed argocd_ns api
      → (u : Unit {0}) → to_result (delete_overrides_dir app argocd_ns name s).0 ≢ ok u
  unfolding delete_overrides_dir
  lost_notes-fail app name s bare registered u done =
      let url = get base_cluster_repo_url_annotation (or_empty app.meta.annotations) in
      let unnamed : "" ≡ url = sym (
        ap (λ notes. get base_cluster_repo_url_annotation (or_empty notes)) bare
        ∙ (unfold get lookup in refl)) in
      let fails =
        subst
          (λ name. (creds : RepoCreds) → to_result (get_repo_creds argocd_ns name s).0 ≢ ok creds)
          unnamed (unregistered-fails s registered) in
      grind arith

  -- a failure of the override's deletion ends the reconciliation
  failed-DeletesNone :
      (cl : Cluster) (app : Application) (s : State api)
      → ((t : State api) (u : Unit {0})
          → to_result (delete_overrides_dir app argocd_ns app.meta.name t).0 ≢ ok u)
      → All DeletesNone (others s.calls)
      → All DeletesNone (others (delete_override argocd_ns cl app s).1.calls)
        × (outcome (delete_override argocd_ns cl app s).0 ≢ done)
  unfolding delete_override others
  failed-DeletesNone cl app s fails h = (
    grind (arith, delete_overrides_dir-others),
    λ ended. grind (arith, λ (t : State api). fails t tt),
  )

  failure_blocks :
      (cl : Cluster) (app : Application) (s : State api)
      → ask api (application_get cl.meta.name) s.world ≡ ok app
      → has_override cl ≡ true
      → ((t : State api) (u : Unit {0})
          → to_result (delete_overrides_dir app argocd_ns app.meta.name t).0 ≢ ok u)
      → All DeletesNone s.calls
      → All DeletesNone (reconcile_delete argocd_ns cl s).1.calls
        × (outcome (reconcile_delete argocd_ns cl s).0 ≢ done)
  unfolding reconcile_delete others
  failure_blocks cl app s known over fails h =
      let t : State api = record {
        world = next api (application_get cl.meta.name) s.world;
        calls = application_get cl.meta.name ∷ s.calls;
      } in
      let (kept, unfinished) =
        failed-DeletesNone cl app t fails (others-All DeletesNone t.calls (tt, h)) in
      (All-others DeletesNone side-DeletesNone _ (ground arith), λ ended. ground arith)

  -- If the cluster app of a Cluster with an override has the annotations that a synchronisation
  -- with a Cluster without annotations leaves, and no repository is registered under the empty
  -- URL, the deletion of the Cluster deletes no application, if no call before did, and does
  -- not end well.
  pub wiped_notes_block :
      (cl : Cluster) (app : Application) (notes : Option (Dict String)) (s : State api)
      → ask api (application_get cl.meta.name) s.world ≡ ok app
      → has_override cl ≡ true
      → app.meta.annotations ≡ after_sync none notes
      → NoneUnnamed argocd_ns api
      → All DeletesNone s.calls
      → All DeletesNone (reconcile_delete argocd_ns cl s).1.calls
        × (outcome (reconcile_delete argocd_ns cl s).0 ≢ done)
  wiped_notes_block cl app notes s known over synced_app registered h =
      failure_blocks cl app s known over
        (λ t u.
          lost_notes-fail app app.meta.name t (synced_app ∙ after_sync-none notes) registered u)
        h

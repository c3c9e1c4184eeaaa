-- ===== src/Controllers/Cluster.antt =====
-- pkg/controllers/cluster_controller.go: Reconcile. One reconciliation adds the finalizer, or validates
-- the template, or creates the override, or brings the applications up to date.
pub mod Status
pub mod Deletion
mod States
mod Progress
mod Settling
mod Stuck
mod Termination
mod Tests
use karlon.Base.{
  Bool, true, false, not, ◌||◌, ◌==◌, ◌!=◌, String, Option, none, some, List, [], ◌∷◌, ◌++◌,
  contains, if◌then◌else◌,
}
use karlon.Base.Dict.{Dict, get, insert, or_empty}
use karlon.Base.Text.{sprint}
use karlon.Base.Result.{Error, Result, ok, err, is_not_found, text}
use karlon.Objects.{
  Application, AutoscalerSpec, Cluster, ClusterSpec, ClusterStatus, Meta, OverrideSpec, RepoSpec,
}
use karlon.Services.{
  Call, Api, State, Libraries, cluster_get, cluster_helper, cluster_patch, application_client,
  application_get, application_update,
}
use karlon.Services.Exec.{Exec, ◌>>=◌, ◌>>◌, pure, return_now, perform, or_else, attempt}
use karlon.Git.{get_client_and_creds}
use karlon.BaseCluster.{validate_git_dir}
use karlon.Clusters.ClusterApp.{ClusterAppRequest, create_cluster_app}
use karlon.Clusters.Create.{create_gen2}
use karlon.Clusters.Overrides.{create_patch_dir}
use karlon.AppProfile.Clusters.{profiles_key}
use karlon.Controllers.Reply.{Reply, done, again, again_in, failed}
use karlon.Controllers.Cluster.Status.{retry_delay, set_status, update_state, unless_not_found}
use karlon.Controllers.Cluster.Deletion.{finalizer, kkarlon_app_name, reconcile_delete}

-- defaultArlonChart
abbrev pub default_chart : RepoSpec
default_chart = record {
  url = "https://github.com/kkarlonproj/kkarlon.git";
  path = "pkg/cluster/manifests";
  revision = "v0.10.0";
}

abbrev pub add_finalizer : Cluster → Cluster
add_finalizer cl = record cl {
  meta = record cl.meta { finalizers = cl.meta.finalizers ++ finalizer ∷ [] };
}

abbrev pub with_inner_name : Cluster → String → Cluster
with_inner_name cl name = record cl { status = record cl.status { inner_cluster_name = name } }

abbrev pub with_override : Cluster → Cluster
with_override cl = record cl { status = record cl.status { override_successful = true } }

-- where the cluster app's manifests are: in the override, if there is one
abbrev pub source_of : Cluster → RepoSpec
source_of cl = elim cl.spec.override [ none ↦ cl.spec.cluster_template | some ovr ↦ ovr.repo ]

abbrev pub is_overridden : Cluster → Bool
is_overridden cl = elim cl.spec.override [ none ↦ false | some ovr ↦ true ]

abbrev pub chart_of : Cluster → RepoSpec
chart_of cl = elim cl.spec.kkarlon_helm_chart [ none ↦ default_chart | some chart ↦ chart ]

abbrev pub mgmt_host_of : Option AutoscalerSpec → String
mgmt_host_of none = ""
mgmt_host_of (some cas) = cas.mgmt_cluster_host

abbrev pub has_cas : Option AutoscalerSpec → Bool
has_cas none = false
has_cas (some cas) = true

-- the application with the cluster's annotation of profiles; `none` where it has it already
unfoldable pub synced : Option (Dict String) → Option (Dict String) → Option (Option (Dict String))
synced none none = none
synced none (some notes) = some none
synced (some own) none = some (some ((profiles_key, get profiles_key own) ∷ []))
synced (some own) (some notes) =
    if get profiles_key own != get profiles_key notes
    then some (some (insert profiles_key (get profiles_key own) notes))
    else none

module _ (lib : Libraries) (configurations_yaml argocd_ns : String) where
  module _ {api : Api} where
    unfoldable pub validate_template : Cluster → Exec api Reply Reply
    unfolding update_state
    validate_template cl = do
      let template = cl.spec.cluster_template
      creds_or ← attempt (get_client_and_creds argocd_ns template.url)
      creds ← or_else creds_or λ e. do
        r ←
            update_state cl "retrying" (sprint ("failed to get repo creds: " ∷ text e ∷ []))
              retry_delay
        return_now r
      name_or ← attempt (validate_git_dir creds template.url template.revision template.path)
      name ← or_else name_or λ e. do
        r ←
            update_state cl "retrying"
              (sprint ("failed to validate cluster template: " ∷ text e ∷ [])) retry_delay
        return_now r
      update_state (with_inner_name cl name) "template-validated"
          "cluster template validation successful" done

    unfoldable pub create_override : Cluster → OverrideSpec → Exec api Reply Reply
    unfolding update_state
    create_override cl ovr = do
      let template = cl.spec.cluster_template
      created ← attempt (
          create_patch_dir lib configurations_yaml cl.meta.name ovr.repo.url argocd_ns ovr.repo.path
            ovr.repo.revision template.revision ovr.patch template.url template.path)
      or_else created λ e. do
        r ←
            update_state cl "retrying"
              (sprint ("failed to create override patch in git: " ∷ text e ∷ [])) retry_delay
        return_now r
      update_state (with_override cl) "override-created" "override patch creation successful" done

    -- the karlon app is created, where ArgoCD does not know it
    unfoldable pub ensure_kkarlon_app : Cluster → Exec api Reply (Unit {0})
    unfolding update_state unless_not_found
    ensure_kkarlon_app cl = do
      found ← perform (application_get (kkarlon_app_name cl.meta.name))
      elim found [
        | ok app ↦ pure tt
        | err e ↦ do
          unless_not_found cl "retrying" e
          created ← attempt (
              create_gen2 lib argocd_ns cl.meta.name cl.status.inner_cluster_name (chart_of cl).url
                (chart_of cl).revision (chart_of cl).path (mgmt_host_of cl.spec.autoscaler)
                (has_cas cl.spec.autoscaler))
          elim created [
            | ok app ↦ pure tt
            | err e' ↦ do
              r ←
                  update_state cl "retrying"
                    (sprint ("failed to create kkarlon application: " ∷ text e' ∷ [])) retry_delay
              return_now r
          ]
      ]

    unfoldable pub create_app : Cluster → Exec api Reply Reply
    unfolding update_state
    create_app cl = do
      created ← attempt (
          create_cluster_app lib
            (record {
              argocd_ns = argocd_ns;
              cluster_name = cl.meta.name;
              base_cluster_name = cl.status.inner_cluster_name;
              repo_url = (source_of cl).url;
              repo_revision = (source_of cl).revision;
              repo_path = (source_of cl).path;
              overridden = is_overridden cl;
            })
            true)
      app ← or_else created λ e. do
        r ←
            update_state cl "retrying"
              (sprint ("failed to create cluster application: " ∷ text e ∷ [])) retry_delay
        return_now r
      update_state cl "created" "cluster app creation successful" done

    -- the annotation of profiles goes from the cluster to its app
    unfoldable pub sync_app : Cluster → Application → Exec api Reply Reply
    unfolding update_state synced
    sync_app cl app = do
      elim (synced cl.meta.annotations app.meta.annotations) [
        | none ↦ pure tt
        | some notes ↦ do
          updated ←
              perform
                (application_update (record app { meta = record app.meta { annotations = notes } }))
          elim updated [
            | ok app' ↦ pure tt
            | err e ↦ do
              r ←
                  update_state cl "retrying"
                    (sprint ("failed to update cluster application: " ∷ text e ∷ [])) retry_delay
              return_now r
          ]
      ]
      if cl.status.state != "created"
          then update_state cl "created" "cluster app already exists but state needs updating -- ok"
              done
          else pure done

    unfoldable pub ensure_apps : Cluster → Exec api Reply Reply
    unfolding unless_not_found
    ensure_apps cl = do
      ensure_kkarlon_app cl
      found ← perform (application_get cl.meta.name)
      elim found [
        | ok app ↦ sync_app cl app
        | err e ↦ do unless_not_found cl "retrying" e; create_app cl
      ]

    -- behind the finalizer
    unfoldable pub reconcile_present : Cluster → Exec api Reply Reply
    reconcile_present cl =
        if cl.status.inner_cluster_name == "" then validate_template cl else elim cl.spec.override [
          | none ↦ ensure_apps cl
          | some ovr ↦
              if cl.status.override_successful then ensure_apps cl else create_override cl ovr
        ]

    unfoldable pub reconcile : String → String → Exec api Reply Reply
    unfolding update_state
    reconcile ns name = do
      got ← perform (cluster_get ns name)
      cl ← or_else got λ e. return_now (if is_not_found e then done else again)
      helper ← perform (cluster_helper name)
      or_else helper λ e. return_now again
      opened ← perform application_client
      or_else opened λ e. do
        r ←
            update_state cl "retrying"
              (sprint ("failed to get argocd application client: " ∷ text e ∷ [])) retry_delay
        return_now r
      if cl.meta.deleting
          then reconcile_delete argocd_ns cl
          else if not (contains finalizer cl.meta.finalizers)
          then (do
            r ← perform (cluster_patch (add_finalizer cl))
            or_else r (λ e. return_now (failed e))
            pure done)
          else reconcile_present cl

-- ===== src/Clusters/External.antt =====
-- pkg/cluster/external.go and delete.go: external clusters, and the deletion of a cluster. The
-- closing of connections is left out.
use karlon.Base.{
  Bool, true, false, not, ◌==◌, ◌!=◌, String, Option, none, some, List, [], ◌∷◌, find_first,
  if◌then◌else◌,
}
use karlon.Base.Dict.{Dict, get, insert, erase, or_empty}
use karlon.Base.Result.{Error, Result, ok, err, message, because}
use karlon.Base.Text.{sprint}
use karlon.Objects.{Application, Profile, Secret}
use karlon.Services.{
  Api, Libraries, kube_client, runtime_client, application_client, cluster_client, argo_cluster_get,
  secret_list, secret_get, secret_patch, application_create, application_delete, application_list,
}
use karlon.Services.Exec.{Exec, ◌>>=◌, ◌>>◌, pure, return_now, perform, or_else, must, attempt}
use karlon.Clusters.{base_cluster_overridden}
use karlon.Clusters.Overrides.{delete_overrides_dir}
use karlon.Clusters.ProfileApps.{construct_profile_app, profile_app_name, nil_map}
use karlon.Clusters.Queries.{
  KarlonCluster, list_clusters, get_cluster, argo_cluster_secrets, cluster_type_label_key,
  profile_annotation_key, profile_app_annotation_key,
}

-- the loop over the existing clusters
unfoldable pub knows_cluster : String → List KarlonCluster → Bool
knows_cluster name [] = false
knows_cluster name (c ∷ cs) =
    let rest = knows_cluster name cs in if c.name == name then true else rest

-- the secret of an external cluster; a write to annotations that are nil panics, an error here. The
-- labels are not nil, since the secret was listed by one.
unfoldable pub managed_secret : Profile → String → Secret → Result Secret
managed_secret prof app_name secr = elim secr.meta.annotations [
  | none ↦ err nil_map
  | some notes ↦ ok (record secr {
    meta = record secr.meta {
      labels = insert cluster_type_label_key "external" secr.meta.labels;
      annotations = some (
          insert profile_app_annotation_key app_name
            (insert profile_annotation_key prof.name notes));
    };
  })
]

abbrev pub without_notes : Option (Dict String) → Option (Dict String)
without_notes none = none
without_notes (some notes) =
    some (erase profile_app_annotation_key (erase profile_annotation_key notes))

unfoldable pub unmanaged_secret : Secret → Secret
unmanaged_secret secr = record secr {
  meta = record secr.meta {
    labels = erase cluster_type_label_key secr.meta.labels;
    annotations = without_notes secr.meta.annotations;
  };
}

module _ (lib : Libraries) where
  module _ {api : Api} where
    -- the secret of a cluster in ArgoCD that karlon does not manage
    unfoldable pub find_unmanaged : String → String → Exec api Error Secret
    find_unmanaged argocd_ns cluster_name = do
      conn ← perform application_client
      must "failed to get argocd application client" conn
      listed ← attempt (list_clusters argocd_ns)
      clusters ← must "failed to list existing clusters" listed
      if knows_cluster cluster_name clusters
          then return_now (message "cluster is already created or managed by kkarlon")
          else pure tt
      conn' ← perform cluster_client
      must "failed to get argocd cluster client" conn'
      registered ← perform (argo_cluster_get cluster_name)
      stored ← or_else registered λ e. return_now (message "cluster is not registered in argocd")
      client ← perform kube_client
      must "failed to get kube client" client
      secrets ← perform (secret_list argocd_ns argo_cluster_secrets)
      secrs ← must "failed to list argo cluster secrets" secrets
      secr ← elim (find_first (λ (secr : Secret). get "name" secr.content == cluster_name) secrs) [
        | none ↦ return_now (message "failed to find matching cluster secret")
        | some secr ↦ pure secr
      ]
      if get cluster_type_label_key secr.meta.labels != ""
          then return_now (message "unexpectedly found kkarlon label in secret")
          else pure secr

    -- ManageExternal: the profile app is deleted where the patch of the secret fails
    unfoldable pub manage_external : String → String → Profile → Exec api Error (Unit {0})
    manage_external argocd_ns cluster_name prof = do
      if prof.spec.repo_url == ""
          then return_now (message "the profile is static, only dynamic is supported")
          else pure tt
      secr ← find_unmanaged argocd_ns cluster_name
      cli ← perform runtime_client
      must "failed to get controller runtime client" cli
      let app_name = profile_app_name cluster_name prof
      created ←
          perform
            (application_create (construct_profile_app lib app_name argocd_ns cluster_name prof))
      stored ← must "failed to get create profile app" created
      new_secr ← or_else (managed_secret prof app_name secr) return_now
      patched ← perform (secret_patch new_secr)
      elim patched [
        | ok _ ↦ pure tt
        | err e ↦ (do
          deleted ← perform (application_delete app_name)
          return_now (elim deleted [
            | ok _ ↦ message "failed to patch secret: %!s(<nil>)"
            | err e' ↦ because "failed to patch secret" e'
          ]))
      ]

module _ {api : Api} where
  -- what UnmanageExternal asks of the secret of an external cluster
  unfoldable pub check_managed : String → Secret → Exec api Error (Unit {0})
  check_managed cluster_name secr = do
    if get "name" secr.content != cluster_name
        then return_now (message "secret data does not match cluster name")
        else pure tt
    if get cluster_type_label_key secr.meta.labels != "external"
        then return_now (message "secret does not have kkarlon cluster label")
        else pure tt

  -- the end of UnmanageExternal: the profile app goes first, then the marks on the secret
  unfoldable pub detach : Secret → Exec api Error (Unit {0})
  detach secr = do
    cli ← perform runtime_client
    must "failed to get controller runtime client" cli
    let app_name = get profile_app_annotation_key (or_empty secr.meta.annotations)
    if app_name == ""
        then return_now (message "secret does not contain profile app name annotation")
        else pure tt
    deleted ← perform (application_delete app_name)
    must "failed to delete profile app" deleted
    patched ← perform (secret_patch (unmanaged_secret secr))
    must "failed to patch secret" patched

  -- UnmanageExternal
  unfoldable pub unmanage_external : String → String → Exec api Error (Unit {0})
  unmanage_external argocd_ns cluster_name = do
    conn ← perform application_client
    must "failed to get argocd application client" conn
    got ← attempt (get_cluster argocd_ns cluster_name)
    found ← must "failed to get existing cluster" got
    if not found.is_external then return_now (message "cluster is not external") else pure tt
    if found.secret_name == ""
        then return_now (message "cluster is missing secret information")
        else pure tt
    client ← perform kube_client
    must "failed to get kube client" client
    read ← perform (secret_get argocd_ns found.secret_name)
    secr ← must "failed to get argo cluster secret" read
    check_managed cluster_name secr
    detach secr

  -- the loop of Delete over the applications of a gen2 cluster
  unfoldable pub delete_related : String → String → List Application → Exec api Error (Unit {0})
  delete_related argocd_ns name [] = pure tt
  delete_related argocd_ns name (app ∷ apps) = do
    if get "kkarlon-type" app.meta.labels == "cluster-app"
        then if get base_cluster_overridden (or_empty app.meta.annotations) == "true"
          then (do
            removed ← attempt (delete_overrides_dir app argocd_ns name)
            must "failed to delete the overrides directory" removed)
          else pure tt
        else pure tt
    deleted ← perform (application_delete app.meta.name)
    must (sprint ("failed to delete related app " ∷ app.meta.name ∷ [])) deleted
    delete_related argocd_ns name apps

  -- Delete
  unfoldable pub delete_cluster : String → String → Exec api Error (Unit {0})
  delete_cluster argocd_ns name = do
    client ← perform kube_client
    must "failed to get kube client" client
    conn ← perform application_client
    must "failed to get argocd application client" conn
    got ← attempt (get_cluster argocd_ns name)
    clust ← must "failed to get existing cluster" got
    if clust.is_external then unmanage_external argocd_ns name else elim clust.base_cluster [
      | none ↦ (do deleted ← perform (application_delete name); or_else deleted return_now)
      | some base ↦ (do
        listed ← perform (application_list (sprint ("kkarlon-cluster=" ∷ name ∷ [])))
        apps ← must "failed to list apps related to cluster" listed
        delete_related argocd_ns name apps)
    ]

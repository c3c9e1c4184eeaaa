-- ===== src/Controllers/Cluster/Progress.antt =====
-- The order in which a cluster is brought up and taken down.
use karlon.Base.{
  ◌≡◌, ◌⊎◌, refl, sym, arith, Bool, true, false, ◌&&◌, ◌==◌, ◌!=◌, String, Option, none, some, [],
  ◌∷◌, eq_iff, eq_refl, Bool-cases, All, inl, inr,
}
use karlon.Base.Dict.{Dict, get, insert, or_empty, get-insert, lookup}
use karlon.Base.Result.{ok}
use karlon.Objects.{Application, Cluster, OverrideSpec}
use karlon.Services.{
  Call, Api, State, Libraries, cluster_get, cluster_patch, application_get, application_create,
}
use karlon.Services.Exec.{ask, next}
use karlon.Git.Commits.{is_side, others, All-others, others-All, get_client_and_creds-others}
use karlon.BaseCluster.Validity.{validate_git_dir-others}
use karlon.Clusters.Directory.{create_patch_dir-others, delete_overrides_dir-others}
use karlon.AppProfile.Clusters.{profiles_key}
use karlon.Controllers.Cluster.Deletion.{
  kkarlon_app_name, delete_override, delete_app, reconcile_delete,
}
use karlon.Controllers.Cluster.{
  synced, validate_template, create_override, reconcile_present, reconcile,
}

-- no application is created
abbrev pub CreatesNone : Call → Type 0
CreatesNone (application_create app) = ⊥
CreatesNone _ = Unit

side-CreatesNone : (c : Call) → is_side c ≡ true → CreatesNone c
side-CreatesNone (application_create app) h = ground arith
side-CreatesNone _ h = tt

-- the cluster is not patched, so the finalizer stays
abbrev pub PatchesNone : Call → Type 0
PatchesNone (cluster_patch cl) = ⊥
PatchesNone _ = Unit

side-PatchesNone : (c : Call) → is_side c ≡ true → PatchesNone c
side-PatchesNone (cluster_patch cl) h = ground arith
side-PatchesNone _ h = tt

-- what a cluster needs before its applications are made: a valid template, and the override if one is
-- asked for
abbrev pub is_prepared : Cluster → Bool
is_prepared cl =
    cl.status.inner_cluster_name != ""
    && elim cl.spec.override [ none ↦ true | some ovr ↦ cl.status.override_successful ]

module _ (lib : Libraries) (conf argocd_ns : String) {api : Api} where
  validate-CreatesNone :
      (cl : Cluster) (s : State api)
      → All CreatesNone (others s.calls)
      → All CreatesNone (others (validate_template lib conf argocd_ns cl s).1.calls)
  unfolding validate_template others
  validate-CreatesNone cl s h = grind (arith, get_client_and_creds-others, validate_git_dir-others)

  override-CreatesNone :
      (cl : Cluster) (ovr : OverrideSpec) (s : State api)
      → All CreatesNone (others s.calls)
      → All CreatesNone (others (create_override lib conf argocd_ns cl ovr s).1.calls)
  unfolding create_override others
  override-CreatesNone cl ovr s h = grind (arith, create_patch_dir-others)

  unprepared-CreatesNone :
      (cl : Cluster) (s : State api)
      → is_prepared cl ≡ false
      → All CreatesNone (others s.calls)
      → All CreatesNone (others (reconcile_present lib conf argocd_ns cl s).1.calls)
  unfolding reconcile_present
  unprepared-CreatesNone cl s bare h = grind (arith, validate-CreatesNone, override-CreatesNone)

  delete-CreatesNone :
      (cl : Cluster) (s : State api)
      → All CreatesNone (others s.calls)
      → All CreatesNone (others (reconcile_delete argocd_ns cl s).1.calls)
  unfolding reconcile_delete delete_override delete_app others
  delete-CreatesNone cl s h = grind (arith, delete_overrides_dir-others)

  reconcile-CreatesNone :
      (ns name : String) (cl : Cluster) (s : State api)
      → ask api (cluster_get ns name) s.world ≡ ok cl
      → is_prepared cl ≡ false
      → All CreatesNone (others s.calls)
      → All CreatesNone (others (reconcile lib conf argocd_ns ns name s).1.calls)
  unfolding reconcile others
  reconcile-CreatesNone ns name cl s got bare h =
      grind (arith, unprepared-CreatesNone, delete-CreatesNone)

  -- Whatever the services answer, a reconciliation of a Cluster without a validated template,
  -- or with an override that is not in git yet, creates no application in ArgoCD, if no call
  -- before did.
  pub apps_need_template :
      (ns name : String) (cl : Cluster) (s : State api)
      → ask api (cluster_get ns name) s.world ≡ ok cl
      → is_prepared cl ≡ false
      → All CreatesNone s.calls
      → All CreatesNone (reconcile lib conf argocd_ns ns name s).1.calls
  apps_need_template ns name cl s got bare h =
      All-others CreatesNone side-CreatesNone _
        (reconcile-CreatesNone ns name cl s got bare (others-All CreatesNone s.calls h))

module _ (argocd_ns : String) {api : Api} where
  override-PatchesNone :
      (cl : Cluster) (app : Application) (s : State api)
      → All PatchesNone (others s.calls)
      → All PatchesNone (others (delete_override argocd_ns cl app s).1.calls)
  unfolding delete_override others
  override-PatchesNone cl app s h = grind (arith, delete_overrides_dir-others)

  known-PatchesNone :
      (cl : Cluster) (app : Application) (s : State api)
      → (ask api (application_get cl.meta.name) s.world ≡ ok app)
        ⊎ (ask api
              (application_get (kkarlon_app_name cl.meta.name))
              (next api (application_get cl.meta.name) s.world)
            ≡ ok app)
      → All PatchesNone (others s.calls)
      → All PatchesNone (others (reconcile_delete argocd_ns cl s).1.calls)
  unfolding reconcile_delete delete_app others
  known-PatchesNone cl app s known h = grind (arith, override-PatchesNone)

  -- If ArgoCD knows the cluster app or, asked next, the karlon app, the deletion of a Cluster
  -- does not patch the Cluster, so the finalizer stays, if no call before did.
  pub finalizer_waits :
      (cl : Cluster) (app : Application) (s : State api)
      → (ask api (application_get cl.meta.name) s.world ≡ ok app)
        ⊎ (ask api
              (application_get (kkarlon_app_name cl.meta.name))
              (next api (application_get cl.meta.name) s.world)
            ≡ ok app)
      → All PatchesNone s.calls
      → All PatchesNone (reconcile_delete argocd_ns cl s).1.calls
  finalizer_waits cl app s known h =
      All-others PatchesNone side-PatchesNone _
        (known-PatchesNone cl app s known (others-All PatchesNone s.calls h))

-- the annotations of a cluster app after a synchronisation
abbrev pub after_sync : Option (Dict String) → Option (Dict String) → Option (Dict String)
after_sync own notes = elim (synced own notes) [ none ↦ notes | some new ↦ new ]

synced-same :
    (own new : Dict String)
    → get profiles_key own ≡ get profiles_key new
    → synced (some own) (some new) ≡ none
unfolding synced
synced-same own new same = rw (same, eq_refl (get profiles_key new))

-- After a synchronisation the cluster app has the Cluster's annotation of profiles, and another
-- synchronisation has nothing to write.
pub synced_lem :
    (own notes : Option (Dict String))
    → (get profiles_key (or_empty (after_sync own notes)) ≡ get profiles_key (or_empty own))
      × (synced own (after_sync own notes) ≡ none)
unfolding synced
synced_lem none none = (refl, refl)
synced_lem none (some notes) = (refl, refl)
synced_lem (some own) none =
    let same : get profiles_key own ≡ get profiles_key ((profiles_key, get profiles_key own) ∷ []) =
      unfold get lookup in refl in
    (sym same, synced-same own ((profiles_key, get profiles_key own) ∷ []) same)
synced_lem (some own) (some notes) =
    let written = insert profiles_key (get profiles_key own) notes in
    let same : get profiles_key own ≡ get profiles_key written =
      sym (get-insert profiles_key profiles_key (get profiles_key own) notes) in
    elim (Bool-cases (get profiles_key own == get profiles_key notes)) [
      | inl agree ↦ (
        ground (arith, eq_iff (get profiles_key own) (get profiles_key notes)),
        ground (arith, eq_iff (get profiles_key own) (get profiles_key notes)),
      )
      | inr differ ↦ (ground (arith, same), ground (arith, same, synced-same own written same))
    ]

-- ===== src/AppProfile/Annotations.antt =====
-- What the first loop writes to the ArgoCD clusters.
use karlon.Base.{
  ◌≡◌, ◌⊎◌, refl, sym, ◌∙◌, subst, arith, false, ◌==◌, String, ◌∷◌, eq_iff, Bool-cases,
  Option-cases, inl, inr,
}
use karlon.Base.Dict.{Dict, lookup, get, or_empty, get-insert, get-erase}
use karlon.Objects.{Application, ArgoCluster}
use karlon.Services.{Call, Api, State, argo_cluster_update}
use karlon.AppProfile.Clusters.{
  Maps, profiles_key, annotation_of, annotated, unannotated, effective, reconcile_cluster,
}

-- the cluster with the annotation of another one, its other annotations as they were
abbrev pub IsMirror : String → ArgoCluster → Call → Type 0
IsMirror wanted clust (argo_cluster_update c) =
    (c.name ≡ clust.name)
    × (c.server ≡ clust.server)
    × (annotation_of c.annotations ≡ wanted)
    × ((key : String)
        → key == profiles_key ≡ false
        → get key (or_empty c.annotations) ≡ get key (or_empty clust.annotations))
IsMirror wanted clust _ = ⊥

annotated-IsMirror :
    (clust : ArgoCluster) (wanted : String)
    → IsMirror wanted clust (argo_cluster_update (annotated clust wanted))
annotated-IsMirror clust wanted = (
  refl,
  refl,
  ground (arith, get-insert profiles_key profiles_key wanted (or_empty clust.annotations)),
  λ key other. ground (
    arith,
    get-insert profiles_key key wanted (or_empty clust.annotations),
    eq_iff profiles_key key,
    eq_iff key profiles_key,
  ),
)

unannotated-IsMirror :
    (clust : ArgoCluster) → IsMirror "" clust (argo_cluster_update (unannotated clust))
unannotated-IsMirror clust = (
  refl,
  refl,
  ground (arith, get-erase profiles_key profiles_key (or_empty clust.annotations)),
  λ key other. ground (
    arith,
    get-erase profiles_key key (or_empty clust.annotations),
    eq_iff profiles_key key,
    eq_iff key profiles_key,
  ),
)

module _ {api : Api} where
  -- Whatever the services answer, a round of the first loop leaves a cluster alone, whose
  -- annotation is already the one that counts for it, or makes one call: an update of the
  -- cluster to that annotation with its name, its server and its other annotations as they
  -- were.
  pub cluster_mirrors :
      (kkarlon : Dict Application) (clust : ArgoCluster) (maps : Maps) (s : State api)
      → ((annotation_of clust.annotations ≡ effective kkarlon clust)
          × ((reconcile_cluster kkarlon clust maps s).1.calls ≡ s.calls))
        ⊎ ((call : Call) × IsMirror (effective kkarlon clust) clust call
            × ((reconcile_cluster kkarlon clust maps s).1.calls ≡ call ∷ s.calls))
  unfolding reconcile_cluster effective
  cluster_mirrors kkarlon clust maps s = elim (Option-cases (lookup clust.name kkarlon)) [
    | inl missing ↦ inl (ground arith, ground arith)
    | inr (app, found) ↦
        let own = annotation_of clust.annotations in
        let wanted = annotation_of app.meta.annotations in
        let eff : effective kkarlon clust ≡ wanted = ground arith in
        elim (Bool-cases (own == wanted)) [
          | inl same ↦ inl (
            (eq_iff own wanted).0 same ∙ sym eff,
            ground (arith, eq_iff own wanted, eq_iff own ""),
          )
          | inr differ ↦ elim (Bool-cases (wanted == "")) [
            | inl empty ↦ inr (
              argo_cluster_update (unannotated clust),
              subst (λ w. IsMirror w clust (argo_cluster_update (unannotated clust)))
                  (sym (eff ∙ (eq_iff wanted "").0 empty)) (unannotated-IsMirror clust),
              ground (arith, eq_iff own wanted, eq_iff own "", eq_iff wanted ""),
            )
            | inr full ↦ inr (
              argo_cluster_update (annotated clust wanted),
              subst (λ w. IsMirror w clust (argo_cluster_update (annotated clust wanted))) (sym eff)
                  (annotated-IsMirror clust wanted),
              ground (arith),
            )
          ]
        ]
  ]

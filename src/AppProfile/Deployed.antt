-- ===== src/AppProfile/Deployed.antt =====
-- Which clusters a profile and an app have after the first two loops.
use karlon.Base.{
  ◌≡◌, ◌⊎◌, refl, arith, Bool, false, ◌&&◌, ◌||◌, ◌==◌, String, some, List, [], ◌∷◌, contains,
  if◌then◌else◌, eq_iff, Option-cases, inl, inr,
}
use karlon.Base.Dict.{Dict, lookup, insert, lookup-insert}
use karlon.Base.Sets.{add, contains-add}
use karlon.Base.Text.{split}
use karlon.Objects.{Application, ArgoCluster}
use karlon.Services.{Api, State}
use karlon.Services.Exec.{Flow, stop, go}
use karlon.AppProfile.Clusters.{
  SetMap, Maps, set_of, add_to_each, update_profile_map, effective, annotation_of,
  reconcile_cluster, reconcile_clusters,
}

-- `p` holds of some element
unfoldable pub any {ℓ} : {A : Type ℓ} → (A → Bool) → List A → Bool
any p [] = false
any p (x ∷ xs) = p x || any p xs

-- the profiles that an annotation names
abbrev pub names_of : String → List String
names_of names = if names == "" then [] else split "," names

-- every application stands under its own name
abbrev pub IsNamed : Dict Application → Type 0
IsNamed m = (name : String) (app : Application) → lookup name m ≡ some app → app.meta.name ≡ name

pub set_of-insert :
    (k j : String) (v : List String) (m : SetMap)
    → set_of j (insert k v m) ≡ (if k == j then v else set_of j m)
unfolding set_of
set_of-insert k j v m = ground (arith, lookup-insert k j v m)

add_to_each_lem :
    (cluster c p : String) (ps : List String) (m : SetMap)
    → contains c (set_of p (add_to_each cluster ps m))
      ≡ (c == cluster && contains p ps || contains c (set_of p m))
unfolding add_to_each contains
add_to_each_lem cluster c p [] m = ground arith
add_to_each_lem cluster c p (q ∷ ps) m = ground (
  arith,
  add_to_each_lem cluster c p ps (insert q (add cluster (set_of q m)) m),
  set_of-insert q p (add cluster (set_of q m)) m,
  contains-add c cluster (set_of q m),
  eq_iff q p,
  eq_iff p q,
)

update_profile_map_lem :
    (cluster c p names : String) (m : SetMap)
    → contains c (set_of p (update_profile_map cluster names m))
      ≡ (c == cluster && contains p (names_of names) || contains c (set_of p m))
unfolding update_profile_map contains
update_profile_map_lem cluster c p names m =
    ground (arith, add_to_each_lem cluster c p (split "," names) m)

-- a cluster is annotated with a profile
abbrev pub uses : Dict Application → String → String → ArgoCluster → Bool
uses kkarlon p c clust = c == clust.name && contains p (names_of (effective kkarlon clust))

pub flow-cases :
    {World A B : Type 0} (r : Flow A B × World)
    → ((e : A) × (w : World) × (r ≡ (stop e, w))) ⊎ ((x : B) × (w : World) × (r ≡ (go x, w)))
flow-cases (stop e, w) = inl (e, w, refl)
flow-cases (go x, w) = inr (x, w, refl)

module _ {api : Api} where
  reconcile_cluster_lem :
      (kkarlon : Dict Application) (clust : ArgoCluster) (maps maps' : Maps) (s s' : State api)
      (c p : String)
      → IsNamed kkarlon
      → reconcile_cluster kkarlon clust maps s ≡ (go maps', s')
      → contains c (set_of p maps'.profile_to_clusters)
        ≡ (uses kkarlon p c clust || contains c (set_of p maps.profile_to_clusters))
  unfolding reconcile_cluster effective contains
  reconcile_cluster_lem kkarlon clust maps maps' s s' c p named h =
      elim (Option-cases (lookup clust.name kkarlon)) [
        | inl missing ↦ ground (
          arith,
          update_profile_map_lem clust.name c p (annotation_of clust.annotations)
              maps.profile_to_clusters,
        )
        | inr (app, found) ↦
            let same = named clust.name app found in
            ground (
              arith,
              update_profile_map_lem app.meta.name c p (annotation_of app.meta.annotations)
                  maps.profile_to_clusters,
            )
      ]

  pub reconcile_clusters_lem :
      (kkarlon : Dict Application) (clusts : List ArgoCluster) (maps maps' : Maps)
      (s s' : State api) (c p : String)
      → IsNamed kkarlon
      → reconcile_clusters kkarlon clusts maps s ≡ (go maps', s')
      → contains c (set_of p maps'.profile_to_clusters)
        ≡ (any (uses kkarlon p c) clusts || contains c (set_of p maps.profile_to_clusters))
  unfolding reconcile_clusters any
  reconcile_clusters_lem kkarlon [] maps maps' s s' c p named h = ground arith
  reconcile_clusters_lem kkarlon (clust ∷ clusts) maps maps' s s' c p named h =
      elim (flow-cases (reconcile_cluster kkarlon clust maps s)) [
        | inl (r, t, stopped) ↦ ground arith
        | inr (mid, t, went) ↦ ground (
          arith,
          reconcile_cluster_lem kkarlon clust maps mid s t c p named went,
          reconcile_clusters_lem kkarlon clusts mid maps' t s' c p named,
        )
      ]

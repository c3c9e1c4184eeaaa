-- ===== src/AppProfile/Clusters.antt =====
-- The first loop: an ArgoCD cluster takes over the annotation of the karlon cluster of its name, and
-- each profile named by an annotation collects the cluster.
use karlon.Base.{◌==◌, ◌!=◌, String, Option, none, some, List, [], ◌∷◌, if◌then◌else◌}
use karlon.Base.Dict.{Dict, lookup, insert, erase, get, or_empty}
use karlon.Base.Sets.{add}
use karlon.Base.Text.{split}
use karlon.Base.Result.{Error}
use karlon.Objects.{Application, ArgoCluster}
use karlon.Services.{Api, argo_cluster_update}
use karlon.Services.Exec.{Exec, ◌>>=◌, ◌>>◌, pure, perform, must}

-- kkarlonapp.ProfilesAnnotationKey
abbrev pub profiles_key : String
profiles_key = "kkarlon.io/profiles"

-- a map of sets: a missing set reads as an empty one
abbrev pub SetMap : Type 0
SetMap = Dict (List String)

abbrev pub or_none : Option (List String) → List String
or_none none = []
or_none (some s) = s

unfoldable pub set_of : String → SetMap → List String
set_of key m = or_none (lookup key m)

unfoldable pub add_to_each : String → List String → SetMap → SetMap
unfolding set_of
add_to_each cluster [] m = m
add_to_each cluster (p ∷ ps) m = add_to_each cluster ps (insert p (add cluster (set_of p m)) m)

-- updateProfileToClustersMap
unfoldable pub update_profile_map : String → String → SetMap → SetMap
unfolding add_to_each
update_profile_map cluster names m =
    if names == "" then m else add_to_each cluster (split "," names) m

-- the two maps that the loop fills
pub record Maps : Type 0 where
  pub profile_to_clusters : SetMap
  pub name_to_server : Dict String

abbrev pub annotation_of : Option (Dict String) → String
annotation_of a = get profiles_key (or_empty a)

-- the annotation that counts for a cluster: that of the karlon cluster of its name, if there is one
unfoldable pub effective : Dict Application → ArgoCluster → String
effective kkarlon clust = elim (lookup clust.name kkarlon) [
  | none ↦ annotation_of clust.annotations
  | some app ↦ annotation_of app.meta.annotations
]

abbrev pub annotated : ArgoCluster → String → ArgoCluster
annotated clust wanted = record clust {
  annotations = some (insert profiles_key wanted (or_empty clust.annotations));
}

abbrev pub unannotated : ArgoCluster → ArgoCluster
unannotated clust = record clust {
  annotations = some (erase profiles_key (or_empty clust.annotations));
}

module _ {api : Api} where
  abbrev pub save_cluster : ArgoCluster → Exec api Error (Unit {0})
  save_cluster clust = do
    updated ← perform (argo_cluster_update clust)
    must "failed to update argo cluster" updated

  -- one round of the loop
  unfoldable pub reconcile_cluster : Dict Application → ArgoCluster → Maps → Exec api Error Maps
  reconcile_cluster kkarlon clust maps =
      let own = annotation_of clust.annotations in
      let servers = insert clust.name clust.server maps.name_to_server in
      elim (lookup clust.name kkarlon) [
        | none ↦ pure (record {
          profile_to_clusters = update_profile_map clust.name own maps.profile_to_clusters;
          name_to_server = servers;
        })
        | some app ↦
            let wanted = annotation_of app.meta.annotations in
            let noted : Maps = record {
              profile_to_clusters =
                  update_profile_map app.meta.name wanted maps.profile_to_clusters;
              name_to_server = servers;
            } in
            if wanted != ""
            then (if own != wanted
                then (do save_cluster (annotated clust wanted); pure noted)
                else pure noted)
            else if own != ""
            then (do save_cluster (unannotated clust); pure noted)
            else pure (record maps { name_to_server = servers })
      ]

  unfoldable pub reconcile_clusters :
      Dict Application → List ArgoCluster → Maps → Exec api Error Maps
  reconcile_clusters kkarlon [] maps = pure maps
  reconcile_clusters kkarlon (clust ∷ clusts) maps = do
    maps' ← reconcile_cluster kkarlon clust maps
    reconcile_clusters kkarlon clusts maps'

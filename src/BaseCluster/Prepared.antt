-- ===== src/BaseCluster/Prepared.antt =====
-- A prepared manifest is valid, and preparing it again changes nothing.
use karlon.Base.{
  ◌≡◌, refl, arith, Bool, false, ◌==◌, ◌!=◌, ◌&&◌, String, List, [], ◌∷◌, if◌then◌else◌, eq_iff,
}
use karlon.Base.Result.{Result, ok, err}
use karlon.BaseCluster.{find_cluster, cluster_of}
use karlon.Base.Number.{ℤ}
use karlon.BaseCluster.Prepare.{
  Prepared, without_namespace, with_annotations, prepare_resource, prepare_all, prepare, put_first,
}
use karlon.Services.{Resource}

-- the resource keeps its kind and name, and has no namespace
pub prepare_resource_lem :
    (cas_max cas_min : ℤ) (r : Resource)
    → ((prepare_resource cas_max cas_min r).0.kind ≡ r.kind)
      × ((prepare_resource cas_max cas_min r).0.name ≡ r.name)
      × ((prepare_resource cas_max cas_min r).0.namespace ≡ "")
unfolding prepare_resource with_annotations without_namespace
prepare_resource_lem cas_max cas_min r = ground (arith, eq_iff r.namespace "")

-- the cluster that the preparation found is the one that a validation finds
abbrev Finds : String → Result Prepared → Type 0
Finds cluster (err e) = Unit
Finds cluster (ok p) = find_cluster p.resources cluster ≡ ok p.cluster

find_prepared :
    (r : Resource) (modified : Bool) (cluster : String) (rest : Result Prepared)
    → r.namespace ≡ ""
    → (r.kind == "Cluster" && cluster != "") ≡ false
    → Finds (if r.kind == "Cluster" then r.name else cluster) rest
    → Finds cluster (put_first r modified rest)
unfolding find_cluster
find_prepared r modified cluster (err e) bare first found = tt
find_prepared r modified cluster (ok p) bare first found = ground (arith, eq_iff r.namespace "")

module _ (encode : Resource → Result String) where
  prepare_all-Finds :
      (cas_max cas_min : ℤ) (rs : List Resource) (cluster : String)
      → Finds cluster (prepare_all encode cas_max cas_min rs cluster)
  unfolding prepare_all find_cluster
  prepare_all-Finds cas_max cas_min [] cluster = refl
  prepare_all-Finds cas_max cas_min (r ∷ rs) cluster = ground (
    arith,
    prepare_resource_lem cas_max cas_min r,
    prepare_all-Finds cas_max cas_min rs r.name,
    prepare_all-Finds cas_max cas_min rs cluster,
    find_prepared (prepare_resource cas_max cas_min r).0 (prepare_resource cas_max cas_min r).1
        cluster (prepare_all encode cas_max cas_min rs r.name),
    find_prepared (prepare_resource cas_max cas_min r).0 (prepare_resource cas_max cas_min r).1
        cluster (prepare_all encode cas_max cas_min rs cluster),
  )

  -- The resources that a preparation of a manifest writes are accepted by the validation of a
  -- cluster template, which finds the same name of the cluster in them.
  pub prepared_is_valid :
      (cas_max cas_min : ℤ) (rs : List Resource) (p : Prepared)
      → prepare encode cas_max cas_min rs ≡ ok p
      → cluster_of p.resources ≡ ok p.cluster
  unfolding prepare cluster_of
  prepared_is_valid cas_max cas_min rs p h =
      let found : Finds "" (prepare_all encode cas_max cas_min rs "") =
        prepare_all-Finds cas_max cas_min rs "" in
      ground arith

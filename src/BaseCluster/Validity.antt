-- ===== src/BaseCluster/Validity.antt =====
-- What a valid cluster template is.
use karlon.Base.{
  ◌≡◌, ◌⊎◌, refl, sym, subst, arith, Bool, true, false, ◌||◌, ◌==◌, String, List, [], ◌∷◌,
  if◌then◌else◌, inl, inr, eq_iff, All,
}
use karlon.Base.Result.{Error, Result, ok, err}
use karlon.Services.{Api, State, RepoCreds, FileInfo, Resource}
use karlon.Git.Commits.{others}
use karlon.BaseCluster.{
  Found, find_cluster, cluster_of, scan_dir, nothing_found, manifest_of, validate_dir,
  validate_clone, validate_git_dir,
}

pub Result-cases :
    {A : Type 0} (r : Result A) → ((e : Error) × (r ≡ err e)) ⊎ ((a : A) × (r ≡ ok a))
Result-cases (err e) = inl (e, refl)
Result-cases (ok a) = inr (a, refl)

module _ {api : Api} where
  validate_dir-others :
      (path : String) (infos : List FileInfo) (s : State api)
      → others (validate_dir path infos s).1.calls ≡ others s.calls
  unfolding validate_dir others
  validate_dir-others path infos s = ground arith

  validate_clone-others :
      (dir path : String) (s : State api)
      → others (validate_clone dir path s).1.calls ≡ others s.calls
  unfolding validate_clone others
  validate_clone-others dir path s = grind (arith, validate_dir-others)

  pub validate_git_dir-others :
      (creds : RepoCreds) (url revision path : String) (s : State api)
      → others (validate_git_dir creds url revision path s).1.calls ≡ others s.calls
  unfolding validate_git_dir others
  validate_git_dir-others creds url revision path s = grind (arith, validate_clone-others)

-- the names of the resources of kind Cluster
unfoldable pub clusters_in : List Resource → List String
clusters_in [] = []
clusters_in (r ∷ rs) =
    let rest = clusters_in rs in if r.kind == "Cluster" then r.name ∷ rest else rest

-- every resource has a name and no namespace
abbrev pub IsNamed : Resource → Type 0
IsNamed r = (r.name == "") ≡ false

abbrev pub IsBare : Resource → Type 0
IsBare r = r.namespace ≡ ""

-- with a cluster found before, no other one is accepted
find_second :
    (rs : List Resource) (name found : String)
    → (name == "") ≡ false
    → find_cluster rs name ≡ ok found
    → (clusters_in rs ≡ []) × (found ≡ name) × All IsBare rs
unfolding find_cluster clusters_in
find_second [] name found full h = ground arith
find_second (r ∷ rs) name found full h =
    ground (arith, find_second rs name found full, eq_iff r.namespace "")

find_first_cluster :
    (rs : List Resource) (found : String)
    → All IsNamed rs
    → find_cluster rs "" ≡ ok found
    → (found == "") ≡ false
    → (clusters_in rs ≡ found ∷ []) × All IsBare rs
unfolding find_cluster clusters_in
find_first_cluster [] found named h full = ground (arith, eq_iff found "")
find_first_cluster (r ∷ rs) found named h full =
    ground (arith, find_second rs r.name found, find_first_cluster rs found, eq_iff r.namespace "")

-- If the names of the resources are not empty, a manifest that is accepted has exactly one
-- resource of kind Cluster, whose name is returned, and no resource with a namespace.
pub cluster_of_lem :
    (rs : List Resource) (name : String)
    → All IsNamed rs
    → cluster_of rs ≡ ok name
    → (clusters_in rs ≡ name ∷ []) × All IsBare rs
unfolding cluster_of
cluster_of_lem rs name named h = ground (arith, find_first_cluster rs name)

find_none :
    (rs : List Resource) (name : String)
    → clusters_in rs ≡ []
    → All IsBare rs
    → find_cluster rs name ≡ ok name
unfolding find_cluster clusters_in
find_none [] name h bare = refl
find_none (r ∷ rs) name h bare = ground (arith, find_none rs name, eq_iff r.namespace "")

find_one :
    (rs : List Resource) (name : String)
    → clusters_in rs ≡ name ∷ []
    → All IsBare rs
    → find_cluster rs "" ≡ ok name
unfolding find_cluster clusters_in
find_one [] name h bare = ground arith
find_one (r ∷ rs) name h bare =
    ground (arith, find_one rs name, find_none rs r.name, eq_iff r.namespace "")

-- A manifest with exactly one resource of kind Cluster, whose name is not empty, and no
-- resource with a namespace is accepted.
pub cluster_of_complete :
    (rs : List Resource) (name : String)
    → (name == "") ≡ false
    → clusters_in rs ≡ name ∷ []
    → All IsBare rs
    → cluster_of rs ≡ ok name
unfolding cluster_of
cluster_of_complete rs name full h bare = ground (arith, find_one rs name)

-- the files other than the two of kustomize
unfoldable pub manifests_in : List FileInfo → List String
manifests_in [] = []
manifests_in (i ∷ is) =
    let rest = manifests_in is in
    if i.name == "kustomization.yaml" || i.name == "configurations.yaml"
    then rest
    else i.name ∷ rest

unfoldable pub has_file : String → List FileInfo → Bool
has_file name [] = false
has_file name (i ∷ is) = i.name == name || has_file name is

abbrev pub IsFile : FileInfo → Type 0
IsFile i = (i.is_dir ≡ false) × ((i.name == "") ≡ false)

-- what the loop adds to the two flags
abbrev pub Flags : List FileInfo → Found → Found → Type 0
Flags is found end =
    (end.kustomization ≡ (has_file "kustomization.yaml" is || found.kustomization))
    × (end.configurations ≡ (has_file "configurations.yaml" is || found.configurations))

two_names :
    (name : String)
    → (name == "kustomization.yaml") ≡ true
    → (name == "configurations.yaml") ≡ false
two_names name h =
    subst (λ n. (n == "configurations.yaml") ≡ false) (sym ((eq_iff name "kustomization.yaml").0 h))
      refl

-- with a manifest found before, no other one is accepted
scan_second :
    (is : List FileInfo) (found end : Found)
    → All (λ i. (i.name == "") ≡ false) is
    → (found.manifest == "") ≡ false
    → scan_dir is found ≡ ok end
    → Flags is found end × (manifests_in is ≡ []) × (end.manifest ≡ found.manifest) × All IsFile is
unfolding scan_dir has_file manifests_in
scan_second [] found end named full h = ground arith
scan_second (i ∷ is) found end named full h = ground (
  arith,
  scan_second is (record found { kustomization = true }) end,
  scan_second is (record found { configurations = true }) end,
  two_names i.name,
)

scan_first :
    (is : List FileInfo) (found end : Found)
    → All (λ i. (i.name == "") ≡ false) is
    → found.manifest ≡ ""
    → scan_dir is found ≡ ok end
    → (end.manifest == "") ≡ false
    → Flags is found end × (manifests_in is ≡ end.manifest ∷ []) × All IsFile is
unfolding scan_dir has_file manifests_in
scan_first [] found end named none_yet h full = ground (arith, eq_iff end.manifest "")
scan_first (i ∷ is) found end named none_yet h full = ground (
  arith,
  scan_first is (record found { kustomization = true }) end,
  scan_first is (record found { configurations = true }) end,
  scan_second is (record found { manifest = i.name }) end,
  two_names i.name,
  eq_iff found.manifest "",
)

-- If the names of the files are not empty, a directory that is accepted as a template holds no
-- directory, has kustomization.yaml and configurations.yaml, and exactly one other file, the
-- manifest that is returned.
pub manifest_of_lem :
    (is : List FileInfo) (name : String)
    → All (λ i. (i.name == "") ≡ false) is
    → manifest_of is ≡ ok name
    → (manifests_in is ≡ name ∷ [])
      × (has_file "kustomization.yaml" is ≡ true)
      × (has_file "configurations.yaml" is ≡ true)
      × All IsFile is
unfolding manifest_of
manifest_of_lem is name named h = elim (Result-cases (scan_dir is nothing_found)) [
  | inl (e, bad) ↦ ground arith
  | inr (end, good) ↦ ground (arith, scan_first is nothing_found end named refl good)
]

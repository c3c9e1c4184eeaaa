-- ===== src/Clusters/Managed.antt =====
-- A cluster that is managed and then left again, and one that cannot be left.
use karlon.Base.{
  ◌≡◌, ◌≢◌, inl, inr, Option-cases, refl, arith, eq_iff, false, ◌==◌, String, none, some, All,
}
use karlon.Base.Dict.{Dict, lookup, insert, erase, get, or_empty, lookup-insert, lookup-erase}
use karlon.Base.Result.{Error, ok, err}
use karlon.Objects.{Profile, Secret}
use karlon.Services.{Call, Api, State, secret_patch, application_delete, runtime_client}
use karlon.Services.Exec.{Flow, go, ask, next}
use karlon.Clusters.External.{
  managed_secret, unmanaged_secret, check_managed, detach, unmanage_external,
}
use karlon.Clusters.Queries.{
  get_cluster, get_matching_profile_name, cluster_type_label_key, profile_annotation_key,
  profile_app_annotation_key,
}

-- a map without a key
abbrev pub Misses : String → Dict String → Type 0
Misses key m = lookup key m ≡ none

-- the same map, in whatever order it is written
abbrev pub SameMap : Dict String → Dict String → Type 0
SameMap m n = (key : String) → lookup key m ≡ lookup key n

erase-insert :
    (key value : String) (m : Dict String)
    → Misses key m
    → SameMap (erase key (insert key value m)) m
erase-insert key value m h other = ground (
  arith,
  lookup-erase key other (insert key value m),
  lookup-insert key other value m,
  eq_iff key other,
)

erase_both :
    (first second u v : String) (m : Dict String)
    → (first == second) ≡ false
    → Misses first m
    → Misses second m
    → SameMap (erase second (erase first (insert second v (insert first u m)))) m
erase_both first second u v m apart h1 h2 key = ground (
  arith,
  lookup-erase second key (erase first (insert second v (insert first u m))),
  lookup-erase first key (insert second v (insert first u m)),
  lookup-insert second key v (insert first u m),
  lookup-insert first key u m,
  eq_iff first key,
  eq_iff second key,
)

-- A secret that UnmanageExternal makes of one that ManageExternal made has the labels and
-- annotations of the old one and its data, if the old one had none of the label and the two
-- annotations that mark an external cluster.
pub unmanaged-managed :
    (prof : Profile) (app_name : String) (secr managed : Secret)
    → managed_secret prof app_name secr ≡ ok managed
    → Misses cluster_type_label_key secr.meta.labels
    → Misses profile_annotation_key (or_empty secr.meta.annotations)
    → Misses profile_app_annotation_key (or_empty secr.meta.annotations)
    → SameMap (unmanaged_secret managed).meta.labels secr.meta.labels
      × SameMap
          (or_empty (unmanaged_secret managed).meta.annotations)
          (or_empty secr.meta.annotations)
      × ((unmanaged_secret managed).content ≡ secr.content)
unfolding managed_secret unmanaged_secret
unmanaged-managed prof app_name secr managed h label note app =
    elim (Option-cases secr.meta.annotations) [
      | inl missing ↦ let never : ⊥ = ground arith in absurd never
      | inr (notes, found) ↦
          let labels : managed.meta.labels
              ≡ insert cluster_type_label_key "external" secr.meta.labels =
            ground arith in
          let noted : managed.meta.annotations
              ≡ some (
                  insert profile_app_annotation_key app_name
                    (insert profile_annotation_key prof.name notes)) =
            ground arith in
          let note' : Misses profile_annotation_key notes = ground arith in
          let app' : Misses profile_app_annotation_key notes = ground arith in
          let content : managed.content ≡ secr.content = ground arith in
          (
            λ key.
                rw labels
                  (erase-insert cluster_type_label_key "external" secr.meta.labels label key),
            λ key.
                rw (noted, found)
                  (erase_both profile_annotation_key profile_app_annotation_key prof.name app_name
                    notes refl note' app' key),
            content,
          )
    ]

-- the secret is not patched
abbrev pub KeepsSecrets : Call → Type 0
KeepsSecrets (secret_patch s) = ⊥
KeepsSecrets _ = Unit

-- a deletion that is refused in every world
abbrev pub RefusesDeletion : (api : Api) → (String → api.World → Error) → Type 0
RefusesDeletion api refusal =
    (app : String) (w : api.World) → ask api (application_delete app) w ≡ err (refusal app w)

module _ {api : Api} where
  get_cluster-KeepsSecrets :
      (ns name : String) (s : State api)
      → All KeepsSecrets s.calls
      → All KeepsSecrets (get_cluster ns name s).1.calls
  unfolding get_cluster get_matching_profile_name
  get_cluster-KeepsSecrets ns name s hs = ground arith

  abbrev Blocked : Flow Error (Unit {0}) × State api → Type 0
  Blocked (f, s) = All KeepsSecrets s.calls × (f ≢ go tt)

  detach-Blocked :
      (refusal : String → api.World → Error) (secr : Secret) (s : State api)
      → RefusesDeletion api refusal
      → All KeepsSecrets s.calls
      → Blocked (detach secr s)
  unfolding detach
  detach-Blocked refusal secr s refused hs =
      let never =
        refused (get profile_app_annotation_key (or_empty secr.meta.annotations))
          (next api runtime_client s.world) in
      (ground arith, λ ended. ground arith)

  check_managed-calls :
      (name : String) (secr : Secret) (s : State api) → (check_managed name secr s).1 ≡ s
  unfolding check_managed
  check_managed-calls name secr s = ground arith

  -- If ArgoCD does not delete an application whatever its name, as where the profile app is
  -- gone after an attempt whose patch failed, UnmanageExternal patches no secret, if no call
  -- before did, and does not end well.
  pub unmanage_blocked :
      (refusal : String → api.World → Error) (ns name : String) (s : State api)
      → RefusesDeletion api refusal
      → All KeepsSecrets s.calls
      → All KeepsSecrets (unmanage_external ns name s).1.calls
        × ((unmanage_external ns name s).0 ≢ go tt)
  unfolding unmanage_external
  unmanage_blocked refusal ns name s refused hs =
      let detached : (secr : Secret) (t : State api)
          → All KeepsSecrets t.calls
          → Blocked (detach secr t) =
        λ secr t ht. detach-Blocked refusal secr t refused ht in
      (
        grind (arith, get_cluster-KeepsSecrets ns name, check_managed-calls name, detached),
        λ ended.
            grind (arith, get_cluster-KeepsSecrets ns name, check_managed-calls name, detached),
      )

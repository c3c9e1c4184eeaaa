-- ===== src/Clusters/Queries.antt =====
-- pkg/cluster: the clusters that karlon knows (types.go, list.go, get.go).
use karlon.Base.{
  Bool, true, false, ◌==◌, ◌!=◌, String, Option, none, some, List, [], ◌∷◌, ◌++◌, map, find_first,
  if◌then◌else◌,
}
use karlon.Base.Dict.{get, or_empty}
use karlon.Base.Result.{Error, message}
use karlon.Base.Text.{sprint, split}
use karlon.Objects.{Application, Secret}
use karlon.Services.{Api, kube_client, secret_list, application_get, application_list}
use karlon.Services.Exec.{Exec, ◌>>=◌, ◌>>◌, pure, return_now, perform, must, attempt}
use karlon.AppProfile.Clusters.{profiles_key}
use karlon.Clusters.{
  base_cluster_name_annotation, base_cluster_repo_url_annotation,
  base_cluster_repo_revision_annotation, base_cluster_repo_path_annotation,
}

pub record BaseClusterInfo : Type 0 where
  pub name : String
  pub repo_url : String
  pub repo_revision : String
  pub repo_path : String
  pub overridden : String

-- the type Cluster
pub record KarlonCluster : Type 0 where
  pub name : String
  pub cluster_spec_name : String
  pub base_cluster : Option BaseClusterInfo
  pub profile_name : String
  pub is_external : Bool
  pub secret_name : String
  pub app_profiles : List String

abbrev pub cluster_spec_annotation_key : String
cluster_spec_annotation_key = "kkarlon.io/clusterspec"

abbrev pub profile_annotation_key : String
profile_annotation_key = "kkarlon.io/profile"

abbrev pub profile_app_annotation_key : String
profile_app_annotation_key = "kkarlon.io/profile-app"

abbrev pub cluster_type_label_key : String
cluster_type_label_key = "kkarlon.io/cluster-type"

abbrev pub argo_cluster_secrets : String
argo_cluster_secrets = "argocd.argoproj.io/secret-type=cluster"

abbrev pub external_cluster_secrets : String
external_cluster_secrets = "argocd.argoproj.io/secret-type=cluster,kkarlon.io/cluster-type=external"

abbrev pub note : String → Application → String
note key app = get key (or_empty app.meta.annotations)

-- a gen1 cluster, a gen2 one and an external one, as List and Get make them. A secret without the
-- name of a cluster counts as one for the empty name, which the code logs as skipped.
unfoldable pub gen1_cluster : Application → KarlonCluster
gen1_cluster a = record {
  name = a.meta.name;
  cluster_spec_name = note cluster_spec_annotation_key a;
  base_cluster = none;
  profile_name = note profile_annotation_key a;
  is_external = false;
  secret_name = "";
  app_profiles = [];
}

unfoldable pub gen2_cluster : Application → String → List String → KarlonCluster
gen2_cluster a profile_name app_profiles = record {
  name = a.meta.name;
  cluster_spec_name = "";
  base_cluster = some (record {
    name = note base_cluster_name_annotation a;
    repo_url = note base_cluster_repo_url_annotation a;
    repo_revision = note base_cluster_repo_revision_annotation a;
    repo_path = note base_cluster_repo_path_annotation a;
    overridden = "";
  });
  profile_name = profile_name;
  is_external = false;
  secret_name = "";
  app_profiles = app_profiles;
}

unfoldable pub external_cluster : Secret → KarlonCluster
external_cluster secr = record {
  name = get "name" secr.content;
  cluster_spec_name = "";
  base_cluster = none;
  profile_name = get profile_annotation_key (or_empty secr.meta.annotations);
  is_external = true;
  secret_name = secr.meta.name;
  app_profiles = [];
}

-- the label of the first profile app
abbrev pub first_profile : List Application → String
first_profile [] = ""
first_profile (a ∷ apps) = get "kkarlon-profile" a.meta.labels

module _ {api : Api} where
  -- getMatchingProfileName
  unfoldable pub get_matching_profile_name : String → Exec api Error String
  get_matching_profile_name cluster_name = do
    listed ← perform (
        application_list (
          sprint
            ("managed-by=kkarlon,kkarlon-type=profile-app,kkarlon-cluster=" ∷ cluster_name ∷ [])))
    apps ←
        must (sprint ("failed to list profile apps associated with cluster " ∷ cluster_name ∷ []))
          listed
    pure (first_profile apps)

  -- the loop over the gen2 apps
  unfoldable pub list_gen2 : List Application → Exec api Error (List KarlonCluster)
  list_gen2 [] = pure []
  list_gen2 (a ∷ apps) = do
    found ← attempt (get_matching_profile_name a.meta.name)
    profile_name ← must "failed to matching profile name" found
    rest ← list_gen2 apps
    pure (gen2_cluster a profile_name (split "," (note profiles_key a)) ∷ rest)

  -- List
  unfoldable pub list_clusters : String → Exec api Error (List KarlonCluster)
  list_clusters argocd_ns = do
    listed ← perform (application_list "managed-by=kkarlon,kkarlon-type=cluster")
    gen1 ← must "failed to list argocd applications" listed
    listed' ← perform (application_list "managed-by=kkarlon,kkarlon-type=cluster-app")
    apps ← must "failed to list next-gen clusters" listed'
    gen2 ← list_gen2 apps
    client ← perform kube_client
    must "failed to get kube client" client
    secrets ← perform (secret_list argocd_ns external_cluster_secrets)
    secrs ← must "failed to list cluster secrets" secrets
    pure (map gen1_cluster gen1 ++ gen2 ++ map external_cluster secrs)

  -- Get
  unfoldable pub get_cluster : String → String → Exec api Error KarlonCluster
  get_cluster argocd_ns name = do
    client ← perform kube_client
    must "failed to get kube client" client
    secrets ← perform (secret_list argocd_ns external_cluster_secrets)
    secrs ← must "failed to list cluster secrets" secrets
    elim (find_first (λ (secr : Secret). get "name" secr.content == name) secrs) [
      | some secr ↦ pure (external_cluster secr)
      | none ↦ (do
        got ← perform (application_get name)
        a ← must "failed to get argocd application" got
        let kind = get "kkarlon-type" a.meta.labels
        if kind == "cluster"
            then pure (gen1_cluster a)
            else if kind == "cluster-app"
            then (do
              found ← attempt (get_matching_profile_name a.meta.name)
              profile_name ← must "failed to matching profile name" found
              pure (gen2_cluster a profile_name []))
            else return_now (message "not an kkarlon cluster"))
    ]

-- Cluster.String
unfoldable pub describe : KarlonCluster → String
describe c =
    let kind = if c.is_external then sprint (", Type: external" ∷ []) else elim c.base_cluster [
      | some base ↦ sprint (
          ", Type: next-gen, Cluster template Repo Url: " ∷ base.repo_url
          ∷ ", Cluster template Repo Path: " ∷ base.repo_path ∷ [])
      | none ↦ sprint (", Type: previous gen, Cluster Spec: " ∷ c.cluster_spec_name ∷ [])
    ] in
    let ending =
      if c.profile_name != "" then sprint (", Profile: " ∷ c.profile_name ∷ []) else "" in
    sprint ("Name: " ∷ c.name ∷ kind ∷ ending ∷ [])

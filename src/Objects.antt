-- ===== src/Objects.antt =====
-- The objects that the program reads and writes. Those of pkg/api/v1 (the custom resources of
-- karlon) have every field of the source but the type's header; those of Kubernetes and ArgoCD,
-- whose types are not in the repository, have the fields that the program touches.
use karlon.Base.{Bool, String, Option, List}
use karlon.Base.Dict.{Dict}

-- metav1.ObjectMeta. A nil annotation map is `none`; the code tells it from an empty one.
pub record Meta : Type 0 where
  pub name : String
  pub namespace : String
  pub labels : Dict String
  pub annotations : Option (Dict String)
  pub finalizers : List String
  -- `!DeletionTimestamp.IsZero()`
  pub deleting : Bool

-- pkg/api/v1/cluster_types.go
pub record RepoSpec : Type 0 where
  pub url : String
  pub path : String
  pub revision : String

pub record OverrideSpec : Type 0 where
  pub patch : String
  pub repo : RepoSpec

pub record AutoscalerSpec : Type 0 where
  pub mgmt_cluster_host : String

pub record ClusterSpec : Type 0 where
  pub cluster_template : RepoSpec
  pub override : Option OverrideSpec
  pub autoscaler : Option AutoscalerSpec
  pub kkarlon_helm_chart : Option RepoSpec

pub record ClusterStatus : Type 0 where
  pub state : String
  pub inner_cluster_name : String
  pub override_successful : Bool
  pub message : String

pub record Cluster : Type 0 where
  pub meta : Meta
  pub spec : ClusterSpec
  pub status : ClusterStatus

-- pkg/api/v1/clusterregistration_types.go
pub record RegistrationSpec : Type 0 where
  pub cluster_name : String
  pub kubeconfig_secret_name : String
  pub kubeconfig_secret_key_name : String

-- the status of a ClusterRegistration and of a CallHomeConfig
pub record Status : Type 0 where
  pub state : String
  pub message : String

pub record ClusterRegistration : Type 0 where
  pub meta : Meta
  pub spec : RegistrationSpec
  pub status : Status

-- pkg/api/v1/callhomeconfig_types.go
pub record CallHomeSpec : Type 0 where
  pub service_account_name : String
  pub kubeconfig_secret_name : String
  pub kubeconfig_secret_key_name : String
  pub target_namespace : String
  pub target_secret_name : String
  pub target_secret_key_name : String
  pub management_cluster_url : String

pub record CallHomeConfig : Type 0 where
  pub meta : Meta
  pub spec : CallHomeSpec
  pub status : Status

-- pkg/api/v1/appprofile_types.go
pub record AppProfile : Type 0 where
  pub name : String
  pub app_names : List String
  pub health : String
  pub invalid_app_names : List String

-- pkg/api/v1/profile_types.go
pub record Override : Type 0 where
  pub bundle : String
  pub key : String
  pub value : String

pub record ProfileSpec : Type 0 where
  pub description : String
  pub tags : List String
  pub bundles : List String
  pub overrides : List Override
  pub repo_url : String
  pub repo_path : String
  pub repo_revision : String

pub record Profile : Type 0 where
  pub name : String
  pub namespace : String
  pub spec : ProfileSpec

-- v1.Secret and v1.ConfigMap
pub record Secret : Type 0 where
  pub meta : Meta
  pub content : Dict String

pub record ConfigMap : Type 0 where
  pub name : String
  pub labels : Dict String
  pub content : Dict String

-- argocd's v1alpha1.Cluster, and its v1alpha1.Application
pub record ArgoCluster : Type 0 where
  pub name : String
  pub server : String
  pub annotations : Option (Dict String)

pub record HelmParameter : Type 0 where
  pub name : String
  pub value : String

pub record IgnoreDifference : Type 0 where
  pub group : String
  pub kind : String
  pub pointer : String

pub record Application : Type 0 where
  pub meta : Meta
  pub repo_url : String
  pub path : String
  pub target_revision : String
  pub helm_parameters : List HelmParameter
  pub name_prefix : String
  pub server : String
  pub destination_namespace : String
  pub ignore_differences : List IgnoreDifference
  pub sync_options : List String
  pub prune : Bool

-- argocd's v1alpha1.ApplicationSet: its generators, `some` the raw elements of a list generator
pub record ApplicationSet : Type 0 where
  pub name : String
  pub labels : Dict String
  pub generators : List (Option (List String))

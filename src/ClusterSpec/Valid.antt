-- ===== src/ClusterSpec/Valid.antt =====
-- pkg/clusterspec/utils.go. The names of the AWS regions are constants of AWS' library: a parameter.
use Prim.Native.String.{compare}
use Prim.Native.Nat.{Ordering}
use karlon.Base.{◌==◌, String, List, [], ◌∷◌, contains, if◌then◌else◌}
use karlon.Base.Text.{join, sprint}
use karlon.Base.Result.{Error, Result, ok, err, message}

abbrev pub valid_api_providers : List String
valid_api_providers = "capi" ∷ "xplane" ∷ []

abbrev pub valid_cloud_providers : List String
valid_cloud_providers = "aws" ∷ "gcp" ∷ "azure" ∷ []

-- a cloud that the map lacks has no types
abbrev pub valid_cluster_types : String → List String
valid_cluster_types cloud =
    if cloud == "aws"
    then "kubeadm" ∷ "eks" ∷ []
    else if cloud == "gcp"
    then "kubeadm" ∷ "gke" ∷ []
    else if cloud == "azure"
    then "kubeadm" ∷ "aks" ∷ []
    else []

-- the key of a kubeconfig in its secret
abbrev pub kubeconfig_secret_key_name : String → String
kubeconfig_secret_key_name provider =
    if provider == "capi" then "value" else if provider == "xplane" then "kubeconfig" else ""

insert_sorted : String → List String → List String
insert_sorted x [] = x ∷ []
insert_sorted x (y ∷ ys) = elim (compare x y) [
  | Ordering.gt ↦ y ∷ insert_sorted x ys
  | _ ↦ x ∷ y ∷ ys
]

-- sort.Strings
sort_strings : List String → List String
unfolding insert_sorted
sort_strings [] = []
sort_strings (x ∷ xs) = insert_sorted x (sort_strings xs)

-- ValidValues: the keys in order, between bars
unfoldable pub valid_values : List String → String
unfolding sort_strings join
valid_values keys = join "|" (sort_strings keys)

abbrev pub err_invalid_api_provider : Error
err_invalid_api_provider = message (
    sprint ("invalid api provider, the valid values are: " ∷ valid_values valid_api_providers ∷ []))

abbrev pub err_invalid_cloud_provider : Error
err_invalid_cloud_provider = message (
    sprint
      ("invalid cloud provider, the valid values are: " ∷ valid_values valid_cloud_providers ∷ []))

unfoldable pub valid_api_provider : String → Result (Unit {0})
valid_api_provider p =
    if contains p valid_api_providers then ok tt else err err_invalid_api_provider

unfoldable pub valid_cloud_and_type : String → String → Result (Unit {0})
valid_cloud_and_type cloud type =
    if contains cloud valid_cloud_providers
    then if contains type (valid_cluster_types cloud)
      then ok tt
      else err (
          message (
            sprint (
              "invalid cluster type, the valid values are: "
              ∷ valid_values (valid_cluster_types cloud)
              ∷ [])))
    else err err_invalid_cloud_provider

-- ClusterAutoscalerSubchartNameFromApiProvider
unfoldable pub autoscaler_subchart_name : String → String
autoscaler_subchart_name provider = sprint (provider ∷ "-cluster-autoscaler" ∷ [])

module _ (aws_regions : List String) where
  -- a provider that the map lacks has no regions
  abbrev pub valid_regions : String → List String
  valid_regions provider = if provider == "aws" then aws_regions else []

  unfoldable pub validate_region : String → String → Result (Unit {0})
  validate_region provider region =
      if contains region (valid_regions provider)
      then ok tt
      else err (
          message (
            sprint (
              "invalid region "
              ∷ region
              ∷ " for "
              ∷ provider
              ∷ ", valid values are: ["
              ∷ join " " (valid_regions provider)
              ∷ "]"
              ∷ [])))

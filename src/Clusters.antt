-- ===== src/Clusters.antt =====
-- pkg/cluster: the ArgoCD applications of a cluster, and its directory in git.
pub mod RootApp
pub mod ClusterApp
pub mod Overrides
pub mod Deploy
pub mod Queries
pub mod ProfileApps
pub mod External
pub mod Managed
pub mod Update
pub mod Paths
pub mod Create
pub mod Applications
pub mod Directory
pub mod Manifest
mod Tests
use karlon.Base.{String}

abbrev pub base_cluster_name_annotation : String
base_cluster_name_annotation = "kkarlon.io/basecluster-name"

abbrev pub base_cluster_repo_url_annotation : String
base_cluster_repo_url_annotation = "kkarlon.io/basecluster-repo-url"

abbrev pub base_cluster_repo_revision_annotation : String
base_cluster_repo_revision_annotation = "kkarlon.io/basecluster-repo-revision"

abbrev pub base_cluster_repo_path_annotation : String
base_cluster_repo_path_annotation = "kkarlon.io/basecluster-repo-path"

abbrev pub base_cluster_overridden : String
base_cluster_overridden = "kkarlon.io/basecluster-overridden"

-- ===== src/Git/BundleApps.antt =====
-- pkg/gitutils/bundles.go: the files of the bundles of a cluster or of a profile in a work tree.
use karlon.Base.{◌==◌, ◌!=◌, String, none, some, List, [], ◌∷◌, if◌then◌else◌}
use karlon.Base.Dict.{Dict, lookup}
use karlon.Base.Path.{join_path}
use karlon.Base.Result.{Error, message}
use karlon.Base.Text.{sprint}
use karlon.Services.{Api, file_make_dirs, file_create, file_write}
use karlon.Services.Exec.{Exec, ◌>>=◌, ◌>>◌, pure, return_now, perform, must}
use karlon.Bundles.{Bundle}

-- common.KVPair and common.KVPairMap; a nil map reads as an empty one
pub record KvPair : Type 0 where
  pub key : String
  pub value : String

abbrev pub KvPairMap : Type 0
KvPairMap = Dict (List KvPair)

-- `m[k]` of such a map: a nil slice where the key is missing
unfoldable pub pairs_of : String → KvPairMap → List KvPair
pairs_of key m = elim (lookup key m) [ none ↦ [] | some ps ↦ ps ]

pub record AppSettings : Type 0 where
  pub app_name : String
  pub cluster_name : String
  pub repo_url : String
  pub repo_path : String
  pub repo_revision : String
  pub src_type : String
  pub app_namespace : String
  pub destination_namespace : String
  pub overrides : List KvPair

-- `{{- range .Overrides }}` of appTmpl
unfoldable pub render_overrides : List KvPair → String
render_overrides [] = ""
render_overrides (o ∷ os) =
    sprint ("\n      - name: " ∷ o.key ∷ "\n        value: " ∷ o.value ∷ render_overrides os ∷ [])

-- the part of appTmpl for the type of the source
unfoldable pub render_source : AppSettings → String
render_source app =
    if app.src_type == "helm"
    then sprint (
        "\n    helm:\n      parameters:"
        ∷ "\n      # Pass cluster name to the bundle in case it needs it and is a Helm chart."
        ∷ "\n      # Example: this is required by the CAPI cluster autoscaler."
        ∷ "\n      # Use kkarlon prefix to avoid any conflicts with the bundle's own values."
        ∷ "\n      - name: kkarlon.clusterName\n        value: "
        ∷ app.cluster_name
        ∷ render_overrides app.overrides
        ∷ [])
    else if app.src_type == "kustomize"
    then "\n    kustomize: {}"
    else if app.src_type == "ksonnet"
    then "\n    ksonnet: {}"
    else if app.src_type == "directory"
    then "\n    directory: {}"
    else ""

-- appTmpl, executed on the settings
unfoldable pub render_app : AppSettings → String
render_app app = sprint (
    "\napiVersion: argoproj.io/v1alpha1\nkind: Application\nmetadata:\n  name: "
    ∷ app.app_name
    ∷ "\n  namespace: "
    ∷ app.app_namespace
    ∷ "\n  finalizers:\n  # This solves issue #17"
    ∷ "\n  - resources-finalizer.argocd.argoproj.io/foreground"
    ∷ "\nspec:\n  syncPolicy:\n    automated:\n      prune: true\n  destination:\n    name: "
    ∷ app.cluster_name
    ∷ "\n    namespace: "
    ∷ app.destination_namespace
    ∷ "\n  project: default\n  source:\n    repoURL: "
    ∷ app.repo_url
    ∷ "\n    path: "
    ∷ app.repo_path
    ∷ "\n    targetRevision: "
    ∷ app.repo_revision
    ∷ render_source app
    ∷ "\n"
    ∷ [])

-- the settings before the source is known
unfoldable pub settings_for : String → Bundle → AppSettings
settings_for cluster_name b = record {
  app_name = sprint (cluster_name ∷ "-" ∷ b.name ∷ []);
  cluster_name = cluster_name;
  repo_url = "";
  repo_path = "";
  repo_revision = if b.repo_revision == "" then "HEAD" else b.repo_revision;
  src_type = "";
  app_namespace = "argocd";
  destination_namespace = "default";
  overrides = [];
}

abbrev pub file_name : Bundle → String
file_name b = sprint (b.name ∷ ".yaml" ∷ [])

module _ {api : Api} where
  -- the file of a static bundle
  unfoldable pub write_manifest : String → String → Bundle → String → Exec api Error (Unit {0})
  write_manifest dir workload_path b manifest = do
    let dir_path = join_path (workload_path ∷ b.name ∷ [])
    made ← perform (file_make_dirs dir dir_path)
    must "failed to create directory in working tree" made
    let bundle_path = join_path (dir_path ∷ file_name b ∷ [])
    created ← perform (file_create dir bundle_path)
    must "failed to create file in working tree" created
    copied ← perform (file_write dir bundle_path manifest)
    must (sprint ("failed to copy static b " ∷ b.name ∷ [])) copied

  -- where the application of a bundle takes its manifests from
  unfoldable pub locate_bundle :
      String → String → String → String → Bundle → KvPairMap → Exec api Error AppSettings
  locate_bundle dir cluster_name repo_url workload_path b overrides = elim b.content [
    | none ↦
        if b.repo_url == ""
        then return_now
            (message (sprint ("b " ∷ b.name ∷ " is neither static nor dynamic type" ∷ [])))
        else pure (record (settings_for cluster_name b) {
          repo_url = b.repo_url;
          repo_path = b.repo_path;
          src_type = b.src_type;
          overrides = pairs_of b.name overrides;
        })
    | some manifest ↦
        if b.repo_url != ""
        then return_now (message (sprint ("b " ∷ b.name ∷ " has both data and repoUrl set" ∷ [])))
        else (do
          write_manifest dir workload_path b manifest
          pure (record (settings_for cluster_name b) {
            repo_url = repo_url;
            repo_path = join_path (workload_path ∷ b.name ∷ []);
          }))
  ]

  -- a round of the loop
  unfoldable pub process_bundle :
      String → String → String → String → String → Bundle → KvPairMap → Exec api Error (Unit {0})
  process_bundle dir cluster_name repo_url mgmt_path workload_path b overrides = do
    app ← locate_bundle dir cluster_name repo_url workload_path b overrides
    let app_path = join_path (mgmt_path ∷ "templates" ∷ file_name b ∷ [])
    created ← perform (file_create dir app_path)
    must (sprint ("failed to create application file " ∷ app_path ∷ [])) created
    rendered ← perform (file_write dir app_path (render_app app))
    must (sprint ("failed to render application template " ∷ app_path ∷ [])) rendered

  -- ProcessBundles
  unfoldable pub process_bundles :
      String
      → String
      → String
      → String
      → String
      → List Bundle
      → KvPairMap
      → Exec api Error (Unit {0})
  process_bundles dir cluster_name repo_url mgmt_path workload_path [] overrides = pure tt
  process_bundles dir cluster_name repo_url mgmt_path workload_path (b ∷ bs) overrides = do
    process_bundle dir cluster_name repo_url mgmt_path workload_path b overrides
    process_bundles dir cluster_name repo_url mgmt_path workload_path bs overrides

-- ===== src/Cli/Tests.antt =====
-- Commands at concrete inputs.
use karlon.Base.{◌≡◌, refl, true, false, String, none, some, [], ◌∷◌, All, find_first}
use karlon.Base.Dict.{get, insert, lookup}
use karlon.Base.Number.{pos}
use karlon.Base.Result.{Result, ok, err, message, is_not_found}
use karlon.Base.Text.{split, prepend}
use karlon.Base.Yaml.{Yaml}
use karlon.Bundles.Api.{Source, create}
use karlon.Cli.Clusters.{CreateFlags, create_cluster_command, update_external}
use karlon.Cli.Columns.{profiles_naming, column_lem}
use karlon.Cli.Effects.{
  WritesUndumpable, created_bundle_undumpable, is_refused, patched, IsUnmarked,
  missing_profile_unmanages, IsCreated, create_cluster_command-IsCreated,
}
use karlon.Cli.Profiles.{process_overrides}
use karlon.Cli.Tables.{names_at, add_apps, app_to_prof}
use karlon.Clusters.Manifest.{generate_cluster_manifest, marshal_all, manifest_resources}
use karlon.Repos.CommitPush.{commit_and_push_file, commit_file, push_file}
use karlon.Clusters.External.{check_managed, detach, unmanage_external}
use karlon.Clusters.Queries.{KarlonCluster, external_cluster, get_cluster}
use karlon.Objects.{AppProfile, Secret}
use karlon.Profiles.Api.{get_profile, get_profile_config_map}
use karlon.Repos.{RepoCtxCfg}
use karlon.Services.{Call, Answer, State, Libraries, Entries, read_file, secret_list, secret_get}
use karlon.Services.Exec.{go}
use karlon.Services.Quiet.{quiet, fixed}

abbrev start : {answers : (c : Call) → Answer c} → State (fixed answers)
start = record { world = tt; calls = [] }

two_overrides :
    process_overrides ("b1,size,3" ∷ "b2,name,a" ∷ [])
    ≡ ok (
        record { bundle = "b1"; key = "size"; value = "3" }
        ∷ record { bundle = "b2"; key = "name"; value = "a" }
        ∷ [])
unfolding process_overrides split prepend
two_overrides = refl

abbrev source : Source
source = record {
  from_file = "web.yaml";
  repo_url = "";
  repo_path = "";
  repo_revision = "";
  src_type = "";
}

abbrev with_file : (c : Call) → Answer c
with_file (read_file path) = ok "kind: Pod"
with_file c = quiet c

created_bundle_undumpable_example :
    All
      (WritesUndumpable "kkarlon" "copy")
      (create {api = fixed with_file} "kkarlon" "web" source "" "" start).1.calls
created_bundle_undumpable_example =
    created_bundle_undumpable {api = fixed with_file} "kkarlon" "copy" "kkarlon" "web" "" "" source
      start tt

abbrev marshal : Yaml → Result String
marshal value = ok "resource"

abbrev unmarshal : String → Result RepoCtxCfg
unmarshal s = err (message "no JSON")

abbrev flags : CreateFlags
flags = record {
  repo_url = "https://git/main";
  repo_alias = "";
  repo_revision = "";
  repo_path = "";
  cluster_name = "edge";
  namespace = "team-a";
  k8s_version = "1.32.0";
  replicas = pos 3;
  output_yaml = false;
}

create_cluster_command-IsCreated_example :
    IsCreated marshal unmarshal {api = fixed quiet} flags start
      (create_cluster_command marshal unmarshal {api = fixed quiet} flags start)
create_cluster_command-IsCreated_example =
    create_cluster_command-IsCreated marshal unmarshal {api = fixed quiet} flags start

abbrev libraries : Libraries
libraries = record {
  foreground_finalizer = "resources-finalizer.argocd.argoproj.io";
  marshal = λ k. ok "kustomization";
  parse = λ text. ok text;
  execute = λ text. ok text;
  cluster_manifests = Entries.end;
}

abbrev edge : KarlonCluster
edge = record {
  name = "edge";
  cluster_spec_name = "";
  base_cluster = none;
  profile_name = "web";
  is_external = true;
  secret_name = "edge-secret";
  app_profiles = [];
}

abbrev edge_secret : Secret
edge_secret = record {
  meta = record {
    name = "edge-secret";
    namespace = "argocd";
    labels = ("kkarlon.io/cluster-type", "external") ∷ [];
    annotations =
        some (("kkarlon.io/profile", "web") ∷ ("kkarlon.io/profile-app", "edge-profile-web") ∷ []);
    finalizers = [];
    deleting = false;
  };
  content = ("name", "edge") ∷ [];
}

abbrev with_edge : (c : Call) → Answer c
with_edge (secret_list ns selector) = ok (edge_secret ∷ [])
with_edge (secret_get ns name) = ok edge_secret
with_edge c = quiet c

edge_unmanaged : (unmanage_external {api = fixed with_edge} "argocd" "edge" start).0 ≡ go tt
unfolding unmanage_external get_cluster external_cluster check_managed detach find_first get lookup
edge_unmanaged = refl

no_dbs :
    is_refused (
      get_profile {api = fixed with_edge} "dbs" "kkarlon"
        (unmanage_external {api = fixed with_edge} "argocd" "edge" start).1)
    ≡ true
unfolding get_profile get_profile_config_map is_not_found
no_dbs = refl

missing_profile_unmanages_example :
    (is_refused (
        update_external libraries {api = fixed with_edge} "argocd" "kkarlon" "edge" "" "dbs" edge
          start)
      ≡ true)
    × IsUnmarked (
        patched
          (update_external libraries {api = fixed with_edge} "argocd" "kkarlon" "edge" "" "dbs" edge
            start).1.calls)
missing_profile_unmanages_example =
    missing_profile_unmanages libraries {api = fixed with_edge} "argocd" "kkarlon" "edge" "dbs" edge
      start refl refl edge_unmanaged no_dbs

abbrev web_profile : AppProfile
web_profile = record {
  name = "web";
  app_names = "nginx" ∷ "redis" ∷ [];
  health = "healthy";
  invalid_app_names = [];
}

abbrev edge_profile : AppProfile
edge_profile = record {
  name = "edge";
  app_names = "redis" ∷ [];
  health = "healthy";
  invalid_app_names = [];
}

redis_column :
    names_at "redis" (app_to_prof (web_profile ∷ edge_profile ∷ []) []) ≡ "web" ∷ "edge" ∷ []
unfolding names_at app_to_prof add_apps insert lookup
redis_column = refl

column_lem_example :
    names_at "redis" (app_to_prof (web_profile ∷ edge_profile ∷ []) [])
    ≡ profiles_naming "redis" (web_profile ∷ edge_profile ∷ [])
column_lem_example = column_lem "redis" (web_profile ∷ edge_profile ∷ [])

-- the run of the creation ends with the manifest in git
edge_created :
    (create_cluster_command marshal unmarshal {api = fixed quiet} flags start).0 ≡ go none
unfolding create_cluster_command generate_cluster_manifest marshal_all manifest_resources
    commit_and_push_file commit_file push_file
edge_created = refl

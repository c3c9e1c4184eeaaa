-- ===== src/AppProfile/Tests.antt =====
-- Runs of the app profile reconciliation, and its theorems at concrete inputs.
use karlon.Base.{
  ◌≡◌, ◌⊎◌, ◌&&◌, arith, subst, eq_iff, eq_refl, refl, true, false, ◌==◌, String, Option, none,
  some, List, [], ◌∷◌, contains, if◌then◌else◌,
}
use karlon.Base.Dict.{Dict, lookup, insert, get}
use karlon.Base.Sets.{add, add_all, equal_sets, is_subset}
use karlon.Base.Text.{prepend, split, sprint}
use karlon.Base.Result.{ok}
use karlon.Objects.{AppProfile, Application, ApplicationSet, ArgoCluster}
use karlon.Services.{
  Call, Answer, State, app_profile_status_update, app_profile_list, argo_cluster_list,
  application_list, app_set_list, app_set_update, argo_cluster_update,
}
use karlon.Services.Quiet.{quiet, fixed}
use karlon.AppProfile.{by_name, reconcile_everything, reconcile_all}
use karlon.AppProfile.Clusters.{
  SetMap, Maps, set_of, effective, annotation_of, reconcile_cluster, reconcile_clusters,
  add_to_each, update_profile_map,
}
use karlon.AppProfile.Profiles.{
  assessed, scan_apps, reconcile_profile, reconcile_profiles, deploy, invalid_names,
}
use karlon.AppProfile.Apps.{Fields, element, listed, reconcile_app, reconcile_apps, cluster_names}
use karlon.AppProfile.Deployed.{any, uses}
use karlon.AppProfile.Annotations.{IsMirror, cluster_mirrors}
use karlon.AppProfile.Statuses.{IsShown, IsAssessed, reconcile_profile_shows}
use karlon.AppProfile.Settled.{fields_of, rewritten, app_clusters}

abbrev edge_app : Application
edge_app = record {
  meta = record {
    name = "edge";
    namespace = "argocd";
    labels = [];
    annotations = some (("kkarlon.io/profiles", "web") ∷ []);
    finalizers = [];
    deleting = false;
  };
  repo_url = "repo";
  path = "clusters/edge";
  target_revision = "main";
  helm_parameters = [];
  name_prefix = "";
  server = "in-cluster";
  destination_namespace = "edge";
  ignore_differences = [];
  sync_options = [];
  prune = true;
}

abbrev edge : ArgoCluster
edge = record { name = "edge"; server = "https://edge"; annotations = none }

abbrev web : AppProfile
web = record {
  name = "web";
  app_names = "nginx" ∷ "ghost" ∷ [];
  health = "";
  invalid_app_names = [];
}

abbrev nginx : ApplicationSet
nginx = record { name = "nginx"; labels = []; generators = some [] ∷ [] }

abbrev web_map : SetMap
web_map = ("web", "edge" ∷ []) ∷ []

abbrev nginx_map : SetMap
nginx_map = ("nginx", "edge" ∷ []) ∷ []

abbrev servers : Dict String
servers = ("edge", "https://edge") ∷ []

abbrev no_maps : Maps
no_maps = record { profile_to_clusters = []; name_to_server = [] }

abbrev start : State (fixed quiet)
start = record { world = tt; calls = [] }

-- a decoder that knows one element
abbrev decode_edge : String → Option Fields
decode_edge raw = if raw == element servers "edge" then some (fields_of servers "edge") else none

abbrev populated : (c : Call) → Answer c
populated argo_cluster_list = ok (edge ∷ [])
populated (application_list selector) = ok (edge_app ∷ [])
populated (app_set_list ns selector) = ok (nginx ∷ [])
populated app_profile_list = ok (web ∷ [])
populated c = quiet c

written : List Call → List Call
written [] = []
written (argo_cluster_update c ∷ calls) = argo_cluster_update c ∷ written calls
written (app_profile_status_update p ∷ calls) = app_profile_status_update p ∷ written calls
written (app_set_update a ∷ calls) = app_set_update a ∷ written calls
written (_ ∷ calls) = written calls

-- a full run writes the cluster's annotation, the profile's status and the app's elements
everything :
    written
      (reconcile_everything decode_edge {api = fixed populated}
        (record { world = tt; calls = [] })).1.calls
    ≡ app_set_update (rewritten servers ("edge" ∷ []) nginx)
      ∷ app_profile_status_update
          (record web { health = "degraded"; invalid_app_names = "ghost" ∷ [] })
      ∷ argo_cluster_update
          (record edge { annotations = some (("kkarlon.io/profiles", "web") ∷ []) })
      ∷ []
unfolding written reconcile_everything reconcile_all reconcile_clusters reconcile_cluster lookup
    by_name insert get reconcile_profiles reconcile_profile equal_sets add_all scan_apps contains
    add reconcile_apps reconcile_app set_of cluster_names element listed add_to_each
    update_profile_map assessed deploy invalid_names is_subset prepend split sprint
everything = refl

app_clusters_example :
    contains "edge" (set_of "nginx" nginx_map)
    ≡ any
        (λ (prof : AppProfile).
          contains "nginx" ("nginx" ∷ [])
          && contains "nginx" prof.app_names
          && any (uses (by_name (edge_app ∷ []) []) prof.name "edge") (edge ∷ []))
        (web ∷ [])
unfolding reconcile_clusters reconcile_profiles reconcile_cluster lookup by_name insert get
    update_profile_map split prepend add contains reconcile_profile equal_sets add_all scan_apps
    deploy
app_clusters_example =
    app_clusters {api = fixed quiet} (edge_app ∷ []) (edge ∷ [])
      (record { profile_to_clusters = web_map; name_to_server = servers }) ("nginx" ∷ []) (web ∷ [])
      nginx_map start (reconcile_clusters (by_name (edge_app ∷ []) []) (edge ∷ []) no_maps start).1
      (reconcile_profiles ("nginx" ∷ []) web_map (web ∷ []) []
        (reconcile_clusters (by_name (edge_app ∷ []) []) (edge ∷ []) no_maps start).1).1
      "nginx" "edge" refl refl

cluster_mirrors_example :
    ((annotation_of edge.annotations ≡ effective (("edge", edge_app) ∷ []) edge)
      × ((reconcile_cluster (("edge", edge_app) ∷ []) edge no_maps start).1.calls ≡ []))
    ⊎ ((call : Call) × IsMirror (effective (("edge", edge_app) ∷ []) edge) edge call
        × ((reconcile_cluster (("edge", edge_app) ∷ []) edge no_maps start).1.calls ≡ call ∷ []))
cluster_mirrors_example =
    cluster_mirrors {api = fixed quiet} (("edge", edge_app) ∷ []) edge no_maps start

reconcile_profile_shows_example :
    (IsAssessed ("nginx" ∷ []) web
      × ((reconcile_profile ("nginx" ∷ []) web_map web [] start).1.calls ≡ []))
    ⊎ ((call : Call) × IsShown ("nginx" ∷ []) web call
        × ((reconcile_profile ("nginx" ∷ []) web_map web [] start).1.calls ≡ call ∷ []))
reconcile_profile_shows_example =
    reconcile_profile_shows {api = fixed quiet} ("nginx" ∷ []) web_map web [] start

decode_edge_reads :
    (name : String)
    → contains name (set_of "nginx" nginx_map) ≡ true
    → decode_edge (element servers name) ≡ some (fields_of servers name)
unfolding set_of contains lookup
decode_edge_reads name h =
    let same : "edge" ≡ name = ground (arith, eq_iff name "edge") in
    subst (λ n. decode_edge (element servers n) ≡ some (fields_of servers n)) same
      (rw (eq_refl (element servers "edge")))

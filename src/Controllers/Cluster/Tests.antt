-- ===== src/Controllers/Cluster/Tests.antt =====
-- Runs of the Cluster controller, and its theorems at concrete inputs.
use karlon.Base.{
  subst, arith, find_first, ◌≡◌, ◌≢◌, refl, inl, ◌==◌, true, false, none, some, [], ◌∷◌, All,
  if◌then◌else◌,
}
use karlon.Base.Dict.{lookup, get, or_empty}
use karlon.Base.Text.{sprint}
use karlon.Base.Result.{ok, err, message, is_ok}
use karlon.Objects.{Secret, Application, Cluster, OverrideSpec, RepoSpec}
use karlon.Services.{
  Entries, secret_list, Call, Answer, State, Libraries, cluster_get, application_get,
  application_create,
}
use karlon.Services.Exec.{go, outcome, ask}
use karlon.AppProfile.Clusters.{profiles_key}
use karlon.Services.Quiet.{quiet, fixed, no_application}
use karlon.Controllers.Reply.{done}
use karlon.Controllers.Cluster.{synced, ensure_apps, reconcile}
use karlon.Controllers.Cluster.Deletion.{reconcile_delete}
use karlon.Controllers.Cluster.States.{ClaimsNone, created_is_earned}
use karlon.Controllers.Cluster.Settling.{keeping, run, looked, with_notes, settles}
use karlon.Controllers.Cluster.Progress.{
  CreatesNone, PatchesNone, apps_need_template, finalizer_waits,
}
use karlon.Controllers.Cluster.Stuck.{
  DeletesNone, lost_app_stays_lost, NoneUnnamed, wiped_notes_block,
}
use karlon.Controllers.Cluster.Termination.{present, argocd, released_within, deletion_ends}

abbrev libraries : Libraries
libraries = record {
  foreground_finalizer = "resources-finalizer.argocd.argoproj.io/foreground";
  marshal = λ k. ok "resources:";
  parse = ok;
  execute = ok;
  cluster_manifests = Entries.end;
}

abbrev template : RepoSpec
template = record { url = "https://git/templates"; path = "eks"; revision = "main" }

abbrev override : OverrideSpec
override = record {
  patch = "spec: {}";
  repo = record { url = "https://git/overrides"; path = "overrides"; revision = "main" };
}

-- a cluster that was just made
abbrev fresh : Cluster
fresh = record {
  meta = record {
    name = "edge";
    namespace = "kkarlon";
    labels = [];
    annotations = some (("kkarlon.io/profiles", "web") ∷ []);
    finalizers = "cluster.core.kkarlon.io" ∷ [];
    deleting = false;
  };
  spec = record {
    cluster_template = template;
    override = some override;
    autoscaler = none;
    kkarlon_helm_chart = none;
  };
  status = record {
    state = "";
    inner_cluster_name = "";
    override_successful = false;
    message = "";
  };
}

-- and the same cluster with everything in place
abbrev ready : Cluster
ready = record fresh {
  status = record {
    state = "created";
    inner_cluster_name = "capi-eks";
    override_successful = true;
    message = "";
  };
}

abbrev app : Application
app = record {
  meta = record fresh.meta { namespace = "argocd"; finalizers = [] };
  repo_url = "https://git/overrides";
  path = "overrides/edge";
  target_revision = "main";
  helm_parameters = [];
  name_prefix = "edge-";
  server = "in-cluster";
  destination_namespace = "edge";
  ignore_differences = [];
  sync_options = [];
  prune = true;
}

-- a cluster app that has lost its annotations, and one registered repository
abbrev bare_app : Application
bare_app = record app { meta = record app.meta { annotations = none } }

abbrev with_fresh : (c : Call) → Answer c
with_fresh (cluster_get ns n) = ok fresh
with_fresh c = quiet c

-- ArgoCD knows the cluster app alone
abbrev with_app : (c : Call) → Answer c
with_app (application_get n) = if n == "edge" then ok app else err no_application
with_app c = quiet c

abbrev start : {answers : (c : Call) → Answer c} → State (fixed answers)
start = record { world = tt; calls = [] }

-- a prepared cluster that ArgoCD accepts no application for
abbrev pending : Cluster
pending = record ready { status = record ready.status { state = "override-created" } }

abbrev refusing : (c : Call) → Answer c
refusing (cluster_get ns n) = ok pending
refusing (application_create a) = if a.meta.name == "edge" then err no_application else ok a
refusing c = quiet c

edge_refused :
    (a : Application) (w : Unit {0})
    → (a.meta.name == "edge") ≡ true
    → is_ok (ask (fixed refusing) (application_create a) w) ≡ false
edge_refused a w h = ground arith

created_is_earned_example :
    All ClaimsNone
      (reconcile libraries "" "argocd" {api = fixed refusing} "kkarlon" "edge" start).1.calls
created_is_earned_example =
    created_is_earned libraries "" "argocd" {api = fixed refusing} pending (λ w. refl) edge_refused
      "kkarlon" "edge" start refl tt

apps_need_template_example :
    All CreatesNone
      (reconcile libraries "" "argocd" {api = fixed with_fresh} "kkarlon" "edge" start).1.calls
apps_need_template_example =
    apps_need_template libraries "" "argocd" {api = fixed with_fresh} "kkarlon" "edge" fresh start
      refl refl tt

-- an ArgoCD that holds the cluster app without its annotations
abbrev bare_start : State (keeping quiet app "edge")
bare_start = record { world = bare_app; calls = [] }

settles_example :
    (get profiles_key
        (or_empty (run libraries "" "argocd" quiet app ready bare_start).1.world.meta.annotations)
      ≡ "web")
    × ((run libraries "" "argocd" quiet app ready bare_start).1.world
        ≡ with_notes bare_app
            (run libraries "" "argocd" quiet app ready bare_start).1.world.meta.annotations)
    × (run libraries "" "argocd" quiet app ready
          (run libraries "" "argocd" quiet app ready bare_start).1
        ≡ (
          go done,
          looked libraries "" "argocd" quiet app ready
              (run libraries "" "argocd" quiet app ready bare_start).1,
        ))
unfolding get lookup
settles_example = settles libraries "" "argocd" quiet app ready bare_start refl refl

finalizer_waits_example :
    All PatchesNone (reconcile_delete "argocd" {api = fixed with_app} ready start).1.calls
finalizer_waits_example =
    finalizer_waits "argocd" {api = fixed with_app} ready app start (inl refl) tt

lost_app_stays_lost_example :
    All CreatesNone (ensure_apps libraries "" "argocd" {api = fixed with_app} ready start).1.calls
    × (outcome (ensure_apps libraries "" "argocd" {api = fixed with_app} ready start).0 ≢ done)
unfolding sprint
lost_app_stays_lost_example =
    lost_app_stays_lost libraries "" "argocd" {api = fixed with_app} ready app no_application start
      refl (λ w. refl) tt

abbrev repository : Secret
repository = record { meta = fresh.meta; content = ("url", "https://git/overrides") ∷ [] }

abbrev with_bare_app : (c : Call) → Answer c
with_bare_app (application_get n) = ok bare_app
with_bare_app (secret_list ns selector) = ok (repository ∷ [])
with_bare_app c = quiet c

none_unnamed : NoneUnnamed "argocd" (fixed with_bare_app)
unfolding find_first get lookup
none_unnamed w secrets listed =
    let same : repository ∷ [] ≡ secrets = ground arith in
    subst (λ ss. find_first (λ (secret : Secret). "" == get "url" secret.content) ss ≡ none) same
      refl

wiped_notes_block_example :
    All DeletesNone (reconcile_delete "argocd" {api = fixed with_bare_app} ready start).1.calls
    × (outcome (reconcile_delete "argocd" {api = fixed with_bare_app} ready start).0 ≢ done)
unfolding synced
wiped_notes_block_example =
    wiped_notes_block "argocd" {api = fixed with_bare_app} ready bare_app (some []) start refl refl
      refl none_unnamed tt

abbrev plain : Cluster
plain = record ready { spec = record ready.spec { override = none } }

-- both applications are there, and ArgoCD takes three look-ups to let one go
abbrev both_present : State (argocd 3 app plain)
both_present = record {
  world = record { cluster_app = present; kkarlon_app = present };
  calls = [];
}

deletion_ends_example : released_within 3 app plain "argocd" 11 both_present ≡ true
deletion_ends_example = deletion_ends 3 app plain "argocd" 10 both_present refl (omega arith)

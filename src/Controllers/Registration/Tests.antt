-- ===== src/Controllers/Registration/Tests.antt =====
-- Runs of the ClusterRegistration controller, and its theorems at concrete inputs.
use karlon.Base.{◌≡◌, refl, inl, true, false, none, [], ◌∷◌, All, contains}
use karlon.Base.Dict.{lookup}
use karlon.Base.Result.{err, ok}
use karlon.Objects.{ClusterRegistration, Secret, ArgoCluster}
use karlon.Services.{
  Call, Answer, State, registration_get, registration_helper, secret_get, argo_cluster_get,
  argo_cluster_delete,
}
use karlon.Services.Exec.{outcome}
use karlon.Services.Quiet.{quiet, fixed, no_application}
use karlon.Controllers.Reply.{done}
use karlon.Controllers.Registration.{
  finalizer, update_state, reconcile_delete, register, reconcile_present, reconcile,
}
use karlon.Controllers.Registration.Finalizer.{
  CreatesNone, CreatesAs, KeepsFinalizer, LooksFor, create_needs_finalizer, finalizer_guards,
  unnamed_mismatch,
}

abbrev edge : ClusterRegistration
edge = record {
  meta = record {
    name = "edge";
    namespace = "kkarlon";
    labels = [];
    annotations = none;
    finalizers = "other" ∷ finalizer ∷ [];
    deleting = false;
  };
  spec = record {
    cluster_name = "edge-1";
    kubeconfig_secret_name = "edge-kubeconfig";
    kubeconfig_secret_key_name = "value";
  };
  status = record { state = ""; message = "" };
}

abbrev bare : ClusterRegistration
bare = record edge { meta = record edge.meta { finalizers = [] } }

abbrev complete : ClusterRegistration
complete = record edge { status = record { state = "complete"; message = "" } }

abbrev unnamed : ClusterRegistration
unnamed = record edge { spec = record edge.spec { cluster_name = "" } }

abbrev kubeconfig : Secret
kubeconfig = record { meta = edge.meta; content = ("value", "config") ∷ [] }

abbrev edge_1 : ArgoCluster
edge_1 = record { name = "edge-1"; server = "https://edge"; annotations = none }

-- a service that holds one registration and its secret
abbrev holding : ClusterRegistration → (c : Call) → Answer c
holding cr (registration_get ns n) = ok cr
holding cr (secret_get ns n) = ok kubeconfig
holding cr c = quiet c

abbrev leaving : ClusterRegistration
leaving = record edge { meta = record edge.meta { deleting = true } }

-- a service that knows the cluster and refuses to delete it
abbrev stubborn : (c : Call) → Answer c
stubborn (registration_get ns n) = ok leaving
stubborn (argo_cluster_get n) = ok edge_1
stubborn (argo_cluster_delete n server) = err no_application
stubborn c = quiet c

abbrev start : {answers : (c : Call) → Answer c} → State (fixed answers)
start = record { world = tt; calls = [] }

registered : outcome (reconcile {api = fixed (holding edge)} "kkarlon" "edge" start).0 ≡ done
unfolding reconcile reconcile_present register update_state lookup contains
registered = refl

create_needs_finalizer_example :
    All CreatesNone (reconcile {api = fixed (holding bare)} "kkarlon" "edge" start).1.calls
unfolding contains
create_needs_finalizer_example =
    create_needs_finalizer {api = fixed (holding bare)} "kkarlon" "edge" bare start refl (inl refl)
      tt

finalizer_guards_example :
    All KeepsFinalizer (reconcile {api = fixed stubborn} "kkarlon" "edge" start).1.calls
finalizer_guards_example =
    finalizer_guards {api = fixed stubborn} "kkarlon" "edge" leaving start refl (λ w. refl)
      (λ server w. refl) tt

-- the run of the theorem asks for the deletion
deletion_asked :
    (reconcile {api = fixed stubborn} "kkarlon" "edge" start).1.calls
    ≡ argo_cluster_delete "edge-1" "https://edge"
      ∷ argo_cluster_get "edge-1"
      ∷ registration_helper "edge"
      ∷ registration_get "kkarlon" "edge"
      ∷ []
unfolding reconcile reconcile_delete
deletion_asked = refl

unnamed_mismatch_example :
    All (CreatesAs "edge") (register {api = fixed quiet} unnamed kubeconfig start).1.calls
    × All (LooksFor "") (reconcile_delete {api = fixed quiet} unnamed start).1.calls
unnamed_mismatch_example = unnamed_mismatch {api = fixed quiet} unnamed kubeconfig start refl refl

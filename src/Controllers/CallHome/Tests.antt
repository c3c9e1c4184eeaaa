-- ===== src/Controllers/CallHome/Tests.antt =====
-- Runs of the CallHomeConfig controller, and its theorems at concrete inputs.
use karlon.Base.{◌≡◌, refl, false, none, some, [], ◌∷◌, find_first, All}
use karlon.Base.Dict.{lookup, get}
use karlon.Base.Result.{ok, err, is_not_found}
use karlon.Objects.{CallHomeConfig, Secret}
use karlon.Services.{
  Call, Answer, State, call_home_get, secret_get, secret_list, remote_secret_create,
}
use karlon.Services.Exec.{outcome}
use karlon.Services.Quiet.{quiet, fixed, missing}
use karlon.Controllers.Reply.{done, again_in}
use karlon.Controllers.CallHome.{
  update_state, holds_token_of, deliver, find_token, reach_workload, reconcile, set_status,
  retry_later, retry_seconds,
}
use karlon.Controllers.CallHome.Token.{ClaimsNone, complete_is_earned}

abbrev autoscaler : CallHomeConfig
autoscaler = record {
  meta = record {
    name = "chc";
    namespace = "edge";
    labels = [];
    annotations = none;
    finalizers = [];
    deleting = false;
  };
  spec = record {
    service_account_name = "cas";
    kubeconfig_secret_name = "edge-kubeconfig";
    kubeconfig_secret_key_name = "value";
    target_namespace = "kube-system";
    target_secret_name = "management";
    target_secret_key_name = "kubeconfig";
    management_cluster_url = "https://mgmt";
  };
  status = record { state = ""; message = "" };
}

abbrev finished : CallHomeConfig
finished = set_status autoscaler "complete" ""

abbrev kubeconfig : Secret
kubeconfig = record { meta = autoscaler.meta; content = ("value", "config") ∷ [] }

abbrev token : Secret
token = record {
  meta = record autoscaler.meta {
    annotations = some (("kubernetes.io/service-account.name", "cas") ∷ []);
  };
  content = ("token", "t0k3n") ∷ ("ca.crt", "cert") ∷ [];
}

-- the services of a management cluster that holds the secrets
abbrev holding : CallHomeConfig → (c : Call) → Answer c
holding chc (call_home_get ns n) = ok chc
holding chc (secret_get ns n) = ok kubeconfig
holding chc (secret_list ns selector) = ok (kubeconfig ∷ token ∷ [])
holding chc c = quiet c

abbrev start : {answers : (c : Call) → Answer c} → State (fixed answers)
start = record { world = tt; calls = [] }

delivered : outcome (reconcile {api = fixed (holding autoscaler)} "edge" "chc" start).0 ≡ done
unfolding reconcile reach_workload find_token deliver update_state holds_token_of lookup get
    find_first is_not_found
delivered = refl

-- a workload cluster that refuses the creation
abbrev refusing : (c : Call) → Answer c
refusing (remote_secret_create client ns secret) = err missing
refusing c = holding autoscaler c

complete_is_earned_example :
    All ClaimsNone (reconcile {api = fixed refusing} "edge" "chc" start).1.calls
complete_is_earned_example =
    complete_is_earned {api = fixed refusing} autoscaler (λ client w. refl)
      (λ client kubeconfig w. refl) "edge" "chc" start refl tt

-- the run of the theorem asks for the creation
creation_refused :
    outcome (reconcile {api = fixed refusing} "edge" "chc" start).0 ≡ again_in retry_seconds
unfolding reconcile reach_workload find_token deliver retry_later update_state holds_token_of lookup
    get find_first is_not_found
creation_refused = refl

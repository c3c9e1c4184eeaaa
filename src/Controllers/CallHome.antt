-- ===== src/Controllers/CallHome.antt =====
-- pkg/controllers/callhomeconfig_controller.go: a kubeconfig for the management cluster is put into
-- a secret of the workload cluster. A present value of a secret may be empty, and then is not nil.
mod States
mod Token
mod Tests
use karlon.Base.{
  ℕ, Bool, true, false, ◌&&◌, ◌||◌, ◌==◌, String, Option, none, some, List, [], ◌∷◌, is_empty,
  find_first, if◌then◌else◌,
}
use karlon.Base.Dict.{lookup, get}
use karlon.Base.Text.{sprint}
use karlon.Base.Result.{Error, Result, ok, err, is_not_found, text}
use karlon.Objects.{Meta, CallHomeConfig, Status, Secret}
use karlon.Services.{
  Call, Api, State, call_home_get, call_home_status_update, secret_get, secret_list,
  service_account_get, rest_config, new_clientset, remote_secret_get, remote_secret_create,
  write_kubeconfig,
}
use karlon.Services.Exec.{Exec, Flow, stop, go, ◌>>=◌, ◌>>◌, pure, return_now, perform, or_else}
use karlon.Controllers.Reply.{Reply, done, again, again_in, failed}

abbrev pub retry_seconds : ℕ
retry_seconds = 10

abbrev pub set_status : CallHomeConfig → String → String → CallHomeConfig
set_status chc state msg = record chc { status = record { state = state; message = msg } }

-- a secret that belongs to the service account
holds_token_of : String → Secret → Bool
holds_token_of account secret = elim secret.meta.annotations [
  | none ↦ false
  | some a ↦ get "kubernetes.io/service-account.name" a == account
]

-- the secret that is created in the workload cluster; the API fills in the namespace
abbrev pub target_secret : CallHomeConfig → String → Secret
target_secret chc kubeconfig = record {
  meta = record {
    name = chc.spec.target_secret_name;
    namespace = "";
    labels = [];
    annotations = none;
    finalizers = [];
    deleting = false;
  };
  content = (chc.spec.target_secret_key_name, kubeconfig) ∷ [];
}

module _ {api : Api} where
  -- updateCallHomeConfigState: a status that is there already is not written again
  pub update_state : CallHomeConfig → String → String → Reply → Exec api Reply Reply
  update_state chc state msg result =
      if chc.status.state == state && chc.status.message == msg then pure result else do
        r ← perform (call_home_status_update (set_status chc state msg))
        or_else r (λ e. return_now (failed e))
        pure result

  pub retry_later : CallHomeConfig → String → String → String → Exec api Reply Reply
  retry_later chc kind name description =
      update_state chc "retrying"
        (sprint (kind ∷ " " ∷ name ∷ " " ∷ description ∷ ", retrying in 10 seconds" ∷ []))
        (again_in retry_seconds)

  -- the early returns that write a status
  pub give_up : {A : Type 0} → CallHomeConfig → String → Exec api Reply A
  unfolding update_state
  give_up chc msg = do r ← update_state chc "error" msg done; return_now r

  pub postpone : {A : Type 0} → CallHomeConfig → String → String → String → Exec api Reply A
  unfolding retry_later
  postpone chc kind name description = do r ← retry_later chc kind name description; return_now r

  -- the secret of the service account, with a token and a certificate, becomes the target secret
  pub deliver : String → CallHomeConfig → Secret → Exec api Reply Reply
  unfolding give_up postpone
  deliver client chc secret = do
    token ← elim (lookup "token" secret.content) [
      | none ↦ postpone chc "secret" chc.spec.service_account_name "does not have a token"
      | some t ↦
          if t == ""
          then postpone chc "secret" chc.spec.service_account_name "does not have a token"
          else pure t
    ]
    ca ← elim (lookup "ca.crt" secret.content) [
      | none ↦ give_up chc "token secret does not have ca.crt"
      | some c ↦ pure c
    ]
    written ← perform (write_kubeconfig chc.spec.management_cluster_url ca token)
    kubeconfig ←
        or_else written λ e. give_up chc (sprint ("failed to serialize kubeconfig: " ∷ text e ∷ []))
    created ←
        perform
          (remote_secret_create client chc.spec.target_namespace (target_secret chc kubeconfig))
    or_else created λ e.
        postpone chc "target secret" chc.spec.target_secret_name
          (sprint ("could not be created: " ∷ text e ∷ []))
    update_state chc "complete" "successfully created target secret" done

  -- the token of the service account, from the namespace's secrets
  pub find_token : String → String → CallHomeConfig → Exec api Reply Reply
  unfolding give_up postpone
  find_token ns client chc = do
    account ← perform (service_account_get ns chc.spec.service_account_name)
    or_else account λ e.
        if is_not_found e
        then postpone chc "serviceaccount" chc.spec.service_account_name "does not exist yet"
        else give_up chc (sprint ("unexpected error getting service account: " ∷ text e ∷ []))
    listed ← perform (secret_list ns "")
    secrets ← or_else listed λ e. postpone chc "namespace" ns "cannot list secrets"
    if is_empty secrets
        then postpone chc "secrets" ns "no secrets in the namespace"
        else elim (find_first (holds_token_of chc.spec.service_account_name) secrets) [
          | none ↦ postpone chc "secret" "" "containing service account token not found"
          | some secret ↦ deliver client chc secret
        ]

  -- a client of the workload cluster, and the target secret there
  pub reach_workload : String → CallHomeConfig → Secret → Exec api Reply Reply
  unfolding give_up postpone
  reach_workload ns chc secret = do
    let key = chc.spec.kubeconfig_secret_key_name
    kubeconfig ← elim (lookup key secret.content) [
      | none ↦ give_up chc (sprint ("secret subkey " ∷ key ∷ " does not exist" ∷ []))
      | some d ↦ pure d
    ]
    conf_or ← perform (rest_config kubeconfig)
    conf ←
        or_else conf_or
          λ e. give_up chc (sprint ("failed to read kubeconfig from secret: " ∷ text e ∷ []))
    client_or ← perform (new_clientset conf)
    client ←
        or_else client_or
          λ e. give_up chc (sprint ("failed to get clientset from config: " ∷ text e ∷ []))
    there ← perform (remote_secret_get client chc.spec.target_namespace chc.spec.target_secret_name)
    elim there [
      | ok target ↦ update_state chc "complete" "target secret already exists" done
      | err e ↦
          if is_not_found e
          then find_token ns client chc
          else postpone chc "target secret" chc.spec.target_secret_name
              "could not be queried, workload cluster probably still unavailable"
    ]

  pub reconcile : String → String → Exec api Reply Reply
  unfolding give_up postpone
  reconcile ns name = do
    got ← perform (call_home_get ns name)
    chc ← or_else got λ e. return_now (if is_not_found e then done else again)
    if chc.status.state == "complete" || chc.status.state == "error" then pure done else do
      read ← perform (secret_get ns chc.spec.kubeconfig_secret_name)
      secret ← or_else read λ e.
          if is_not_found e
          then postpone chc "kubeconfig secret" chc.spec.kubeconfig_secret_name "does not exist yet"
          else give_up chc (sprint ("failed to read secret: " ∷ text e ∷ []))
      reach_workload ns chc secret

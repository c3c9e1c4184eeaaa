-- ===== src/Controllers/CallHome/Token.antt =====
-- What reaches the workload cluster, and when a CallHomeConfig is complete.
use karlon.Base.{false, ◌==◌, ◌≡◌, arith, String, some, All}
use karlon.Base.Dict.{lookup}
use karlon.Base.Result.{ok, is_ok}
use karlon.Objects.{CallHomeConfig, Secret}
use karlon.Services.{
  Call, Api, State, call_home_status_update, remote_secret_get, remote_secret_create,
  write_kubeconfig, call_home_get,
}
use karlon.Services.Exec.{ask}
use karlon.Controllers.CallHome.{target_secret, deliver, find_token, reach_workload, reconcile}

abbrev pub IsDelivery : CallHomeConfig → Secret → Call → Type 0
IsDelivery chc secret (write_kubeconfig url ca token) =
    (url ≡ chc.spec.management_cluster_url)
    × (lookup "ca.crt" secret.content ≡ some ca)
    × (lookup "token" secret.content ≡ some token)
    × ((token == "") ≡ false)
IsDelivery chc secret (remote_secret_create client ns t) =
    (ns ≡ chc.spec.target_namespace) × (t.meta.name ≡ chc.spec.target_secret_name)
IsDelivery chc secret _ = Unit

-- no claim of completion
abbrev pub ClaimsNone : Call → Type 0
ClaimsNone (call_home_status_update c) = (c.status.state == "complete") ≡ false
ClaimsNone _ = Unit

module _ {api : Api} where
  -- Whatever the services answer, the kubeconfig that is written has the management cluster's
  -- URL and the certificate and the non-empty token of the given secret, and what is created is
  -- the target secret in the target namespace, if that holds of the calls before.
  pub deliver-IsDelivery :
      (client : String) (chc : CallHomeConfig) (secret : Secret) (s : State api)
      → All (IsDelivery chc secret) s.calls
      → All (IsDelivery chc secret) (deliver client chc secret s).1.calls
  unfolding deliver
  deliver-IsDelivery client chc secret s h = ground arith

module _ {api : Api} (chc : CallHomeConfig)
    (unseen : (client : String) (w : api.World)
      → is_ok (
          ask api
            (remote_secret_get client chc.spec.target_namespace chc.spec.target_secret_name)
            w)
        ≡ false)
    (refused : (client kubeconfig : String) (w : api.World)
      → is_ok (
          ask api
            (remote_secret_create client chc.spec.target_namespace (target_secret chc kubeconfig))
            w)
        ≡ false) where
  deliver-ClaimsNone :
      (client : String) (secret : Secret) (s : State api)
      → All ClaimsNone s.calls
      → All ClaimsNone (deliver client chc secret s).1.calls
  unfolding deliver
  deliver-ClaimsNone client secret s h = grind (arith, refused)

  find_token-ClaimsNone :
      (ns client : String) (s : State api)
      → All ClaimsNone s.calls
      → All ClaimsNone (find_token ns client chc s).1.calls
  unfolding find_token
  find_token-ClaimsNone ns client s h = grind (arith, deliver-ClaimsNone)

  reach_workload-ClaimsNone :
      (ns : String) (secret : Secret) (s : State api)
      → All ClaimsNone s.calls
      → All ClaimsNone (reach_workload ns chc secret s).1.calls
  unfolding reach_workload
  reach_workload-ClaimsNone ns secret s h = grind (arith, unseen, find_token-ClaimsNone)

  -- A reconciliation of a CallHomeConfig claims completion only if the workload cluster has the
  -- target secret: where no look-up of it under its name in the target namespace succeeds and
  -- every creation of it there fails, no status is written that says complete, whatever the
  -- other services answer, if none was written before.
  pub complete_is_earned :
      (ns name : String) (s : State api)
      → ask api (call_home_get ns name) s.world ≡ ok chc
      → All ClaimsNone s.calls
      → All ClaimsNone (reconcile ns name s).1.calls
  unfolding reconcile
  complete_is_earned ns name s got h = grind (arith, reach_workload-ClaimsNone)

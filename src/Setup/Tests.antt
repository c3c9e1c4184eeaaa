-- ===== src/Setup/Tests.antt =====
-- init at concrete inputs.
use karlon.Base.{arith, ◌≡◌, refl, Bool, true, false, String, List, [], ◌∷◌, if◌then◌else◌, All}
use karlon.Base.Result.{Error, Result, ok, message}
use karlon.Services.{deployment_get, config_map_get, Call, Answer, Pod, State, KubeObject}
use karlon.Services.Exec.{Exec, Flow, go, unless_stopped, ◌>>=◌, pure, return_now}
use karlon.Services.Quiet.{quiet, fixed}
use karlon.Setup.{
  begin_karlon_install, LocalConfig, InstallFiles, is_available, get_deployment_condition,
}
use karlon.Setup.Examples.{running_server, server_pod, contains_text, starts_with}
use karlon.Setup.Command.{set_up}
use karlon.Setup.Ready.{IsReady, karlon-IsReady}
use karlon.Setup.Half.{InstallsNone, half_installed_stays}

abbrev start : {answers : (c : Call) → Answer c} → State (fixed answers)
start = record { world = tt; calls = [] }

progressing :
    is_available
      (record { condition_type = "Progressing"; reason = "MinimumReplicasAvailable" } ∷ [])
    ≡ false
unfolding is_available get_deployment_condition
progressing = refl

abbrev pods : List Pod
pods =
    record { name = "argocd-server-1"; phase = "Pending" }
    ∷ record { name = "argocd-server-2"; phase = "Running" }
    ∷ []

second_pod :
    server_pod (record { name = "redis"; phase = "Running" }) pods
    ≡ record { name = "argocd-server-2"; phase = "Running" }
unfolding running_server contains_text starts_with
second_pod = refl

-- a poll that asks once
abbrev once : Exec (fixed quiet) Error Bool → Exec (fixed quiet) Error (Unit {0})
once condition = condition >>= λ done. if done then pure tt else return_now (message "timed out")

abbrev documents : String → List (Result KubeObject)
documents text = []

abbrev files : InstallFiles
files = record { crds = []; deployments = []; argocd_git_tag = "v2.4.18" }

abbrev marshal : LocalConfig → Result String
marshal config = ok config.context

half_installed_stays_example :
    All InstallsNone
      (set_up {api = fixed quiet} once documents files marshal "https://host" "linux" true
        start).1.calls
half_installed_stays_example =
    half_installed_stays {api = fixed quiet} once documents files (λ w. tt) (λ w. tt) marshal
      "https://host" "linux" true start tt

abbrev available : (c : Call) → Answer c
available (deployment_get ns name) =
    ok (record { condition_type = "Available"; reason = "MinimumReplicasAvailable" } ∷ [])
available (config_map_get ns name) =
    ok (record { name = name; labels = []; content = ("url", "https://argocd") ∷ [] })
available c = quiet c

abbrev poll_once : Exec (fixed available) Error Bool → Exec (fixed available) Error (Unit {0})
poll_once condition =
    condition >>= λ done. if done then pure tt else return_now (message "timed out")

asked_once :
    (r : Flow Error Bool × State (fixed available)) (t : State (fixed available))
    → unless_stopped r (λ done. if done then pure tt else return_now (message "timed out"))
      ≡ (go tt, t)
    → r ≡ (go true, t)
asked_once r t h = ground arith

karlon-IsReady_example : IsReady "kkkarlon" "kkkarlon-appprof-ctrlr" (
    begin_karlon_install {api = fixed available} poll_once documents files marshal "kkkarlon"
      "argocd" start)
karlon-IsReady_example =
    karlon-IsReady {api = fixed available} poll_once
      (λ condition s t h. (s, asked_once (condition s) t h)) documents files marshal "kkkarlon"
      "argocd" start

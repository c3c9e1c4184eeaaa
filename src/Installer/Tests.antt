-- ===== src/Installer/Tests.antt =====
-- The installer at concrete inputs.
use karlon.Base.{◌≡◌, refl, true, false, String, [], ◌∷◌, ◌==◌, if◌then◌else◌, All}
use karlon.Base.Result.{ok, err}
use karlon.Base.Text.{split, prepend}
use karlon.Services.{
  Call, Answer, State, look_path, run_command, namespace_get, get_env, ask_to_proceed,
}
use karlon.Services.Exec.{go}
use karlon.Services.Quiet.{quiet, fixed, missing}
use karlon.Installer.{aws_installer, ensure_requisites}
use karlon.Installer.Capi.{provider_name, install_capi}
use karlon.Installer.Prompts.{AsksNone, IsStopped, confirmed_run_is_silent, unknown_provider_stops}
use karlon.Installer.Requisites.{ends_well, ensure_requisites_lem}
use karlon.Installer.Tools.{install_argocd}
use karlon.Installer.Verify.{verify}
use karlon.Installer.Checks.{verify_lem, failed_download_installed}

abbrev start : {answers : (c : Call) → Answer c} → State (fixed answers)
start = record { world = tt; calls = [] }

confirmed_run_is_silent_example :
    All AsksNone
      (install_capi {api = fixed quiet} "" "" ("aws:v2.0.0" ∷ "docker" ∷ []) [] true start).1.calls
confirmed_run_is_silent_example =
    confirmed_run_is_silent {api = fixed quiet} "" "" ("aws:v2.0.0" ∷ "docker" ∷ []) [] start tt

gcp_unknown :
    IsStopped (install_capi {api = fixed quiet} "" "" ("docker" ∷ "gcp:v1" ∷ []) [] false start)
unfolding provider_name split prepend
gcp_unknown =
    unknown_provider_stops {api = fixed quiet} "" "" ("docker" ∷ "gcp:v1" ∷ []) [] false start refl
      tt

-- all variables but the session token, and a user who does not go on without it
abbrev no_token : String → String
no_token n = if n == "AWS_SESSION_TOKEN" then "" else "set"

abbrev without_token : (c : Call) → Answer c
without_token (get_env n) = no_token n
without_token (ask_to_proceed q) = false
without_token c = quiet c

ensure_requisites_lem_example :
    ends_well (ensure_requisites {api = fixed without_token} (aws_installer false) start) ≡ false
ensure_requisites_lem_example =
    ensure_requisites_lem {api = fixed without_token} no_token false (λ n w. refl) (λ q w. refl)
      false start

abbrev no_karlon : (c : Call) → Answer c
no_karlon (namespace_get n) = if n == "kkkarlon" then err missing else ok tt
no_karlon c = quiet c

karlon_missing : (verify {api = fixed no_karlon} start).0 ≡ go false
karlon_missing = verify_lem no_karlon start refl

abbrev nothing_downloads : (c : Call) → Answer c
nothing_downloads (look_path n) = if n == "curl" then ok tt else err missing
nothing_downloads (run_command args) = err missing
nothing_downloads c = quiet c

failure_unseen :
    (install_argocd {api = fixed nothing_downloads} "C:/argocd.exe" "windows" start).0 ≡ go tt
failure_unseen =
    failed_download_installed {api = fixed nothing_downloads} "C:/argocd.exe" start (λ w. refl)
      (λ w. refl) (λ w. refl)

-- ===== src/Installer.antt =====
-- pkg/install: what an infrastructure provider needs before clusterctl installs it, and how it is set up.
-- `flag.CommandLine.Parse` of no arguments cannot fail; os.Args is an argument of the call.
pub mod Calls
pub mod Capi
pub mod Prompts
pub mod Requisites
pub mod Tools
pub mod Verify
pub mod Checks
pub mod Command
mod Tests
use karlon.Base.{Bool, true, false, ◌==◌, String, Option, none, some, List, [], ◌∷◌, if◌then◌else◌}
use karlon.Base.Result.{Error, Result, ok, err, message}
use karlon.Base.Text.{sprint}
use karlon.Services.{
  Api, get_env, set_env, ask_to_proceed, run_aws_admin, aws_credentials, render_credentials,
}
use karlon.Services.Exec.{Exec, Flow, stop, go, ◌>>=◌, ◌>>◌, pure, return_now, perform, or_else}

-- an error of this package: an ErrBootstrap, with HardFail and its message, or another one
pub data Failure : Type 0 where
  err_bootstrap : Bool → String → Failure
  plain : Error → Failure

-- the implementations of InstallerService; the flag is `silence`
pub data Installer : Type 0 where
  aws_installer : Bool → Installer
  docker_installer : Installer

-- NewInstallerService
abbrev pub new_installer_service : String → Bool → Result Installer
new_installer_service provider silence =
    if provider == "aws"
    then ok (aws_installer silence)
    else if provider == "docker"
    then ok docker_installer
    else err (message "invalid provider")

-- an element of requiredEnvs
pub record RequiredEnv : Type 0 where
  pub name : String
  pub hard_fail : Bool
  pub msg : String

abbrev pub hard_env : String → RequiredEnv
hard_env name = record { name = name; hard_fail = true; msg = "" }

abbrev pub required_envs : List RequiredEnv
required_envs =
    hard_env "AWS_REGION"
    ∷ hard_env "AWS_ACCESS_KEY_ID"
    ∷ hard_env "AWS_SECRET_ACCESS_KEY"
    ∷ record {
      name = "AWS_SESSION_TOKEN";
      hard_fail = false;
      msg = "AWS_SESSION_TOKEN environment variable not set. MFA enabled accounts will not work.";
    }
    ∷ hard_env "AWS_SSH_KEY_NAME"
    ∷ hard_env "AWS_CONTROL_PLANE_MACHINE_TYPE"
    ∷ hard_env "AWS_NODE_MACHINE_TYPE"
    ∷ []

abbrev pub not_set : String → Failure
not_set name = err_bootstrap true (sprint (name ∷ " environment variable not set" ∷ []))

-- the error of a function that was called, if it had one
abbrev pub failure_of : Flow Failure (Unit {0}) → Option Failure
failure_of (stop f) = some f
failure_of (go x) = none

module _ {api : Api} where
  abbrev pub caught : {R : Type 0} → Exec api Failure (Unit {0}) → Exec api R (Option Failure)
  caught m s = let (f, after) = m s in (go (failure_of f), after)

  -- recoverOnFail
  unfoldable pub recover_on_fail : Bool → String → Exec api Failure Bool
  recover_on_fail silence msg =
      if silence
      then pure true
      else perform (ask_to_proceed (sprint (msg ∷ ". Continue?[y/n]" ∷ [])))

  -- one round of the loop of EnsureRequisites, for a variable that is not set
  unfoldable pub unset_env : Bool → RequiredEnv → Exec api Failure (Unit {0})
  unset_env silence env =
      if env.hard_fail then return_now (not_set env.name) else if silence then pure tt else (do
        proceed ← recover_on_fail silence env.msg
        if proceed then pure tt else return_now (not_set env.name))

  unfoldable pub ensure_envs : Bool → List RequiredEnv → Exec api Failure (Unit {0})
  ensure_envs silence [] = pure tt
  ensure_envs silence (env ∷ envs) = do
    val ← perform (get_env env.name)
    if val == "" then unset_env silence env else pure tt
    ensure_envs silence envs

  -- EnsureRequisites
  unfoldable pub ensure_requisites : Installer → Exec api Failure (Unit {0})
  ensure_requisites (aws_installer silence) = ensure_envs silence required_envs
  ensure_requisites docker_installer = pure tt

  -- Bootstrap of the installer for AWS
  unfoldable pub bootstrap_aws : Bool → Exec api Failure (Unit {0})
  bootstrap_aws silence = do
    enabled ← perform (set_env "EXP_MACHINE_POOL" "true")
    or_else enabled λ e. return_now (
        err_bootstrap true
          "Cannot enable AWS machine pool feature gate. Cannot set environment variable EXP_MACHINE_POOL to true")
    created ←
        perform (
          run_aws_admin
            ("clusterawsadm" ∷ "bootstrap" ∷ "iam" ∷ "create-cloudformation-stack" ∷ []))
    or_else created λ e. (do
      proceed ←
          recover_on_fail silence
            "Error when creating cloud-formation-stack and IAM roles. This may be caused by pre-existing IAM roles and may result in a working installation."
      if proceed then pure tt else return_now (plain e))
    region ← perform (get_env "AWS_REGION")
    chain ← perform (aws_credentials region)
    creds ← or_else chain λ e. return_now (plain e)
    rendered ← perform (render_credentials creds)
    out ← or_else rendered λ e. return_now (plain e)
    stored ← perform (set_env "AWS_B64ENCODED_CREDENTIALS" out)
    or_else stored λ e. return_now (plain e)

  -- Bootstrap
  unfoldable pub run_bootstrap : Installer → Exec api Failure (Unit {0})
  run_bootstrap (aws_installer silence) = bootstrap_aws silence
  run_bootstrap docker_installer = pure tt

-- ===== src/Installer/Requisites.antt =====
-- Which environments satisfy the installer for AWS.
use karlon.Base.{
  ◌≡◌, refl, ◌∙◌, arith, Bool, true, false, not, ◌!=◌, ◌&&◌, ◌||◌, String, List, [], ◌∷◌,
}
use karlon.Services.{Api, State, get_env, ask_to_proceed}
use karlon.Services.Exec.{Flow, stop, go, ask}
use karlon.Installer.{
  Failure, aws_installer, RequiredEnv, required_envs, recover_on_fail, unset_env, ensure_envs,
  ensure_requisites,
}

abbrev pub ends_well {ℓ} : {A : Type ℓ} → Flow Failure (Unit {0}) × A → Bool
ends_well (stop f, s) = false
ends_well (go x, s) = true

-- every variable that must be set has a value
abbrev pub all_set : (String → String) → List String → Bool
all_set env [] = true
all_set env (n ∷ ns) = env n != "" && all_set env ns

abbrev pub hard_names : List String
hard_names =
    "AWS_REGION" ∷ "AWS_ACCESS_KEY_ID" ∷ "AWS_SECRET_ACCESS_KEY" ∷ "AWS_SSH_KEY_NAME"
    ∷ "AWS_CONTROL_PLANE_MACHINE_TYPE" ∷ "AWS_NODE_MACHINE_TYPE" ∷ []

abbrev pass : (String → String) → Bool → RequiredEnv → Bool
pass env accepts e = env e.name != "" || (not e.hard_fail && accepts)

abbrev all_pass : (String → String) → Bool → List RequiredEnv → Bool
all_pass env accepts [] = true
all_pass env accepts (e ∷ es) = pass env accepts e && all_pass env accepts es

passed :
    (env : String → String) (accepts : Bool)
    → all_pass env accepts required_envs
      ≡ (all_set env hard_names && (env "AWS_SESSION_TOKEN" != "" || accepts))
passed env accepts = ground arith

module _ {api : Api} (env : String → String) (yes : Bool)
    (reads : (n : String) (w : api.World) → ask api (get_env n) w ≡ env n)
    (answers : (q : String) (w : api.World) → ask api (ask_to_proceed q) w ≡ yes) where
  ensure_envs_lem :
      (silence : Bool) (envs : List RequiredEnv) (s : State api)
      → ends_well (ensure_envs silence envs s) ≡ all_pass env (silence || yes) envs
  unfolding ensure_envs unset_env recover_on_fail
  ensure_envs_lem silence [] s = refl
  ensure_envs_lem silence (e ∷ es) s = grind (arith, ensure_envs_lem silence es, reads, answers)

  -- Where the environment does not change and every question has the same answer, the
  -- requisites of AWS are met exactly if the six required variables are set, and the session
  -- token is set, or the run is silent, or the user goes on without it.
  pub ensure_requisites_lem :
      (silence : Bool) (s : State api)
      → ends_well (ensure_requisites (aws_installer silence) s)
        ≡ (all_set env hard_names && (env "AWS_SESSION_TOKEN" != "" || (silence || yes)))
  unfolding ensure_requisites
  ensure_requisites_lem silence s =
      ensure_envs_lem silence required_envs s ∙ passed env (silence || yes)

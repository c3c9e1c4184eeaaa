-- ===== src/Setup/Ready.antt =====
-- What a run of the installation that ends well has seen.
use karlon.Base.{◌≡◌, refl, subst, arith, Bool, true, false, String, List, ◌∷◌}
use karlon.Base.Result.{Error, Result, ok}
use karlon.Services.{Api, State, Condition, KubeObject, deployment_get}
use karlon.Services.Exec.{Exec, Flow, stop, go, ask}
use karlon.Setup.{
  LocalConfig, InstallFiles, is_available, is_deployed, begin_argocd_install, begin_karlon_install,
  default_argo_namespace, default_argo_server_deployment,
}

module _ {api : Api} where
  -- the last call looked at the deployment, and its replicas are available
  pub record Saw (ns name : String) (after : State api) : Type 0 where
    pub before : State api
    pub conditions : List Condition
    pub answer : ask api (deployment_get ns name) before.world ≡ ok conditions
    pub available : is_available conditions ≡ true
    pub last : after.calls ≡ deployment_get ns name ∷ before.calls

  saw_lem :
      (ns name : String) (s : State api) (conditions : List Condition)
      → ask api (deployment_get ns name) s.world ≡ ok conditions
      → is_available conditions ≡ true
      → Saw ns name (record {
        world = (api.answer (deployment_get ns name) s.world).1;
        calls = deployment_get ns name ∷ s.calls;
      })
  saw_lem ns name s conditions answer available = record {
    before = s;
    conditions = conditions;
    answer = answer;
    available = available;
    last = refl;
  }

  -- what a look at a deployment, and a part of the installation, may have seen
  abbrev Looked : String → String → Flow Error Bool × State api → Type 0
  Looked ns name (stop e, t) = Unit
  Looked ns name (go false, t) = Unit
  Looked ns name (go true, t) = Saw ns name t

  abbrev pub IsReady : String → String → Flow Error (Unit {0}) × State api → Type 0
  IsReady ns name (stop e, t) = Unit
  IsReady ns name (go x, t) = Saw ns name t

  is_deployed-Looked : (ns name : String) (s : State api) → Looked ns name (is_deployed ns name s)
  unfolding is_deployed
  is_deployed-Looked ns name s = grind (arith, saw_lem ns name s)

  module _ (poll : Exec api Error Bool → Exec api Error (Unit {0}))
      (polls : (condition : Exec api Error Bool) (s t : State api)
        → poll condition s ≡ (go tt, t)
        → (u : State api) × (condition u ≡ (go true, t))) where
    seen :
        (ns name : String) (r : Flow Error (Unit {0}) × State api) (s : State api)
        → poll (is_deployed ns name) s ≡ r
        → IsReady ns name r
    seen ns name (stop e, t) s h = tt
    seen ns name (go x, t) s h =
        let (u, looked) = polls (is_deployed ns name) s t h in
        subst (Looked ns name) looked (is_deployed-Looked ns name u)

    -- If a poll that ends well ended with a condition that was true, an installation of karlon
    -- that ends well has as its last call a look at the deployment of the app profile
    -- controller, and the answer had the condition Available with the least number of replicas.
    pub karlon-IsReady :
        (documents : String → List (Result KubeObject)) (files : InstallFiles)
        (marshal : LocalConfig → Result String) (karlon_ns argo_ns : String) (s : State api)
        → IsReady karlon_ns "kkkarlon-appprof-ctrlr"
            (begin_karlon_install poll documents files marshal karlon_ns argo_ns s)
    unfolding begin_karlon_install
    karlon-IsReady documents files marshal karlon_ns argo_ns s = grind (
      arith,
      λ (t : State api).
          seen karlon_ns "kkkarlon-appprof-ctrlr"
            (poll (is_deployed karlon_ns "kkkarlon-appprof-ctrlr") t) t refl,
    )

    -- ArgoCD
    pub argocd-IsReady :
        (documents : String → List (Result KubeObject)) (files : InstallFiles) (s : State api)
        → IsReady default_argo_namespace default_argo_server_deployment
            (begin_argocd_install poll documents files s)
    unfolding begin_argocd_install
    argocd-IsReady documents files s = grind (
      arith,
      λ (t : State api).
          seen default_argo_namespace default_argo_server_deployment
            (poll (is_deployed default_argo_namespace default_argo_server_deployment) t) t refl,
    )

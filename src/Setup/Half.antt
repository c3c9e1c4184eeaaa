-- ===== src/Setup/Half.antt =====
-- What init leaves undone where an earlier run has stopped.
use karlon.Base.{◌≡◌, true, arith, Bool, String, List, [], ◌∷◌, All}
use karlon.Base.Result.{Error, Result, ok, err}
use karlon.Installer.Calls.{installs_capi, install_capi-All}
use karlon.Installer.Command.{install_command}
use karlon.Services.{
  Call, Api, State, KubeObject, deployment_get, namespace_get, namespace_create, object_create,
  secret_create, config_map_update, create_token,
}
use karlon.Services.Exec.{Exec, ask}
use karlon.Setup.{
  LocalConfig, InstallFiles, default_argo_namespace, default_karlon_namespace,
  default_argo_server_deployment, can_install_argocd, can_install_karlon,
}
use karlon.Setup.Command.{propagate, offer_argocd, offer_karlon, set_up}

-- the call installs nothing of ArgoCD or karlon
abbrev pub InstallsNone : Call → Type 0
InstallsNone (namespace_create n) = ⊥
InstallsNone (object_create o) = ⊥
InstallsNone (secret_create ns s) = ⊥
InstallsNone (config_map_update ns m) = ⊥
InstallsNone (create_token n) = ⊥
InstallsNone _ = Unit

abbrev pub IsOk {ℓ} : {A : Type ℓ} → Result A → Type 0
IsOk (ok a) = Unit
IsOk (err e) = ⊥

capi-InstallsNone : (c : Call) → installs_capi c ≡ true → InstallsNone c
capi-InstallsNone c h = ground arith

module _ {api : Api} (poll : Exec api Error Bool → Exec api Error (Unit {0}))
    (documents : String → List (Result KubeObject)) (files : InstallFiles)
    (has_argocd : (w : api.World)
      → IsOk (ask api (deployment_get default_argo_namespace default_argo_server_deployment) w))
    (has_namespace : (w : api.World)
      → IsOk (ask api (namespace_get default_karlon_namespace) w)) where
  offer_argocd-InstallsNone :
      (no_confirm : Bool) (s : State api)
      → All InstallsNone s.calls
      → All InstallsNone (offer_argocd poll documents files no_confirm s).1.calls
  unfolding offer_argocd can_install_argocd
  offer_argocd-InstallsNone no_confirm s h = grind (arith, has_argocd)

  offer_karlon-InstallsNone :
      (marshal : LocalConfig → Result String) (host : String) (no_confirm : Bool) (s : State api)
      → All InstallsNone s.calls
      → All InstallsNone (offer_karlon poll documents files marshal host no_confirm s).1.calls
  unfolding offer_karlon can_install_karlon
  offer_karlon-InstallsNone marshal host no_confirm s h = grind (arith, has_namespace)

  -- Where ArgoCD is deployed and the namespace of karlon exists, as after a run of init that
  -- stopped behind the creation of the namespace, init up to its examples creates no namespace,
  -- object, secret or token and changes no config map, if no call before did: the controllers
  -- that are missing stay missing.
  pub half_installed_stays :
      (marshal : LocalConfig → Result String) (host platform : String) (no_confirm : Bool)
      (s : State api)
      → All InstallsNone s.calls
      → All InstallsNone (set_up poll documents files marshal host platform no_confirm s).1.calls
  unfolding set_up propagate install_command
  half_installed_stays marshal host platform no_confirm s h = grind (
    arith,
    offer_argocd-InstallsNone no_confirm,
    offer_karlon-InstallsNone marshal host no_confirm,
    install_capi-All InstallsNone capi-InstallsNone "" "" ("aws" ∷ "docker" ∷ []) [] no_confirm,
  )

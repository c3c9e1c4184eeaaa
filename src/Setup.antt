-- ===== src/Setup.antt =====
-- pkg/cmd/initialize/init.go: the installation of ArgoCD and of karlon's controllers on a management cluster.
-- What is printed is left out. `poll` is wait.PollImmediate, with its interval and its time limit; the YAML
-- decoder, of which `documents` are the results before the end of the stream, and the encoder of ArgoCD's
-- local configuration are parameters.
pub mod Examples
pub mod Command
pub mod Half
pub mod Ready
mod Tests
use karlon.Base.{
  Bool, true, false, ◌==◌, String, Option, none, some, List, [], ◌∷◌, ◌++◌, if◌then◌else◌,
}
use karlon.Base.Dict.{Dict}
use karlon.Base.Result.{Error, Result, ok, err, message, text, is_not_found, is_already_exists}
use karlon.Base.Text.{sprint}
use karlon.Objects.{Secret, ConfigMap}
use karlon.Services.{
  Api, Condition, KubeObject, namespace_get, namespace_create, deployment_get, object_create,
  http_get, create_token, config_map_get, config_map_update, secret_create,
}
use karlon.Services.Exec.{Exec, ◌>>=◌, ◌>>◌, pure, return_now, perform, or_else, must, attempt}

abbrev pub default_argo_namespace : String
default_argo_namespace = "argocd"

abbrev pub default_karlon_namespace : String
default_karlon_namespace = "kkkarlon"

abbrev pub default_argo_server_deployment : String
default_argo_server_deployment = "argocd-server"

-- argocdManifestURL
abbrev pub argocd_manifest_url : String → String
argocd_manifest_url tag =
    sprint
      ("https://raw.githubusercontent.com/argoproj/argo-cd/" ∷ tag ∷ "/manifests/install.yaml" ∷ [])

-- the files embedded in the program, and the tag of ArgoCD, which the build sets
pub record InstallFiles : Type 0 where
  pub crds : List String
  pub deployments : List String
  pub argocd_git_tag : String

-- localconfig.LocalConfig with one context, whose name, server and user are the same text
pub record LocalConfig : Type 0 where
  pub context : String
  pub insecure : Bool
  pub auth_token : String

-- getDeploymentCondition
unfoldable pub get_deployment_condition : List Condition → String → Option Condition
get_deployment_condition [] kind = none
get_deployment_condition (c ∷ cs) kind =
    let rest = get_deployment_condition cs kind in if c.condition_type == kind then some c else rest

-- what each of the waits asks of the conditions
unfoldable pub is_available : List Condition → Bool
is_available conditions = elim (get_deployment_condition conditions "Available") [
  | none ↦ false
  | some c ↦ c.reason == "MinimumReplicasAvailable"
]

-- decodeResources
unfoldable pub decode_resources : List (Result KubeObject) → Result (List KubeObject)
decode_resources [] = ok []
decode_resources (err e ∷ rest) = err e
decode_resources (ok o ∷ rest) = elim (decode_resources rest) [
  | err e ↦ err e
  | ok os ↦ ok (o ∷ os)
]

unfoldable pub decode_all :
    (String → List (Result KubeObject)) → List String → Result (List KubeObject)
decode_all documents [] = ok []
decode_all documents (m ∷ ms) = elim (decode_resources (documents m)) [
  | err e ↦ err e
  | ok os ↦ elim (decode_all documents ms) [ err e ↦ err e | ok rest ↦ ok (os ++ rest) ]
]

module _ {api : Api} where
  -- canInstallArgocd and canInstallArlon
  unfoldable pub can_install_argocd : String → Exec api Error Bool
  can_install_argocd argo_ns = do
    found ← perform (deployment_get argo_ns default_argo_server_deployment)
    elim found [ ok _ ↦ pure false | err e ↦ if is_not_found e then pure true else return_now e ]

  unfoldable pub can_install_karlon : String → Exec api Error Bool
  can_install_karlon karlon_ns = do
    found ← perform (namespace_get karlon_ns)
    elim found [ ok _ ↦ pure false | err e ↦ if is_not_found e then pure true else return_now e ]

  -- applyObject
  unfoldable pub apply_object : String → KubeObject → Exec api Error (Unit {0})
  apply_object namespace o =
      if o.name == ""
      then return_now (message (sprint ("object " ∷ o.kind ∷ " has no name" ∷ [])))
      else (do
        created ← perform (object_create (record o { namespace = namespace }))
        or_else created λ e.
            if is_already_exists e
            then pure tt
            else return_now (
                message (
                  sprint (
                    "could not create ("
                    ∷ o.kind
                    ∷ ") "
                    ∷ namespace
                    ∷ "/"
                    ∷ o.name
                    ∷ ". Error: "
                    ∷ text e
                    ∷ []))))

  unfoldable pub apply_all : String → List KubeObject → Exec api Error (Unit {0})
  apply_all namespace [] = pure tt
  apply_all namespace (o ∷ os) = do apply_object namespace o; apply_all namespace os

  -- the creation of a namespace that may exist
  unfoldable pub ensure_namespace : String → Exec api Error (Unit {0})
  ensure_namespace ns = do
    created ← perform (namespace_create ns)
    or_else created λ e. if is_already_exists e then pure tt else return_now e

  -- the condition of a wait
  unfoldable pub is_deployed : String → String → Exec api Error Bool
  is_deployed ns name = do
    got ← perform (deployment_get ns name)
    conditions ← or_else got return_now
    pure (is_available conditions)

  -- createArgoCreds
  unfoldable pub create_argo_creds :
      (LocalConfig → Result String) → String → String → Exec api Error (Unit {0})
  create_argo_creds marshal karlon_ns argo_ns = do
    made ← perform (create_token "kkkarlon")
    token ← or_else made return_now
    let user : String =
        sprint (default_argo_server_deployment ∷ "." ∷ argo_ns ∷ ".svc.cluster.local" ∷ [])
    out ←
        or_else (marshal (record { context = user; insecure = true; auth_token = token }))
          return_now
    created ← perform (
        secret_create karlon_ns (record {
          meta = record {
            name = "argocd-creds";
            namespace = karlon_ns;
            labels = [];
            annotations = none;
            finalizers = [];
            deleting = false;
          };
          content = ("config", out) ∷ [];
        }))
    or_else created return_now

  -- the two config maps of ArgoCD that give karlon an account; their contents are replaced
  unfoldable pub give_account : String → Exec api Error (Unit {0})
  give_account argo_ns = do
    got ← perform (config_map_get argo_ns "argocd-cm")
    argo_cm ← or_else got return_now
    got' ← perform (config_map_get argo_ns "argocd-rbac-cm")
    rbac_cm ← or_else got' return_now
    updated ← perform (
        config_map_update argo_ns
          (record argo_cm { content = ("accounts.kkkarlon", "apiKey, login") ∷ [] }))
    or_else updated return_now
    updated' ← perform (
        config_map_update argo_ns
          (record rbac_cm { content = ("policy.csv", "g, kkkarlon, role:admin") ∷ [] }))
    or_else updated' return_now

  module _ (poll : Exec api Error Bool → Exec api Error (Unit {0}))
      (documents : String → List (Result KubeObject)) (files : InstallFiles) where
    -- installArgo
    unfoldable pub install_argo : String → Exec api Error (Unit {0})
    install_argo link = do
      got ← perform (http_get link)
      manifest ← or_else got return_now
      resources ← or_else (decode_resources (documents manifest)) return_now
      apply_all default_argo_namespace resources

    -- beginArgoCDInstall
    unfoldable pub begin_argocd_install : Exec api Error (Unit {0})
    begin_argocd_install = do
      ensure_namespace default_argo_namespace
      install_argo (argocd_manifest_url files.argocd_git_tag)
      poll (is_deployed default_argo_namespace default_argo_server_deployment)

    -- beginArlonInstall
    unfoldable pub begin_karlon_install :
        (LocalConfig → Result String) → String → String → Exec api Error (Unit {0})
    begin_karlon_install marshal karlon_ns argo_ns = do
      ensure_namespace karlon_ns
      give_account argo_ns
      create_argo_creds marshal karlon_ns argo_ns
      crds ← or_else (decode_all documents files.crds) return_now
      deployments ← or_else (decode_all documents files.deployments) return_now
      apply_all karlon_ns crds
      apply_all karlon_ns deployments
      poll (is_deployed karlon_ns "kkkarlon-controller")
      poll (is_deployed karlon_ns "kkkarlon-appprof-ctrlr")

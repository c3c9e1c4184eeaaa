-- ===== src/Webhook.antt =====
-- pkg/webhook: rewrite.go and webhook.go, the admission of clusters under a new name. The decoders, the
-- encoders and the connection are parameters.
pub mod Answers
mod Tests
use karlon.Base.{
  ℕ, Bool, true, false, ◌==◌, ◌!=◌, ◌&&◌, String, Option, none, some, List, [], ◌∷◌, if◌then◌else◌,
}
use karlon.Base.Dict.{Dict, get}
use karlon.Base.Result.{Error, Result, ok, err, message, because, text}
use karlon.Base.Text.{sprint}

-- a GroupVersionResource or a GroupVersionKind
pub record Group : Type 0 where
  pub group : String
  pub version : String
  pub name : String

-- v1.AdmissionRequest, and what is read of a cluster
pub record Request : Type 0 where
  pub uid : String
  pub resource : Group
  pub raw : String

pub record Named : Type 0 where
  pub name : String
  pub labels : Dict String

-- an operation of a JSON patch, and v1.AdmissionResponse, whose patch is of the type JSONPatch
pub record Patch : Type 0 where
  pub op : String
  pub path : String
  pub value : String

pub record Response : Type 0 where
  pub uid : String
  pub allowed : Bool
  pub patch : Option String
  pub message : Option String

-- a decoded object: a review with its request, which may be absent, or an object of another type
pub data Object : Type 0 where
  review : Option Request → Object
  other : String → Object

-- how ServeHTTP ends: an error with its code, an answer, or a panic
pub data Outcome : Type 0 where
  refused : ℕ → Error → Outcome
  answered : Response → Outcome
  panicked : Outcome

abbrev pub same_group : Group → Group → Bool
same_group a b = a.group == b.group && (a.version == b.version && a.name == b.name)

abbrev pub cluster_resource : Group
cluster_resource = record { group = "cluster.x-k8s.io"; version = "v1beta1"; name = "clusters" }

abbrev pub review_kind : Group
review_kind = record { group = "admission.k8s.io"; version = "v1"; name = "AdmissionReview" }

-- toV1AdmissionResponse
abbrev pub denied : Error → Response
denied e = record { uid = ""; allowed = false; patch = none; message = some (text e) }

abbrev pub rename_patch : String → Named → Patch
rename_patch instance cluster = record {
  op = "replace";
  path = "/metadata/name";
  value = sprint (instance ∷ "-" ∷ cluster.name ∷ []);
}

abbrev pub unsupported : Group → Outcome
unsupported kind = refused 400 (
    message (
      sprint (
        "unsupported group version kind: " ∷ kind.group ∷ "/" ∷ kind.version ∷ ", Kind=" ∷ kind.name
        ∷ [])))

module _ (decode_cluster : String → Result Named)
    (marshal_patches : List Patch → Result String) where
  -- Rewrite behind the check of the resource
  unfoldable pub rewrite_cluster : String → Response
  rewrite_cluster raw = elim (decode_cluster raw) [
    | err e ↦ denied e
    | ok cluster ↦
        if get "app.kubernetes.io/instance" cluster.labels == ""
        then record { uid = ""; allowed = true; patch = none; message = none }
        else elim (marshal_patches
            (rename_patch (get "app.kubernetes.io/instance" cluster.labels) cluster ∷ [])) [
              | err e ↦ denied e
              | ok bs ↦ record { uid = ""; allowed = true; patch = some bs; message = none }
            ]
  ]

  -- Rewrite; `none` is nil
  unfoldable pub rewrite : Request → Option Response
  rewrite req =
      if same_group req.resource cluster_resource then some (rewrite_cluster req.raw) else none

  module _ (decode : String → Result (Object × Group)) (marshal_review : Response → Result String)
      (write : String → Result (Unit {0})) where
    -- the end of serveHTTP
    unfoldable pub send : Response → Outcome
    send response = elim (marshal_review response) [
      | err e ↦ refused 500 (because "failed to marshal response" e)
      | ok bs ↦ elim (write bs) [
        | err e ↦ refused 500 (because "failed to write response" e)
        | ok _ ↦ answered response
      ]
    ]

    -- the branch of a review; a nil response, or a nil request, is read through
    unfoldable pub serve_review : Option Request → Outcome
    serve_review none = panicked
    serve_review (some req) = elim (rewrite req) [
      | none ↦ panicked
      | some response ↦ send (record response { uid = req.uid })
    ]

    -- the switch of serveHTTP over what was decoded
    unfoldable pub serve_decoded : Result (Object × Group) → Outcome
    serve_decoded (err e) = refused 400 (because "request could not be decoded" e)
    serve_decoded (ok (review req, kind)) =
        if same_group kind review_kind then serve_review req else unsupported kind
    serve_decoded (ok (other type, kind)) =
        if same_group kind review_kind
        then refused 400 (message (sprint ("expected v1.AdmissionReview but got: " ∷ type ∷ [])))
        else unsupported kind

    -- serveHTTP; the texts are the content type and the body
    unfoldable pub serve : String → String → Outcome
    serve content_type body =
        if content_type != "application/json"
        then refused 400 (message (sprint ("unexpected content type: " ∷ content_type ∷ [])))
        else serve_decoded (decode body)

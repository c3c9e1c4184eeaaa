-- ===== src/Webhook/Tests.antt =====
-- The webhook at concrete inputs.
use karlon.Base.{◌≡◌, refl, true, String, none, some, if◌then◌else◌, List, [], ◌∷◌, ◌==◌}
use karlon.Base.Dict.{get, lookup}
use karlon.Base.Result.{Result, ok, err, message}
use karlon.Base.Text.{sprint}
use karlon.Webhook.{
  Group, Request, Named, Patch, Response, Object, review, answered, cluster_resource, review_kind,
  rewrite_cluster, rewrite, send, serve_review, serve_decoded, serve,
}
use karlon.Webhook.Answers.{is_panic, is_panic-serve}

abbrev pod_resource : Group
pod_resource = record { group = ""; version = "v1"; name = "pods" }

abbrev request : Group → Request
request resource = record { uid = "u1"; resource = resource; raw = "{}" }

abbrev decode : String → Result (Object × Group)
decode body = ok (
  review (some (request (if body == "pod" then pod_resource else cluster_resource))),
  review_kind,
)

abbrev decode_cluster : String → Result Named
decode_cluster raw =
    ok (record { name = "capi"; labels = ("app.kubernetes.io/instance", "prod") ∷ [] })

abbrev values : List Patch → Result String
values [] = err (message "no patch")
values (p ∷ ps) = ok p.value

abbrev marshal_review : Response → Result String
marshal_review response = ok response.uid

abbrev write : String → Result (Unit {0})
write text = ok tt

cluster_renamed :
    serve decode_cluster values decode marshal_review write "application/json" "cluster"
    ≡ answered (record { uid = "u1"; allowed = true; patch = some "prod-capi"; message = none })
unfolding serve serve_decoded serve_review rewrite rewrite_cluster send get lookup sprint
cluster_renamed = refl

is_panic-serve_example :
    is_panic (serve decode_cluster values decode marshal_review write "application/json" "pod")
    ≡ true
is_panic-serve_example =
    is_panic-serve decode_cluster values decode marshal_review write "application/json" "pod"

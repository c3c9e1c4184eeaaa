-- ===== src/Webhook/Answers.antt =====
-- What the webhook answers.
use karlon.Base.{◌≡◌, refl, arith, Bool, true, false, not, ◌==◌, ◌&&◌, String, none, some, List}
use karlon.Base.Result.{Result, ok, err}
use karlon.Webhook.{
  Group, Named, Patch, Response, Object, Outcome, review, other, refused, answered, panicked,
  same_group, cluster_resource, review_kind, rewrite_cluster, rewrite, send, serve_review,
  serve_decoded, serve,
}

-- a review without a request, or of something that is no cluster
abbrev pub is_foreign : Result (Object × Group) → Bool
is_foreign (err e) = false
is_foreign (ok (other type, kind)) = false
is_foreign (ok (review none, kind)) = same_group kind review_kind
is_foreign (ok (review (some req), kind)) =
    same_group kind review_kind && not (same_group req.resource cluster_resource)

abbrev pub is_panic : Outcome → Bool
is_panic panicked = true
is_panic (refused code e) = false
is_panic (answered response) = false

module _ (decode_cluster : String → Result Named) (marshal_patches : List Patch → Result String)
    (decode : String → Result (Object × Group)) (marshal_review : Response → Result String)
    (write : String → Result (Unit {0})) where
  is_panic-send :
      (r : Response)
      → is_panic (send decode_cluster marshal_patches decode marshal_review write r) ≡ false
  unfolding send
  is_panic-send r = ground arith

  is_panic-serve_decoded :
      (decoded : Result (Object × Group))
      → is_panic (serve_decoded decode_cluster marshal_patches decode marshal_review write decoded)
        ≡ is_foreign decoded
  unfolding serve_decoded serve_review rewrite
  is_panic-serve_decoded (err e) = refl
  is_panic-serve_decoded (ok (other type, kind)) = ground arith
  is_panic-serve_decoded (ok (review none, kind)) = ground arith
  is_panic-serve_decoded (ok (review (some req), kind)) =
      let response : Response = rewrite_cluster decode_cluster marshal_patches req.raw in
      ground (arith, is_panic-send (record response { uid = req.uid }))

  -- The webhook panics on a review without a request or of a resource other than clusters, if
  -- the content type is JSON, and in no other case.
  pub is_panic-serve :
      (content_type body : String)
      → is_panic
          (serve decode_cluster marshal_patches decode marshal_review write content_type body)
        ≡ (content_type == "application/json" && is_foreign (decode body))
  unfolding serve
  is_panic-serve content_type body = ground (arith, is_panic-serve_decoded (decode body))

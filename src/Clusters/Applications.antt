-- ===== src/Clusters/Applications.antt =====
-- The applications of a cluster have the names and paths by which they are found again.
use text.Mathlib.TextLemmas.{append-ne-nil_of_right_ne-nil}
use karlon.Base.{
  ◌≡◌, arith, true, false, ◌==◌, String, none, some, [], ◌∷◌, contains, if◌then◌else◌, eq_iff, inl,
  inr, Bool-cases,
}
use karlon.Base.Dict.{get, lookup, or_empty}
use karlon.Base.Text.{sprint}
use karlon.Base.Result.{ok}
use karlon.BaseCluster.Validity.{Result-cases}
use karlon.Objects.{Application}
use karlon.Services.{Libraries}
use karlon.ClusterSpec.{ClusterSpec, to_config_map}
use karlon.ClusterSpec.Codec.{HasInts, from-to_config_map}
use karlon.ClusterSpec.Valid.{
  valid_api_providers, valid_cluster_types, valid_cloud_providers, valid_api_provider,
  valid_cloud_and_type, autoscaler_subchart_name,
}
use karlon.ClusterSpec.Api.{subchart_name_of}
use karlon.Clusters.{
  base_cluster_repo_path_annotation, base_cluster_repo_url_annotation,
  base_cluster_repo_revision_annotation,
}
use karlon.Clusters.RootApp.{
  RootRequest, control_plane_difference, replicas_difference, enable_cluster_autoscaler,
  gen1_settings, settings_of, construct_root_app,
}
use karlon.Clusters.ClusterApp.{ClusterAppRequest, construct_cluster_app}
use karlon.Controllers.Cluster.Deletion.{kkarlon_app_name}

chart_named : (provider : String) → (autoscaler_subchart_name provider == "") ≡ false
unfolding autoscaler_subchart_name sprint
chart_named provider = elim (Bool-cases (autoscaler_subchart_name provider == "")) [
  | inl empty ↦ absurd (
      append-ne-nil_of_right_ne-nil provider (λ h. ground (arith, eq_iff "-cluster-autoscaler" ""))
        ((eq_iff (autoscaler_subchart_name provider) "").0 empty))
  | inr full ↦ full
]

module _ (lib : Libraries) where
  -- For a request without a cluster specification a root application is always made, it has the
  -- name under which the Cluster controller looks it up, and it ignores no differences.
  pub gen2_root_app :
      (r : RootRequest)
      → r.cluster_spec_name ≡ ""
      → r.cluster_spec_cm ≡ none
      → (app : Application) × (construct_root_app lib r ≡ ok app)
        × (app.meta.name ≡ kkarlon_app_name r.cluster_name)
        × (app.ignore_differences ≡ [])
  unfolding construct_root_app settings_of enable_cluster_autoscaler
  gen2_root_app r unnamed no_spec = elim (Result-cases (construct_root_app lib r)) [
    | inl (e, failed) ↦ absurd (ground (arith, chart_named "capi"))
    | inr (app, made) ↦ (
      app,
      made,
      ground (arith, eq_iff r.cluster_spec_name "", chart_named "capi"),
      ground (arith, chart_named "capi"),
    )
  ]

  -- For a config map written from a specification with valid providers and type, and with
  -- counts that fit a Go int, a root application is made, which ignores the replicas exactly if
  -- the autoscaler is on.
  pub gen1_root_app :
      (r : RootRequest) (cs : ClusterSpec)
      → r.cluster_spec_cm ≡ some (to_config_map cs)
      → HasInts cs
      → contains cs.api_provider valid_api_providers ≡ true
      → contains cs.cloud_provider valid_cloud_providers ≡ true
      → contains cs.cluster_type (valid_cluster_types cs.cloud_provider) ≡ true
      → (app : Application) × (construct_root_app lib r ≡ ok app)
        × (app.ignore_differences ≡ (
            if cs.cas_enabled
            then replicas_difference ∷ control_plane_difference ∷ []
            else control_plane_difference ∷ []))
  unfolding construct_root_app settings_of gen1_settings subchart_name_of valid_api_provider
      valid_cloud_and_type enable_cluster_autoscaler
  gen1_root_app r cs spec ints api_ok cloud_ok type_ok =
      let read = from-to_config_map cs ints in
      elim (Result-cases (construct_root_app lib r)) [
        | inl (e, failed) ↦ absurd (ground (arith, chart_named cs.api_provider))
        | inr (app, made) ↦ (app, made, ground (arith, chart_named cs.api_provider))
      ]

  -- The annotations of the cluster app of an overridden cluster name the repository, the
  -- revision and, with the app's name behind a slash, the path that the app deploys, which is
  -- the directory that the deletion of the override removes.
  pub override_path_agrees :
      (r : ClusterAppRequest)
      → r.overridden ≡ true
      → (let notes = or_empty (construct_cluster_app lib r).meta.annotations in
          (sprint (
              get base_cluster_repo_path_annotation notes
              ∷ "/"
              ∷ (construct_cluster_app lib r).meta.name
              ∷ [])
            ≡ (construct_cluster_app lib r).path)
          × (get base_cluster_repo_url_annotation notes ≡ (construct_cluster_app lib r).repo_url)
          × (get base_cluster_repo_revision_annotation notes
              ≡ (construct_cluster_app lib r).target_revision))
  unfolding construct_cluster_app get lookup
  override_path_agrees r over = ground arith

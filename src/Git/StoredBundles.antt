-- ===== src/Git/StoredBundles.antt =====
-- The bundles of a profile, from their secrets to the files in git.
use karlon.Base.{◌≡◌, refl, subst, arith, true, String, List, [], ◌∷◌, ◌++◌, inl, inr, eq_iff}
use karlon.Base.Dict.{get, or_empty}
use karlon.Base.Result.{Error, ok}
use karlon.Objects.{Secret, Profile}
use karlon.Services.{Api, State, secret_get}
use karlon.Services.Exec.{Flow, stop, go, ask}
use karlon.Bundles.{Bundle, repo_url_annotation_key}
use karlon.Bundles.Api.{bundle_of, get_bundles, get_bundles_from_profile}
use karlon.Bundles.Kinds.{IsBundle}
use karlon.Git.BundleApps.{KvPairMap, process_bundles}
use karlon.Git.BundleFiles.{
  IsWritable, written, is_ready, all_ready, all_files, process_bundles-Wrote,
}

stored_is_ready :
    (name : String) (secr : Secret) → IsBundle secr → is_ready (bundle_of name secr) ≡ true
unfolding IsBundle is_ready bundle_of
stored_is_ready name secr (inl (label, (manifest, content), url)) =
    ground (arith, eq_iff (get repo_url_annotation_key (or_empty secr.meta.annotations)) "")
stored_is_ready name secr (inr (label, content, url)) = ground arith

-- every secret that is read is a static or a dynamic bundle
abbrev pub StoresBundles : Api → Type 0
StoresBundles api =
    (ns name : String) (w : api.World) (secr : Secret)
    → ask api (secret_get ns name) w ≡ ok secr
    → IsBundle secr

module _ {api : Api} where
  abbrev Ready : Flow Error (List Bundle) × State api → Type 0
  Ready (stop e, s) = Unit
  Ready (go bundles, s) = all_ready bundles ≡ true

  get_bundles-Ready :
      (ns : String) (names : List String) (s : State api)
      → StoresBundles api
      → Ready (get_bundles ns names s)
  unfolding get_bundles all_ready
  get_bundles-Ready ns [] s stored = refl
  get_bundles-Ready ns (name ∷ names) s stored = grind (
    arith,
    get_bundles-Ready ns names
        (record {
          world = (api.answer (secret_get ns name) s.world).1;
          calls = secret_get ns name ∷ s.calls;
        })
        stored,
    stored ns name s.world,
    stored_is_ready name,
  )

  -- If every secret that is read is a static or a dynamic bundle, and the work tree takes every
  -- file, then ProcessBundles ends well on the bundles that GetBundlesFromProfile returned. It
  -- writes for each bundle its application and, for a static one, its manifest in the directory
  -- that the application deploys, and no other files.
  pub stored_bundles_deployed :
      (profile : Profile) (ns : String) (bundles : List Bundle) (s t : State api)
      (dir cluster_name repo_url mgmt_path workload_path : String) (om : KvPairMap) (u : State api)
      → StoresBundles api
      → IsWritable api
      → get_bundles_from_profile profile ns s ≡ (go bundles, t)
      → ((process_bundles dir cluster_name repo_url mgmt_path workload_path bundles om u).0 ≡ go tt)
        × (written
              (process_bundles dir cluster_name repo_url mgmt_path workload_path bundles om
                u).1.calls
            ≡ all_files cluster_name repo_url mgmt_path workload_path om bundles ++ written u.calls)
  unfolding get_bundles_from_profile
  stored_bundles_deployed profile ns bundles s t dir cluster_name repo_url mgmt_path workload_path
        om u stored writable got =
      let ready : all_ready bundles ≡ true =
        subst Ready got (get_bundles-Ready ns profile.spec.bundles s stored) in
      let wrote =
        process_bundles-Wrote cluster_name repo_url mgmt_path workload_path om dir bundles u
          writable in
      ground arith

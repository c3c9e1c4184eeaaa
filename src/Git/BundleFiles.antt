-- ===== src/Git/BundleFiles.antt =====
-- Which bundles are deployed, and the files that are written for them.
use Prim.Native.String.{String}
use mathlib.Core.List.{append_assoc}
use karlon.Base.{
  Bool, true, false, ◌&&◌, ◌≡◌, refl, sym, ap, ◌∙◌, arith, ◌==◌, not, some, none, List, [], ◌∷◌,
  ◌++◌,
}
use karlon.Base.Path.{join_path}
use karlon.Base.Result.{Error, ok}
use karlon.Services.{Call, Api, State, file_make_dirs, file_create, file_write}
use karlon.Services.Exec.{Flow, stop, go, ask, unless_stopped}
use karlon.Bundles.{Bundle}
use karlon.Git.BundleApps.{
  KvPairMap, AppSettings, settings_for, pairs_of, render_app, file_name, write_manifest,
  locate_bundle, process_bundle, process_bundles,
}

-- a work tree that takes every file
abbrev pub IsWritable : Api → Type 0
IsWritable api =
    ((dir path : String) (w : api.World) → ask api (file_make_dirs dir path) w ≡ ok tt)
    × ((dir path : String) (w : api.World) → ask api (file_create dir path) w ≡ ok tt)
    × ((dir path text : String) (w : api.World) → ask api (file_write dir path text) w ≡ ok tt)

-- the files that the calls wrote, the latest first
unfoldable pub written : List Call → List (String × String)
written [] = []
written (file_write dir path text ∷ cs) = (path, text) ∷ written cs
written (c ∷ cs) = written cs

-- either the manifest or the repository is there
unfoldable pub is_ready : Bundle → Bool
is_ready b = elim b.content [ none ↦ not (b.repo_url == "") | some manifest ↦ b.repo_url == "" ]

unfoldable pub all_ready : List Bundle → Bool
unfolding is_ready
all_ready [] = true
all_ready (b ∷ bs) = let rest = all_ready bs in is_ready b && rest

module _ (cluster_name repo_url mgmt_path workload_path : String) (overrides : KvPairMap) where
  -- the application of a bundle
  unfoldable pub app_of : Bundle → AppSettings
  unfolding settings_for pairs_of
  app_of b = elim b.content [
    | none ↦ record (settings_for cluster_name b) {
      repo_url = b.repo_url;
      repo_path = b.repo_path;
      src_type = b.src_type;
      overrides = pairs_of b.name overrides;
    }
    | some manifest ↦ record (settings_for cluster_name b) {
      repo_url = repo_url;
      repo_path = join_path (workload_path ∷ b.name ∷ []);
    }
  ]

  -- the files of a bundle, the last one first: its application and, where it is static, its
  -- manifest in the directory that the application deploys
  unfoldable pub files_of : Bundle → List (String × String)
  unfolding app_of settings_for pairs_of
  files_of b =
      let app : String × String =
        (join_path (mgmt_path ∷ "templates" ∷ file_name b ∷ []), render_app (app_of b)) in
      elim b.content [
        | none ↦ app ∷ []
        | some manifest ↦
            app
            ∷ (join_path (join_path (workload_path ∷ b.name ∷ []) ∷ file_name b ∷ []), manifest)
            ∷ []
      ]

  unfoldable pub all_files : List Bundle → List (String × String)
  unfolding files_of app_of settings_for pairs_of
  all_files [] = []
  all_files (b ∷ bs) = all_files bs ++ files_of b

  module _ {api : Api} where
    -- a step that ends well has written these files on top of the earlier ones
    abbrev Wrote :
        Bool
        → List (String × String)
        → List (String × String)
        → Flow Error (Unit {0}) × State api
        → Type 0
    Wrote ready files before (stop e, s) = ready ≡ false
    Wrote ready files before (go done, s) = (ready ≡ true) × (written s.calls ≡ files ++ before)

    process_bundle-Wrote :
        (dir : String) (b : Bundle) (s : State api)
        → IsWritable api
        → Wrote
            (is_ready b)
            (files_of b)
            (written s.calls)
            (process_bundle dir cluster_name repo_url mgmt_path workload_path b overrides s)
    unfolding process_bundle locate_bundle write_manifest files_of app_of is_ready written
    process_bundle-Wrote dir b s (make, create, write) =
        grind (arith, make dir, create dir, write dir)

    -- one step on top of another
    on_top :
        (ready : Bool) (f g before : List (String × String)) (t : State api)
        (r : Flow Error (Unit {0}) × State api)
        → written t.calls ≡ f ++ before
        → Wrote ready g (written t.calls) r
        → Wrote ready (g ++ f) before r
    on_top ready f g before t (stop e, u) e1 h = h
    on_top ready f g before t (go done, u) e1 (r, e2) =
        (r, e2 ∙ ap (λ fs. g ++ fs) e1 ∙ sym (append_assoc g f before))

    in_order :
        (ready rest : Bool) (f g before : List (String × String))
        (r : Flow Error (Unit {0}) × State api) (k : State api → Flow Error (Unit {0}) × State api)
        → Wrote ready f before r
        → ((t : State api) → Wrote rest g (written t.calls) (k t))
        → Wrote (ready && rest) (g ++ f) before (unless_stopped r (λ x. k))
    in_order ready rest f g before (stop e, t) k h hk = ground arith
    in_order ready rest f g before (go done, t) k (h, e) hk =
        rw h (on_top rest f g before t (k t) e (hk t))

    pub process_bundles-Wrote :
        (dir : String) (bs : List Bundle) (s : State api)
        → IsWritable api
        → Wrote
            (all_ready bs)
            (all_files bs)
            (written s.calls)
            (process_bundles dir cluster_name repo_url mgmt_path workload_path bs overrides s)
    unfolding process_bundles all_ready all_files
    process_bundles-Wrote dir [] s h = (refl, refl)
    process_bundles-Wrote dir (b ∷ bs) s h =
        in_order (is_ready b) (all_ready bs) (files_of b) (all_files bs) (written s.calls)
          (process_bundle dir cluster_name repo_url mgmt_path workload_path b overrides s)
          (process_bundles dir cluster_name repo_url mgmt_path workload_path bs overrides)
          (process_bundle-Wrote dir b s h) (λ t. process_bundles-Wrote dir bs t h)

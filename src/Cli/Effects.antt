-- ===== src/Cli/Effects.antt =====
-- What the commands do together with the packages that they call.
use karlon.Base.{
  ◌≡◌, refl, arith, Bool, true, false, ◌==◌, ◌!=◌, String, Option, none, some, List, [], ◌∷◌, All,
  if◌then◌else◌,
}
use karlon.Base.Dict.{Dict, get, lookup, insert, erase, or_empty, get-erase}
use karlon.Base.Result.{Error, Result, ok}
use karlon.Base.Text.{sprint}
use karlon.Base.Yaml.{Yaml}
use karlon.Bundles.Api.{Source, static_bundle, dynamic_bundle, fill_bundle, create, empty_bundle}
use karlon.Cli.{dump_bundle}
use karlon.Cli.Clusters.{
  CreateFlags, or_default, file_path, create_cluster_command, update_external,
}
use karlon.Clusters.External.{unmanaged_secret, without_notes, detach, unmanage_external}
use karlon.Clusters.Manifest.{generate_cluster_manifest}
use karlon.Clusters.Queries.{
  KarlonCluster, cluster_type_label_key, profile_annotation_key, profile_app_annotation_key,
}
use karlon.Objects.{Secret}
use karlon.Profiles.Api.{get_profile, get_profile_config_map}
use karlon.Repos.{RepoCtxCfg, get_repo_url}
use karlon.Repos.Pushed.{Commit, IsPublished, IsDone, commit_and_push_file_lem}
use karlon.Repos.CommitPush.{commit_and_push_file}
use karlon.Services.{Call, Answer, Api, State, Libraries, secret_get, secret_create, secret_patch}
use karlon.Services.Exec.{Flow, stop, go, to_result}
use karlon.Services.Quiet.{quiet, fixed}

-- a service that has the secret
abbrev pub holding : Secret → (c : Call) → Answer c
holding secr (secret_get ns name) = ok secr
holding secr c = quiet c

abbrev pub is_refused {ℓ} : {A : Type 0} {B : Type ℓ} → Flow Error A × B → Bool
is_refused (stop e, s) = true
is_refused (go a, s) = false

-- where the secret is stored, under the name and in the namespace, the command dump refuses it
unfoldable pub IsUndumpable : String → String → Secret → Type 0
IsUndumpable ns name secr =
    is_refused
      (dump_bundle {api = fixed (holding secr)} ns name (record { world = tt; calls = [] }))
    ≡ true

abbrev pub WritesUndumpable : String → String → Call → Type 0
WritesUndumpable ns name (secret_create stored secr) = IsUndumpable ns name secr
WritesUndumpable ns name _ = Unit

unlabelled-IsUndumpable :
    (ns name : String) (secr : Secret)
    → (get "kkkarlon-type" secr.meta.labels != "config-bundle") ≡ true
    → IsUndumpable ns name secr
unfolding IsUndumpable dump_bundle
unlabelled-IsUndumpable ns name secr h = ground arith

static-IsUndumpable :
    (ns name title desc tags manifest : String)
    → IsUndumpable ns name (static_bundle manifest (empty_bundle title desc tags))
unfolding static_bundle
static-IsUndumpable ns name title desc tags manifest =
    unlabelled-IsUndumpable ns name (static_bundle manifest (empty_bundle title desc tags))
      (unfold get insert lookup in refl)

dynamic-IsUndumpable :
    (ns name title desc tags url path revision src_type : String)
    → IsUndumpable ns name
        (dynamic_bundle url path revision src_type (empty_bundle title desc tags))
unfolding dynamic_bundle
dynamic-IsUndumpable ns name title desc tags url path revision src_type =
    unlabelled-IsUndumpable ns name
      (dynamic_bundle url path revision src_type (empty_bundle title desc tags))
      (unfold get insert lookup in refl)

module _ {api : Api} where
  abbrev Filled : String → String → Flow Error Secret × State api → Type 0
  Filled ns name (stop e, s) = All (WritesUndumpable ns name) s.calls
  Filled ns name (go secr, s) = IsUndumpable ns name secr × All (WritesUndumpable ns name) s.calls

  fill_bundle-undumpable :
      (ns name title desc tags : String) (src : Source) (s : State api)
      → All (WritesUndumpable ns name) s.calls
      → Filled ns name (fill_bundle src (empty_bundle title desc tags) s)
  unfolding fill_bundle
  fill_bundle-undumpable ns name title desc tags src s h = grind (
    arith,
    static-IsUndumpable ns name title desc tags,
    dynamic-IsUndumpable ns name title desc tags src.repo_url src.repo_path src.repo_revision
        src.src_type,
  )

  -- Whatever the services answer, every secret that a creation of a bundle writes is one that
  -- the command dump refuses under any name and namespace that it is stored under, if that
  -- holds of the calls before: the command asks for a label that no bundle has.
  pub created_bundle_undumpable :
      (dump_ns dump_name ns name desc tags : String) (src : Source) (s : State api)
      → All (WritesUndumpable dump_ns dump_name) s.calls
      → All (WritesUndumpable dump_ns dump_name) (create ns name src desc tags s).1.calls
  unfolding create
  created_bundle_undumpable dump_ns dump_name ns name desc tags src s h =
      grind (arith, fill_bundle-undumpable dump_ns dump_name name desc tags src)

-- the secrets that were patched, the latest first
unfoldable pub patched : List Call → List Secret
patched [] = []
patched (secret_patch secr ∷ calls) = secr ∷ patched calls
patched (c ∷ calls) = patched calls

-- the last secret that was patched marks no external cluster and names no profile
unfoldable pub IsUnmarked : List Secret → Type 0
IsUnmarked [] = ⊥
IsUnmarked (secr ∷ older) =
    (get cluster_type_label_key secr.meta.labels ≡ "")
    × (get profile_annotation_key (or_empty secr.meta.annotations) ≡ "")

unmarked_notes :
    (notes : Option (Dict String))
    → get profile_annotation_key (or_empty (without_notes notes)) ≡ ""
unmarked_notes none = unfold get lookup in refl
unmarked_notes (some notes) = ground (
  arith,
  get-erase profile_app_annotation_key profile_annotation_key (erase profile_annotation_key notes),
  get-erase profile_annotation_key profile_annotation_key notes,
)

unmanaged-IsUnmarked :
    (secr : Secret) (older : List Secret) → IsUnmarked (unmanaged_secret secr ∷ older)
unfolding IsUnmarked unmanaged_secret
unmanaged-IsUnmarked secr older = (
  get-erase cluster_type_label_key cluster_type_label_key secr.meta.labels,
  unmarked_notes secr.meta.annotations,
)

module _ {api : Api} where
  get_profile-patched :
      (name ns : String) (s : State api) → patched (get_profile name ns s).1.calls ≡ patched s.calls
  unfolding get_profile get_profile_config_map patched
  get_profile-patched name ns s = ground arith

  abbrev Left : Flow Error (Unit {0}) × State api → Type 0
  Left (stop e, s) = Unit
  Left (go x, s) = IsUnmarked (patched s.calls)

  detach-Left : (secr : Secret) (s : State api) → Left (detach secr s)
  unfolding detach patched
  detach-Left secr s = ground (arith, unmanaged-IsUnmarked secr (patched s.calls))

  unmanage_external-Left : (ns name : String) (s : State api) → Left (unmanage_external ns name s)
  unfolding unmanage_external
  unmanage_external-Left ns name s = grind (arith, detach-Left)

module _ (lib : Libraries) {api : Api} where
  -- If UnmanageExternal ends well and Kubernetes then has no profile of the new name, an update
  -- of an external cluster to it is refused, but the last secret that it has patched has
  -- neither the label of an external cluster nor a profile any more: the cluster is left
  -- unmanaged. The name of the profile is not empty and not that of the cluster's.
  pub missing_profile_unmanages :
      (argocd_ns karlon_ns name profile_name : String) (clust : KarlonCluster) (s : State api)
      → (profile_name == "") ≡ false
      → (profile_name == clust.profile_name) ≡ false
      → (unmanage_external argocd_ns name s).0 ≡ go tt
      → is_refused (get_profile profile_name karlon_ns (unmanage_external argocd_ns name s).1)
        ≡ true
      → (is_refused (update_external lib argocd_ns karlon_ns name "" profile_name clust s) ≡ true)
        × IsUnmarked
            (patched (update_external lib argocd_ns karlon_ns name "" profile_name clust s).1.calls)
  unfolding update_external
  missing_profile_unmanages argocd_ns karlon_ns name profile_name clust s given new unmanaged
        missing =
      grind
        (arith, get_profile-patched profile_name karlon_ns, unmanage_external-Left argocd_ns name s)

abbrev pub push_message : CreateFlags → String
push_message f = sprint ("Add cluster manifest for " ∷ f.cluster_name ∷ [])

-- the manifest's file, on the branch that the flags name
abbrev pub commit_of : CreateFlags → String → String → Commit
commit_of f url manifest = record {
  repo_url = url;
  branch = or_default f.repo_revision "main";
  file_path = file_path f;
  content = manifest;
  msg = push_message f;
}

-- the generated manifest was committed and pushed, to the repository
pub record IsStored (marshal : Yaml → Result String) (f : CreateFlags) (repo : Result String)
    (before calls : List Call) : Type 0 where
  pub url : String
  pub manifest : String
  pub named : repo ≡ ok url
  pub generated :
      generate_cluster_manifest marshal f.cluster_name f.namespace f.replicas f.k8s_version
      ≡ ok manifest
  pub published : IsPublished (commit_of f url manifest) before calls

stored_lem :
    (marshal : Yaml → Result String) (f : CreateFlags) (repo : Result String) (before : List Call)
    (url manifest : String) (calls : List Call)
    → repo ≡ ok url
    → generate_cluster_manifest marshal f.cluster_name f.namespace f.replicas f.k8s_version
      ≡ ok manifest
    → IsPublished (commit_of f url manifest) before calls
    → IsStored marshal f repo before calls
stored_lem marshal f repo before url manifest calls named generated published = record {
  url = url;
  manifest = manifest;
  named = named;
  generated = generated;
  published = published;
}

module _ (marshal : Yaml → Result String) (unmarshal : String → Result RepoCtxCfg) {api : Api} where
  -- the repository that the flags name, or that their alias stands for, and the calls so far
  abbrev pub named_repo : CreateFlags → State api → Result String
  named_repo f s =
      if f.repo_url == ""
      then to_result (get_repo_url unmarshal f.repo_alias s).0
      else ok f.repo_url

  abbrev pub calls_so_far : CreateFlags → State api → List Call
  calls_so_far f s =
      if f.repo_url == "" then (get_repo_url unmarshal f.repo_alias s).1.calls else s.calls

  -- how create may end: with an error, with the manifest in git, or with the manifest printed
  abbrev pub IsCreated : CreateFlags → State api → Flow Error (Option String) × State api → Type 0
  IsCreated f before (stop e, s) = Unit
  IsCreated f before (go none, s) =
      (f.output_yaml ≡ false)
      × IsStored marshal f (named_repo f before) (calls_so_far f before) s.calls
  IsCreated f before (go (some manifest), s) =
      (f.output_yaml ≡ true)
      × (s.calls ≡ before.calls)
      × (generate_cluster_manifest marshal f.cluster_name f.namespace f.replicas f.k8s_version
          ≡ ok manifest)

  published_command :
      (f : CreateFlags) (url manifest : String) (s : State api)
      → IsDone (commit_of f url manifest) s.calls (
          commit_and_push_file url
            (or_default f.repo_revision "main")
            (file_path f)
            manifest
            (push_message f)
            s)
  published_command f url manifest s = commit_and_push_file_lem (commit_of f url manifest) s

  -- A creation of a cluster that ends well without the flag for output has generated the
  -- manifest and put it into git, in the repository that the flags name or that their alias
  -- stands for: behind the look-up of an alias, its calls clone the branch of the flags, or
  -- main, into a new directory, write the manifest to the file of the cluster, add and commit
  -- that file, push with a user and a password, and remove the directory, in this order and
  -- with no other call. A creation with the flag has made no call and returns the generated
  -- manifest.
  pub create_cluster_command-IsCreated :
      (f : CreateFlags) (s : State api)
      → IsCreated f s (create_cluster_command marshal unmarshal f s)
  unfolding create_cluster_command
  create_cluster_command-IsCreated f s =
      grind (arith, published_command f, stored_lem marshal f (named_repo f s) (calls_so_far f s))

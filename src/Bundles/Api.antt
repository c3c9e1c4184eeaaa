-- ===== src/Bundles/Api.antt =====
-- pkg/bundle: Create, Update, Delete, List and GetBundlesFromProfile.
use karlon.Base.{
  Bool, true, false, ◌==◌, ◌!=◌, ◌&&◌, ◌||◌, String, some, List, [], ◌∷◌, map, is_empty,
  if◌then◌else◌,
}
use karlon.Base.Dict.{lookup, insert, get, or_empty}
use karlon.Base.Result.{Error, Result, ok, err, message, because, wrapping, text, is_not_found}
use karlon.Base.Text.{sprint}
use karlon.Objects.{Secret, Profile}
use karlon.Services.{
  Api, secret_get, secret_list, secret_create, secret_update, secret_delete, read_file,
}
use karlon.Services.Exec.{Exec, ◌>>=◌, ◌>>◌, pure, return_now, perform, or_else, must}
use karlon.Bundles.{
  repo_url_annotation_key, repo_path_annotation_key, repo_revision_annotation_key,
  src_type_annotation_key, Bundle, ListItem,
}
use karlon.Bundles.Names.{err_invalid_name, is_valid_k8s_name}

-- the secret of Create, before its kind is known
abbrev pub empty_bundle : String → String → String → Secret
empty_bundle name desc tags = record {
  meta = record {
    name = name;
    namespace = "";
    labels = ("managed-by", "kkarlon") ∷ ("kkarlon-type", "config-bundle") ∷ [];
    annotations = some [];
    finalizers = [];
    deleting = false;
  };
  content = ("description", desc) ∷ ("tags", tags) ∷ [];
}

abbrev pub with_label : String → String → Secret → Secret
with_label key value s = record s {
  meta = record s.meta { labels = insert key value s.meta.labels };
}

abbrev pub with_annotation : String → String → Secret → Secret
with_annotation key value s = record s {
  meta = record s.meta { annotations = some (insert key value (or_empty s.meta.annotations)) };
}

abbrev pub with_content : String → String → Secret → Secret
with_content key value s = record s { content = insert key value s.content }

unfoldable pub static_bundle : String → Secret → Secret
static_bundle manifest s = with_content "data" manifest (with_label "bundle-type" "static" s)

unfoldable pub dynamic_bundle : String → String → String → String → Secret → Secret
dynamic_bundle repo_url repo_path repo_revision src_type s =
    with_annotation src_type_annotation_key src_type (
      with_annotation repo_revision_annotation_key repo_revision (
        with_annotation repo_path_annotation_key repo_path (
          with_annotation repo_url_annotation_key repo_url (with_label "bundle-type" "dynamic" s))))

-- what Create and Update are asked for
pub record Source : Type 0 where
  pub from_file : String
  pub repo_url : String
  pub repo_path : String
  pub repo_revision : String
  pub src_type : String

-- `s.Data[key] = value` where the text is given and new. Data is nil exactly if it is empty, since
-- an empty map is not sent, and the panic of a write to it is an error here.
unfoldable pub change_content : String → String → Secret × Bool → Result (Secret × Bool)
change_content key value (s, dirty) =
    if value != "" && value != get key s.content
    then if is_empty s.content
      then err (message "assignment to entry in nil map")
      else ok (with_content key value s, true)
    else ok (s, dirty)

-- the Bundle that a secret is read as
unfoldable pub bundle_of : String → Secret → Bundle
bundle_of name secr = record {
  name = name;
  content = lookup "data" secr.content;
  repo_url = get repo_url_annotation_key (or_empty secr.meta.annotations);
  repo_path = get repo_path_annotation_key (or_empty secr.meta.annotations);
  repo_revision = get repo_revision_annotation_key (or_empty secr.meta.annotations);
  src_type = get src_type_annotation_key (or_empty secr.meta.annotations);
}

-- one item of List
unfoldable pub item_of : Secret → ListItem
item_of secret =
    let label = get "bundle-type" secret.meta.labels in
    let bundle_type = if label == "" then "(undefined)" else label in
    let notes = or_empty secret.meta.annotations in
    record {
      name = secret.meta.name;
      kind = bundle_type;
      tags = get "tags" secret.content;
      repo = if bundle_type != "dynamic" then "(N/A)" else get repo_url_annotation_key notes;
      path = if bundle_type != "dynamic" then "(N/A)" else get repo_path_annotation_key notes;
      revision = get repo_revision_annotation_key notes;
      src_type = get src_type_annotation_key notes;
      description = get "description" secret.content;
    }

module _ {api : Api} where
  -- the secret that Create stores, by the kind of the source
  unfoldable pub fill_bundle : Source → Secret → Exec api Error Secret
  fill_bundle src secr =
      if src.from_file != "" && src.repo_url != ""
      then return_now (message "file and repo cannot both be specified")
      else if src.from_file != ""
      then (do
        got ← perform (read_file src.from_file)
        manifest ← must "failed to read file" got
        pure (static_bundle manifest secr))
      else if src.repo_url != ""
      then pure (dynamic_bundle src.repo_url src.repo_path src.repo_revision src.src_type secr)
      else return_now (message "the bundle must be created from a file or repo URL")

  -- Create
  unfoldable pub create : String → String → Source → String → String → Exec api Error (Unit {0})
  create ns name src desc tags = do
    if is_valid_k8s_name name then pure tt else return_now (wrapping err_invalid_name name)
    found ← perform (secret_get ns name)
    elim found [
      | ok secr ↦ return_now (message "a bundle with that name already exists")
      | err e ↦
          if is_not_found e
          then pure tt
          else return_now (because "failed to check for existence of bundle" e)
    ]
    secr ← fill_bundle src (empty_bundle name desc tags)
    created ← perform (secret_create ns secr)
    must "failed to create secret" created

  -- the part of Update that is about the manifest and the reference to git
  unfoldable pub update_source : Source → Secret × Bool → Exec api Error (Secret × Bool)
  update_source src (secr, dirty) =
      if src.from_file != "" && src.repo_url != ""
      then return_now (message "file and repo cannot both be specified")
      else if src.from_file != ""
      then (do
        if get "bundle-type" secr.meta.labels != "static"
            then return_now (message "manifest content can only be changed if bundle is static")
            else pure tt
        got ← perform (read_file src.from_file)
        manifest ← must "failed to read file" got
        if is_empty secr.content
            then return_now (message "assignment to entry in nil map")
            else pure (with_content "data" manifest secr, true))
      else if src.repo_url != "" || src.repo_path != ""
      then if get "bundle-type" secr.meta.labels == "dynamic"
        then return_now (message "cannot update git reference of a dynamic bundle")
        else return_now (message "cannot specify repo URL or path for an existing static bundle")
      else pure (secr, dirty)

  -- Update; it takes no revision and no source type
  unfoldable pub update : String → String → Source → String → String → Exec api Error (Unit {0})
  update ns name src desc tags = do
    if is_valid_k8s_name name then pure tt else return_now (wrapping err_invalid_name name)
    got ← perform (secret_get ns name)
    secr ← must "failed to get bundle secret" got
    described ← or_else (change_content "description" desc (secr, false)) return_now
    tagged ← or_else (change_content "tags" tags described) return_now
    (changed, dirty) ← update_source src tagged
    if dirty
        then (do
          updated ← perform (secret_update ns changed)
          must "failed to update secret" updated)
        else pure tt

  -- Delete
  unfoldable pub delete : String → String → Exec api Error (Unit {0})
  delete ns name = do
    deleted ← perform (secret_delete ns name)
    must "failed to delete bundle" deleted

  -- List; a nil slice is an empty one
  unfoldable pub list : String → Exec api Error (List ListItem)
  list ns = do
    listed ← perform (secret_list ns "managed-by=kkarlon,kkarlon-type=config-bundle")
    secrets ← or_else listed λ e. return_now (wrapping (message "failed to list secrets") (text e))
    pure (map item_of secrets)

  -- the loop of GetBundlesFromProfile, and the function
  unfoldable pub get_bundles : String → List String → Exec api Error (List Bundle)
  get_bundles ns [] = pure []
  get_bundles ns (name ∷ names) = do
    got ← perform (secret_get ns name)
    secr ← must (sprint ("failed to get bundle secret " ∷ name ∷ [])) got
    rest ← get_bundles ns names
    pure (bundle_of name secr ∷ rest)

  unfoldable pub get_bundles_from_profile : Profile → String → Exec api Error (List Bundle)
  get_bundles_from_profile profile ns = get_bundles ns profile.spec.bundles

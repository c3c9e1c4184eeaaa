-- ===== src/Bundles/Kinds.antt =====
-- A stored bundle is either static or dynamic.
use karlon.Base.{
  Bool, true, false, ◌≡◌, ◌⊎◌, inl, inr, refl, arith, ◌==◌, ◌!=◌, String, some, none, All, subst,
  sym,
}
use mathlib.Core.Bool.{false≢true}
use karlon.Base.Dict.{lookup, insert, get, or_empty, lookup-insert}
use karlon.Base.Result.{Error, Result, ok, err}
use karlon.Objects.{Secret}
use karlon.Services.{Call, Api, State, secret_get, secret_create, secret_update}
use karlon.Services.Exec.{Flow, stop, go, ask}
use karlon.Bundles.{repo_url_annotation_key}
use karlon.Bundles.Api.{
  Source, static_bundle, dynamic_bundle, change_content, fill_bundle, create, update_source, update,
  empty_bundle, with_content,
}

-- the manifest is in the secret, and no repository
abbrev pub IsStatic : Secret → Type 0
IsStatic s =
    (get "bundle-type" s.meta.labels ≡ "static")
    × ((manifest : String) × (lookup "data" s.content ≡ some manifest))
    × (get repo_url_annotation_key (or_empty s.meta.annotations) ≡ "")

-- the repository is in the secret, and no manifest
abbrev pub IsDynamic : Secret → Type 0
IsDynamic s =
    (get "bundle-type" s.meta.labels ≡ "dynamic")
    × (lookup "data" s.content ≡ none)
    × ((get repo_url_annotation_key (or_empty s.meta.annotations) == "") ≡ false)

unfoldable pub IsBundle : Secret → Type 0
IsBundle s = IsStatic s ⊎ IsDynamic s

-- a write of a secret writes a bundle
abbrev pub WritesBundle : Call → Type 0
WritesBundle (secret_create ns s) = IsBundle s
WritesBundle (secret_update ns s) = IsBundle s
WritesBundle c = Unit

static-IsBundle :
    (name desc tags manifest : String)
    → IsBundle (static_bundle manifest (empty_bundle name desc tags))
unfolding static_bundle IsBundle
static-IsBundle name desc tags manifest =
    inl (unfold get insert lookup in (refl, (manifest, refl), refl))

dynamic-IsBundle :
    (name desc tags url path revision src_type : String)
    → (url == "") ≡ false
    → IsBundle (dynamic_bundle url path revision src_type (empty_bundle name desc tags))
unfolding dynamic_bundle IsBundle
dynamic-IsBundle name desc tags url path revision src_type h =
    inr (unfold get insert lookup in (refl, refl, h))

-- a new manifest of a static bundle
static_again :
    (secr : Secret) (manifest : String)
    → IsBundle secr
    → (get "bundle-type" secr.meta.labels != "static") ≡ false
    → IsBundle (with_content "data" manifest secr)
unfolding IsBundle
static_again secr manifest (inl (label, content, url)) h =
    inl (label, (manifest, lookup-insert "data" "data" manifest secr.content), url)
static_again secr manifest (inr (label, content, url)) h =
    let never : true ≡ false = subst (λ t. (t != "static") ≡ false) label h in
    absurd (false≢true (sym never))

-- another field of the data
other_content :
    (key value : String) (secr : Secret)
    → (key == "data") ≡ false
    → IsBundle secr
    → IsBundle (with_content key value secr)
unfolding IsBundle
other_content key value secr h (inl (label, (manifest, content), url)) =
    inl (label, (manifest, ground (arith, lookup-insert key "data" value secr.content)), url)
other_content key value secr h (inr (label, content, url)) =
    inr (label, ground (arith, lookup-insert key "data" value secr.content), url)

-- a bundle with the same metadata
unfoldable pub IsKept : Secret → Secret → Type 0
IsKept old new = IsBundle new × (new.meta ≡ old.meta)

-- no secret is created, and a secret that is written is a bundle with the metadata of the old one
abbrev pub WritesKept : Secret → Call → Type 0
WritesKept old (secret_create ns s) = ⊥
WritesKept old (secret_update ns s) = IsKept old s
WritesKept old c = Unit

kept_lem : (old : Secret) → IsBundle old → IsKept old old
unfolding IsKept
kept_lem old h = (h, refl)

manifest_again :
    (old secr : Secret) (manifest : String)
    → IsKept old secr
    → (get "bundle-type" secr.meta.labels != "static") ≡ false
    → IsKept old (with_content "data" manifest secr)
unfolding IsKept
manifest_again old secr manifest (bundle, same) h = (static_again secr manifest bundle h, same)

content_again :
    (key value : String) (old secr : Secret)
    → (key == "data") ≡ false
    → IsKept old secr
    → IsKept old (with_content key value secr)
unfolding IsKept
content_again key value old secr h (bundle, same) = (other_content key value secr h bundle, same)

abbrev KeepsBundle : Secret → Result (Secret × Bool) → Type 0
KeepsBundle old (err e) = Unit
KeepsBundle old (ok read) = IsKept old read.0

change_content-KeepsBundle :
    (key value : String) (old : Secret) (read : Secret × Bool)
    → (key == "data") ≡ false
    → IsKept old read.0
    → KeepsBundle old (change_content key value read)
unfolding change_content
change_content-KeepsBundle key value old (secr, dirty) h hb =
    ground (arith, content_again key value old secr h hb)

module _ {api : Api} where
  -- what a step may have done: only bundles were written, and its result is one
  abbrev Filled : Flow Error Secret × State api → Type 0
  Filled (stop e, s) = All WritesBundle s.calls
  Filled (go secr, s) = IsBundle secr × All WritesBundle s.calls

  fill_bundle-Filled :
      (src : Source) (name desc tags : String) (s : State api)
      → All WritesBundle s.calls
      → Filled (fill_bundle src (empty_bundle name desc tags) s)
  unfolding fill_bundle
  fill_bundle-Filled src name desc tags s hs = grind (
    arith,
    static-IsBundle name desc tags,
    dynamic-IsBundle name desc tags src.repo_url src.repo_path src.repo_revision src.src_type,
  )

  -- Whatever the services answer, every secret that a creation of a bundle writes is either
  -- static, with a manifest and no repository, or dynamic, with a repository and no manifest,
  -- if that holds of the calls before.
  pub create-IsBundle :
      (ns name : String) (src : Source) (desc tags : String) (s : State api)
      → All WritesBundle s.calls
      → All WritesBundle (create ns name src desc tags s).1.calls
  unfolding create
  create-IsBundle ns name src desc tags s hs = grind (arith, fill_bundle-Filled src name desc tags)

  abbrev Changed : Secret → Flow Error (Secret × Bool) × State api → Type 0
  Changed old (stop e, s) = All (WritesKept old) s.calls
  Changed old (go read, s) = IsKept old read.0 × All (WritesKept old) s.calls

  update_source-Changed :
      (src : Source) (old : Secret) (read : Secret × Bool) (s : State api)
      → IsKept old read.0
      → All (WritesKept old) s.calls
      → Changed old (update_source src read s)
  unfolding update_source
  update_source-Changed src old (secr, dirty) s hb hs = grind (arith, manifest_again old secr)

  -- If the secret that an update of a bundle reads is a static or a dynamic bundle, the update
  -- creates no secret, and each secret that it writes is a bundle with the metadata of the one
  -- that it read: the labels, so the kind too, and the reference to git are unchanged, a static
  -- bundle has a manifest and no repository, and a dynamic one a repository and no manifest.
  -- The condition is that this holds of the calls before.
  pub update-IsBundle :
      (ns name : String) (src : Source) (desc tags : String) (old : Secret) (s : State api)
      → ask api (secret_get ns name) s.world ≡ ok old
      → IsBundle old
      → All (WritesKept old) s.calls
      → All (WritesKept old) (update ns name src desc tags s).1.calls
  unfolding update
  update-IsBundle ns name src desc tags old s got hb hs = grind (
    arith,
    kept_lem old hb,
    update_source-Changed src old,
    change_content-KeepsBundle "description" desc old,
    change_content-KeepsBundle "tags" tags old,
  )

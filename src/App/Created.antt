-- ===== src/App/Created.antt =====
-- What the deletion of an app accepts.
use karlon.Base.{◌≡◌, refl, arith, Bool, true, ◌!=◌, String, All}
use karlon.Base.Dict.{get, lookup}
use karlon.Base.Result.{Error, Result, ok, err}
use karlon.Objects.{ApplicationSet}
use karlon.Services.{Call, Api, State, app_set_get, app_set_delete}
use karlon.Services.Exec.{Flow, stop, go, ask}
use karlon.App.{create, delete}

-- the call deletes no application set
abbrev pub KeepsSets : Call → Type 0
KeepsSets (app_set_delete ns n) = ⊥
KeepsSets _ = Unit

-- the answer is no application set of an app
abbrev pub IsForeign : Result ApplicationSet → Type 0
IsForeign (err e) = Unit
IsForeign (ok app) = (get "kkarlon-type" app.labels != "application") ≡ true

module _ {api : Api} where
  abbrev pub IsRefused : Flow Error (Unit {0}) × State api → Type 0
  IsRefused (stop e, s) = All KeepsSets s.calls
  IsRefused (go x, s) = ⊥

  -- If ArgoCD answers an application set without the label of apps under a name, or an error, a
  -- deletion of the app of that name ends with an error and deletes nothing, if no call before
  -- did.
  pub foreign_app_kept :
      (ns name : String) (s : State api)
      → ((w : api.World) → IsForeign (ask api (app_set_get ns name) w))
      → All KeepsSets s.calls
      → IsRefused (delete ns name s)
  unfolding delete
  foreign_app_kept ns name s foreign kept = grind (arith, foreign)

-- a created app has the label
created_is_app :
    (ns name dest_ns project src_path src_repo_url src_target_revision : String)
    (auto_sync auto_prune : Bool)
    → get "kkarlon-type"
        (create ns name dest_ns project src_path src_repo_url src_target_revision auto_sync
          auto_prune).set.labels
      ≡ "application"
unfolding create get lookup
created_is_app ns name dest_ns project src_path src_repo_url src_target_revision auto_sync
      auto_prune =
    refl

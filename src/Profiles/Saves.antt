-- ===== src/Profiles/Saves.antt =====
-- What an update of a profile writes.
use karlon.Base.{◌≡◌, ap, arith, Bool, true, false, String, List, ◌∷◌, All}
use karlon.Base.Result.{Error}
use karlon.Objects.{Profile, ProfileSpec}
use karlon.Services.{
  Call, Api, State, Entries, secret_create, secret_update, config_map_update, config_map_delete,
  profile_create, profile_update, profile_delete, git_commit, git_push, file_write, file_remove,
}
use karlon.Services.Exec.{Flow, stop, go}
use karlon.Bundles.Api.{list}
use karlon.Profiles.Api.{get_augmented, get_profile, get_profile_config_map}
use karlon.Profiles.Writes.{Change, apply_change, save_profile, update_profile}

-- the call writes no bundle, no profile and nothing in git
abbrev pub ReadsOnly : Call → Type 0
ReadsOnly (secret_create ns s) = ⊥
ReadsOnly (secret_update ns s) = ⊥
ReadsOnly (config_map_update ns m) = ⊥
ReadsOnly (config_map_delete ns n) = ⊥
ReadsOnly (profile_create p) = ⊥
ReadsOnly (profile_update p) = ⊥
ReadsOnly (profile_delete ns n) = ⊥
ReadsOnly (git_commit dir msg) = ⊥
ReadsOnly (git_push dir creds) = ⊥
ReadsOnly (file_write dir path text) = ⊥
ReadsOnly (file_remove dir path) = ⊥
ReadsOnly _ = Unit

-- a specification that a change has made out of another one, which it was not
unfoldable pub IsResult : Change → ProfileSpec → Type 0
IsResult c spec = (old : ProfileSpec) × (apply_change c old ≡ (spec, true))

result_lem :
    (c : Change) (old : ProfileSpec)
    → (apply_change c old).1 ≡ true
    → IsResult c (apply_change c old).0
unfolding IsResult
result_lem c old h = (old, ap (λ (dirty : Bool). ((apply_change c old).0, dirty)) h)

-- the last call stores a profile with such a specification
unfoldable pub StoresResult : Change → List Call → Type 0
StoresResult c (profile_update p ∷ calls) = IsResult c p.spec
StoresResult c _ = ⊥

unfoldable Stores : Profile → List Call → Type 0
Stores p (profile_update q ∷ calls) = q ≡ p
Stores p _ = ⊥

stored_result :
    (c : Change) (p : Profile) (calls : List Call)
    → Stores p calls
    → IsResult c p.spec
    → StoresResult c calls
unfolding Stores StoresResult
stored_result c p calls stored result = ground arith

module _ {api : Api} where
  -- how an update may end: with an error, without a change, or with the changed profile stored
  abbrev pub Updated : Change → Flow Error Bool × State api → Type 0
  Updated c (stop e, s) = Unit
  Updated c (go false, s) = All ReadsOnly s.calls
  Updated c (go true, s) = StoresResult c s.calls

module _ (embedded : Entries) {api : Api} where
  list-ReadsOnly :
      (ns : String) (s : State api) → All ReadsOnly s.calls → All ReadsOnly (list ns s).1.calls
  unfolding list
  list-ReadsOnly ns s hs = ground arith

  get_profile-ReadsOnly :
      (name ns : String) (s : State api)
      → All ReadsOnly s.calls
      → All ReadsOnly (get_profile name ns s).1.calls
  unfolding get_profile get_profile_config_map
  get_profile-ReadsOnly name ns s hs = ground arith

  get_augmented-ReadsOnly :
      (name ns : String) (s : State api)
      → All ReadsOnly s.calls
      → All ReadsOnly (get_augmented name ns s).1.calls
  unfolding get_augmented
  get_augmented-ReadsOnly name ns s hs = grind (arith, get_profile-ReadsOnly name ns)

  abbrev EndsInStore : Profile → Flow Error (Unit {0}) × State api → Type 0
  EndsInStore p (stop e, s) = Unit
  EndsInStore p (go done, s) = Stores p s.calls

  save_profile-EndsInStore :
      (argocd_ns ns : String) (p : Profile) (s : State api)
      → EndsInStore p (save_profile embedded argocd_ns ns p s)
  unfolding save_profile Stores
  save_profile-EndsInStore argocd_ns ns p s = ground arith

  -- If no call before wrote a bundle, a profile or to git, an update of a profile that reports
  -- no change has written none of these either, and one that reports a change ends with the
  -- call that stores a profile, whose specification the change has made out of another one.
  pub update_profile-Updated :
      (argocd_ns ns name : String) (c : Change) (s : State api)
      → All ReadsOnly s.calls
      → Updated c (update_profile embedded argocd_ns ns name c s)
  unfolding update_profile
  update_profile-Updated argocd_ns ns name c s hs = grind (
    arith,
    list-ReadsOnly ns,
    get_augmented-ReadsOnly name ns,
    save_profile-EndsInStore argocd_ns ns,
    result_lem c,
    stored_result c,
  )

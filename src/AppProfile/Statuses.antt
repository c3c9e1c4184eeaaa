-- ===== src/AppProfile/Statuses.antt =====
-- What the second loop writes to the profiles.
use karlon.Base.{
  ◌≡◌, ◌⊎◌, refl, sym, ◌∙◌, ap, arith, Bool, true, false, not, ◌&&◌, ◌||◌, ◌==◌, String, Option,
  List, [], ◌∷◌, contains, eq_iff, Bool-cases, inl, inr,
}
use karlon.Base.Dict.{lookup}
use karlon.Base.Sets.{from_slice, equal_sets, equal_sets_iff, contains-add_all}
use karlon.Objects.{AppProfile}
use karlon.Services.{Call, Api, State, app_profile_status_update}
use karlon.AppProfile.Clusters.{SetMap}
use karlon.AppProfile.Profiles.{
  scan_apps, invalid_names, assessed, is_stale, health_of, reconcile_profile,
}
use karlon.AppProfile.Spread.{scan_apps_bad}

invalid_names_lem :
    (prof : AppProfile) (bad : List String) (a : String)
    → contains a (invalid_names prof bad) ≡ contains a bad
unfolding invalid_names contains
invalid_names_lem prof bad a =
    elim (Bool-cases (equal_sets (from_slice prof.invalid_app_names) bad)) [
      | inl same ↦
          let members = (equal_sets_iff (from_slice prof.invalid_app_names) bad).0 same a in
          ground (arith, members, contains-add_all a prof.invalid_app_names [])
      | inr differ ↦ ground arith
    ]

-- the status names exactly the apps of the profile that are not valid, and the health says whether
-- there are any
abbrev pub IsAssessed : List String → AppProfile → Type 0
IsAssessed valid prof =
    ((a : String)
      → contains a prof.invalid_app_names ≡ (contains a prof.app_names && not (contains a valid)))
    × (prof.health ≡ health_of prof.invalid_app_names)

assessed-IsAssessed :
    (valid : List String) (clusters : Option (List String)) (prof : AppProfile) (m : SetMap)
    → IsAssessed valid (assessed prof (scan_apps valid clusters prof.app_names [] m).0)
unfolding assessed contains
assessed-IsAssessed valid clusters prof m = (
  λ a. ground (
    arith,
    invalid_names_lem prof (scan_apps valid clusters prof.app_names [] m).0 a,
    scan_apps_bad valid clusters prof.app_names [] m a,
  ),
  refl,
)

second_false : (a b : Bool) → (not a || not b) ≡ false → b ≡ true
second_false a b h = ground arith

-- a status that is not stale is right
fresh-IsAssessed :
    (valid : List String) (clusters : Option (List String)) (prof : AppProfile) (m : SetMap)
    → is_stale prof (scan_apps valid clusters prof.app_names [] m).0 ≡ false
    → IsAssessed valid prof
unfolding invalid_names contains
fresh-IsAssessed valid clusters prof m h =
    let bad = (scan_apps valid clusters prof.app_names [] m).0 in
    let same : equal_sets (from_slice prof.invalid_app_names) bad ≡ true = ground arith in
    let kept : invalid_names prof bad ≡ prof.invalid_app_names = rw same in
    (
      λ a.
          let listed = invalid_names_lem prof bad a in
          ground (arith, kept, listed, scan_apps_bad valid clusters prof.app_names [] m a),
      (eq_iff prof.health (health_of prof.invalid_app_names)).0 (
          ap (λ names. prof.health == health_of names) (sym kept)
          ∙ second_false (equal_sets (from_slice prof.invalid_app_names) bad)
              (prof.health == health_of (invalid_names prof bad)) h),
    )

-- the call that writes a right status of the profile
abbrev pub IsShown : List String → AppProfile → Call → Type 0
IsShown valid prof (app_profile_status_update p) =
    IsAssessed valid p × (p.name ≡ prof.name) × (p.app_names ≡ prof.app_names)
IsShown valid prof _ = ⊥

module _ {api : Api} where
  -- Whatever the services answer, a round of the second loop makes no call for a profile whose
  -- status names exactly its apps that are not valid and whose health fits that, or it makes
  -- one call that writes such a status to the profile.
  pub reconcile_profile_shows :
      (valid : List String) (by_profile : SetMap) (prof : AppProfile) (m : SetMap) (s : State api)
      → (IsAssessed valid prof × ((reconcile_profile valid by_profile prof m s).1.calls ≡ s.calls))
        ⊎ ((call : Call) × IsShown valid prof call
            × ((reconcile_profile valid by_profile prof m s).1.calls ≡ call ∷ s.calls))
  unfolding reconcile_profile assessed
  reconcile_profile_shows valid by_profile prof m s =
      let bad = (scan_apps valid (lookup prof.name by_profile) prof.app_names [] m).0 in
      let done = assessed-IsAssessed valid (lookup prof.name by_profile) prof m in
      elim (Bool-cases (is_stale prof bad)) [
        | inl stale ↦
            inr (app_profile_status_update (assessed prof bad), (done, refl, refl), ground arith)
        | inr fresh ↦
            inl (fresh-IsAssessed valid (lookup prof.name by_profile) prof m fresh, ground arith)
      ]

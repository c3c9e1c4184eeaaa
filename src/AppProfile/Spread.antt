-- ===== src/AppProfile/Spread.antt =====
-- Which clusters an app has after the second loop.
use karlon.Base.{
  ◌≡◌, arith, Bool, not, ◌&&◌, ◌||◌, ◌==◌, String, Option, none, some, List, [], ◌∷◌, contains,
  eq_iff, Bool-cases, inl, inr,
}
use karlon.Base.Dict.{Dict, lookup, insert, lookup-insert}
use karlon.Base.Sets.{add, union, contains-add, contains-add_all}
use karlon.Objects.{Application, AppProfile}
use karlon.Services.{Api, State}
use karlon.Services.Exec.{go}
use karlon.AppProfile.Clusters.{SetMap, or_none, set_of}
use karlon.AppProfile.Profiles.{deploy, scan_apps, reconcile_profile, reconcile_profiles}
use karlon.AppProfile.Deployed.{any, IsNamed, flow-cases}
use karlon.AppProfile.{by_name}

pub by_name-IsNamed :
    (apps : List Application) (m : Dict Application) → IsNamed m → IsNamed (by_name apps m)
unfolding by_name
by_name-IsNamed [] m named = named
by_name-IsNamed (app ∷ apps) m named =
    by_name-IsNamed apps (insert app.meta.name app m) (λ name a found.
      ground
        (arith, lookup-insert app.meta.name name app m, named name a, eq_iff app.meta.name name))

deploy_lem :
    (clusters : Option (List String)) (app a c : String) (m : SetMap)
    → contains c (set_of a (deploy clusters app m))
      ≡ (app == a && contains c (or_none clusters) || contains c (set_of a m))
unfolding deploy contains set_of
deploy_lem none app a c m = ground (arith, lookup-insert app a [] m, eq_iff app a)
deploy_lem (some clusters) app a c m = ground (
  arith,
  lookup-insert app a (union (or_none (lookup app m)) clusters) m,
  contains-add_all c clusters (or_none (lookup app m)),
  eq_iff app a,
)

-- the clusters of every app after a profile's names
scan_apps_lem :
    (valid : List String) (clusters : Option (List String)) (apps bad : List String) (m : SetMap)
    (a c : String)
    → contains c (set_of a (scan_apps valid clusters apps bad m).1) ≡ (
        contains a valid && contains a apps && contains c (or_none clusters)
        || contains c (set_of a m))
unfolding scan_apps contains
scan_apps_lem valid clusters [] bad m a c = ground arith
scan_apps_lem valid clusters (app ∷ apps) bad m a c = elim (Bool-cases (contains app valid)) [
  | inl valid_app ↦ ground (
    arith,
    scan_apps_lem valid clusters apps bad (deploy clusters app m) a c,
    deploy_lem clusters app a c m,
    eq_iff app a,
    eq_iff a app,
  )
  | inr invalid_app ↦
      ground (arith, scan_apps_lem valid clusters apps (add app bad) m a c, eq_iff a app)
]

-- the names found not to be valid
pub scan_apps_bad :
    (valid : List String) (clusters : Option (List String)) (apps bad : List String) (m : SetMap)
    (a : String)
    → contains a (scan_apps valid clusters apps bad m).0
      ≡ (contains a apps && not (contains a valid) || contains a bad)
unfolding scan_apps contains
scan_apps_bad valid clusters [] bad m a = ground arith
scan_apps_bad valid clusters (app ∷ apps) bad m a = elim (Bool-cases (contains app valid)) [
  | inl valid_app ↦
      ground (arith, scan_apps_bad valid clusters apps bad (deploy clusters app m) a, eq_iff a app)
  | inr invalid_app ↦ ground (
    arith,
    scan_apps_bad valid clusters apps (add app bad) m a,
    contains-add a app bad,
    eq_iff a app,
  )
]

-- a profile brings an app to a cluster
abbrev pub brings : List String → SetMap → String → String → AppProfile → Bool
brings valid by_profile a c prof =
    contains a valid && contains a prof.app_names && contains c (set_of prof.name by_profile)

module _ {api : Api} where
  reconcile_profile_lem :
      (valid : List String) (by_profile : SetMap) (prof : AppProfile) (m m' : SetMap)
      (s s' : State api) (a c : String)
      → reconcile_profile valid by_profile prof m s ≡ (go m', s')
      → contains c (set_of a m') ≡ (brings valid by_profile a c prof || contains c (set_of a m))
  unfolding reconcile_profile set_of contains
  reconcile_profile_lem valid by_profile prof m m' s s' a c h =
      ground (arith, scan_apps_lem valid (lookup prof.name by_profile) prof.app_names [] m a c)

  pub reconcile_profiles_lem :
      (valid : List String) (by_profile : SetMap) (profs : List AppProfile) (m m' : SetMap)
      (s s' : State api) (a c : String)
      → reconcile_profiles valid by_profile profs m s ≡ (go m', s')
      → contains c (set_of a m')
        ≡ (any (brings valid by_profile a c) profs || contains c (set_of a m))
  unfolding reconcile_profiles any
  reconcile_profiles_lem valid by_profile [] m m' s s' a c h = ground arith
  reconcile_profiles_lem valid by_profile (prof ∷ profs) m m' s s' a c h =
      elim (flow-cases (reconcile_profile valid by_profile prof m s)) [
        | inl (e, t, stopped) ↦ ground arith
        | inr (mid, t, went) ↦ ground (
          arith,
          reconcile_profile_lem valid by_profile prof m mid s t a c went,
          reconcile_profiles_lem valid by_profile profs mid m' t s' a c,
        )
      ]

-- ===== src/Cli/Columns.antt =====
-- The column of the app profiles in the table of the apps.
use mathlib.Core.List.{append_assoc, append-nil}
use mathlib.Core.Path.{ap}
use text.Mathlib.TextEquality.{eq_iff}
use karlon.Base.{◌≡◌, sym, ◌∙◌, arith, ◌==◌, String, List, [], ◌∷◌, ◌++◌, if◌then◌else◌}
use karlon.Base.Dict.{Dict, lookup, insert, lookup-insert}
use karlon.Objects.{AppProfile}
use karlon.Cli.Tables.{names_at, add_apps, app_to_prof}

-- the profile, once for each time it names the app
abbrev pub mentions : String → String → List String → List String
mentions app prof [] = []
mentions app prof (a ∷ names) =
    let rest = mentions app prof names in if a == app then prof ∷ rest else rest

-- the profiles that name the app, in their order
abbrev pub profiles_naming : String → List AppProfile → List String
profiles_naming app [] = []
profiles_naming app (p ∷ ps) = mentions app p.name p.app_names ++ profiles_naming app ps

names_at-insert :
    (app other : String) (new : List String) (m : Dict (List String))
    → names_at app (insert other new m) ≡ (if other == app then new else names_at app m)
unfolding names_at
names_at-insert app other new m = ground (arith, lookup-insert other app new m)

names_at-add_apps :
    (app prof : String) (apps : List String) (m : Dict (List String))
    → names_at app (add_apps prof apps m) ≡ names_at app m ++ mentions app prof apps
unfolding add_apps
names_at-add_apps app prof [] m = sym (append-nil (names_at app m))
names_at-add_apps app prof (a ∷ apps) m = grind (
  arith,
  names_at-add_apps app prof apps (insert a (names_at a m ++ prof ∷ []) m),
  names_at-insert app a (names_at a m ++ prof ∷ []) m,
  eq_iff a app,
  append_assoc (names_at app m) (prof ∷ []) (mentions app prof apps),
)

names_at-app_to_prof :
    (app : String) (profs : List AppProfile) (m : Dict (List String))
    → names_at app (app_to_prof profs m) ≡ names_at app m ++ profiles_naming app profs
unfolding app_to_prof
names_at-app_to_prof app [] m = sym (append-nil (names_at app m))
names_at-app_to_prof app (p ∷ profs) m =
    names_at-app_to_prof app profs (add_apps p.name p.app_names m)
    ∙ ap (λ t. t ++ profiles_naming app profs) (names_at-add_apps app p.name p.app_names m)
    ∙ append_assoc (names_at app m) (mentions app p.name p.app_names) (profiles_naming app profs)

-- The column of an app in the table of the apps has the profiles that name it, in the order of
-- the list, a profile as often as it names the app.
pub column_lem :
    (app : String) (profs : List AppProfile)
    → names_at app (app_to_prof profs []) ≡ profiles_naming app profs
unfolding names_at lookup
column_lem app profs = names_at-app_to_prof app profs []

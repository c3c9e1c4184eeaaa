-- ===== src/AppProfile/Apps.antt =====
-- The third loop: the list generator of an app's set is rewritten where its clusters have changed.
use karlon.Base.{◌==◌, String, Option, none, some, List, [], ◌∷◌, map, if◌then◌else◌}
use karlon.Base.Dict.{Dict, get}
use karlon.Base.Sets.{add, equal_sets}
use karlon.Base.Text.{sprint}
use karlon.Base.Result.{Error}
use karlon.Objects.{ApplicationSet}
use karlon.Services.{Api, app_set_update}
use karlon.Services.Exec.{Exec, ◌>>=◌, ◌>>◌, pure, perform, must}
use karlon.AppProfile.Clusters.{SetMap, set_of}

-- the decoded fields of an element; `none` stands for a value that is no string
abbrev pub Fields : Type 0
Fields = List (String × Option String)

-- the names under the key of an element
unfoldable pub cluster_names : Fields → List String → List String
cluster_names [] s = s
cluster_names ((key, none) ∷ fields) s = cluster_names fields s
cluster_names ((key, some name) ∷ fields) s =
    cluster_names fields (if key == "cluster_name" then add name s else s)

-- the text of a new element
unfoldable pub element : Dict String → String → String
element servers name =
    sprint
      ("{\"cluster_name\":\"" ∷ name ∷ "\", \"cluster_server\":\"" ∷ get name servers ∷ "\"}" ∷ [])

module _ (decode : String → Option Fields) where
  -- the loop over the elements stops at the first one that cannot be decoded
  unfoldable pub listed : List String → List String → List String
  unfolding cluster_names
  listed [] s = s
  listed (raw ∷ raws) s = elim (decode raw) [
    | none ↦ s
    | some fields ↦ listed raws (cluster_names fields s)
  ]

  module _ {api : Api} where
    -- one round of the loop
    unfoldable pub reconcile_app : Dict String → SetMap → ApplicationSet → Exec api Error (Unit {0})
    reconcile_app servers app_to_clusters app = elim app.generators [
      | [] ↦ pure tt
      | none ∷ [] ↦ pure tt
      | some raws ∷ [] ↦
          let after = set_of app.name app_to_clusters in
          if equal_sets after (listed raws []) then pure tt else do
            updated ← perform (
                app_set_update
                  (record app { generators = some (map (element servers) after) ∷ [] }))
            must "failed to update applicationset" updated
      | g ∷ (g' ∷ gs) ↦ pure tt
    ]

    unfoldable pub reconcile_apps :
        Dict String → SetMap → List ApplicationSet → Exec api Error (Unit {0})
    reconcile_apps servers app_to_clusters [] = pure tt
    reconcile_apps servers app_to_clusters (app ∷ apps) = do
      reconcile_app servers app_to_clusters app
      reconcile_apps servers app_to_clusters apps

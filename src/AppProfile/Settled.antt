-- ===== src/AppProfile/Settled.antt =====
-- What the third loop writes, and that it has nothing more to write after that.
use karlon.Base.{
  ◌≡◌, ◌⊎◌, refl, ◌∙◌, ap, arith, Bool, true, false, ◌&&◌, ◌||◌, String, Option, some, List, [],
  ◌∷◌, map, contains, eq_iff, eq_refl, Bool-cases, inl, inr,
}
use karlon.Base.Dict.{Dict, lookup, get}
use karlon.Base.Sets.{add, equal_sets, equal_sets_iff, contains-add}
use karlon.Objects.{AppProfile, Application, ApplicationSet, ArgoCluster}
use karlon.Services.{Api, State, app_set_update}
use karlon.Services.Exec.{go}
use karlon.AppProfile.{by_name}
use karlon.AppProfile.Clusters.{SetMap, Maps, set_of, reconcile_clusters}
use karlon.AppProfile.Profiles.{reconcile_profiles}
use karlon.AppProfile.Apps.{Fields, cluster_names, element, listed, reconcile_app}
use karlon.AppProfile.Deployed.{any, uses, reconcile_clusters_lem}
use karlon.AppProfile.Spread.{by_name-IsNamed, reconcile_profiles_lem}

-- the fields that the text of an element stands for
abbrev pub fields_of : Dict String → String → Fields
fields_of servers name =
    ("cluster_name", some name) ∷ ("cluster_server", some (get name servers)) ∷ []

-- the set with the elements of the clusters
abbrev pub rewritten : Dict String → List String → ApplicationSet → ApplicationSet
rewritten servers clusters app = record app {
  generators = some (map (element servers) clusters) ∷ [];
}

any-cong : {A : Type 0} (p q : A → Bool) (xs : List A) → ((x : A) → p x ≡ q x) → any p xs ≡ any q xs
unfolding any
any-cong p q [] h = refl
any-cong p q (x ∷ xs) h = let first = h x in let rest = any-cong p q xs h in rw (first, rest)

or_false : (b : Bool) → (b || false) ≡ b
or_false b = ground arith

module _ (decode : String → Option Fields) where
  listed_lem :
      (servers : Dict String) (clusters s : List String) (c : String)
      → ((name : String)
          → contains name clusters ≡ true
          → decode (element servers name) ≡ some (fields_of servers name))
      → contains c (listed decode (map (element servers) clusters) s)
        ≡ (contains c clusters || contains c s)
  unfolding listed cluster_names contains
  listed_lem servers [] s c h = ground arith
  listed_lem servers (name ∷ names) s c h =
      let read = h name (rw (eq_refl name)) in
      let rest = listed_lem servers names (add name s) c (λ n m. h n (ground arith)) in
      ground (arith, read, rest, contains-add c name s, eq_iff c name)

  module _ {api : Api} where
    -- A round of the third loop over an app with the list that such a round writes makes no
    -- call, if the elements of the app's clusters are decoded to the fields they were made of.
    pub reconcile_app_settled :
        (servers : Dict String) (m : SetMap) (app : ApplicationSet) (s : State api)
        → ((name : String)
            → contains name (set_of app.name m) ≡ true
            → decode (element servers name) ≡ some (fields_of servers name))
        → reconcile_app decode servers m (rewritten servers (set_of app.name m) app) s ≡ (go tt, s)
    unfolding reconcile_app contains
    reconcile_app_settled servers m app s h =
        let same =
          (equal_sets_iff (set_of app.name m)
              (listed decode (map (element servers) (set_of app.name m)) [])).1
            (λ c. ground (arith, listed_lem servers (set_of app.name m) [] c h)) in
        rw same

    -- For an app with one generator, a list, a round of the third loop makes no call where the
    -- clusters of the app are those of the list, or its one call writes a list with an element
    -- for each cluster of the app.
    pub reconcile_app_calls :
        (servers : Dict String) (m : SetMap) (app : ApplicationSet) (raws : List String)
        (s : State api)
        → app.generators ≡ some raws ∷ []
        → (((c : String) → contains c (set_of app.name m) ≡ contains c (listed decode raws []))
            × (reconcile_app decode servers m app s ≡ (go tt, s)))
          ⊎ ((reconcile_app decode servers m app s).1.calls
              ≡ app_set_update (rewritten servers (set_of app.name m) app) ∷ s.calls)
    unfolding reconcile_app
    reconcile_app_calls servers m app raws s h =
        elim (Bool-cases (equal_sets (set_of app.name m) (listed decode raws []))) [
          | inl same ↦
              inl
                ((equal_sets_iff (set_of app.name m) (listed decode raws [])).0 same, ground arith)
          | inr differ ↦ inr (ground arith)
        ]

module _ {api : Api} where
  -- After the first two loops of the reconciliation, an app has a cluster exactly if it is
  -- valid and some profile lists it that is named by the annotation that counts for the
  -- cluster: that of the karlon cluster of its name, or its own if there is none. The condition
  -- is that the two loops, started with empty maps, run to their ends.
  pub app_clusters :
      (apps : List Application) (clusts : List ArgoCluster) (maps : Maps) (valid : List String)
      (profs : List AppProfile) (m : SetMap) (s t u : State api) (a c : String)
      → reconcile_clusters
          (by_name apps [])
          clusts
          (record { profile_to_clusters = []; name_to_server = [] })
          s
        ≡ (go maps, t)
      → reconcile_profiles valid maps.profile_to_clusters profs [] t ≡ (go m, u)
      → contains c (set_of a m)
        ≡ any
            (λ (prof : AppProfile).
              contains a valid
              && contains a prof.app_names
              && any (uses (by_name apps []) prof.name c) clusts)
            profs
  unfolding set_of contains lookup any
  app_clusters apps clusts maps valid profs m s t u a c h1 h2 =
      let named = by_name-IsNamed apps [] (λ name app found. ground arith) in
      let spread = λ (p : String).
        reconcile_clusters_lem (by_name apps []) clusts
          (record { profile_to_clusters = []; name_to_server = [] }) maps s t c p named h1
        ∙ or_false _ in
      reconcile_profiles_lem valid maps.profile_to_clusters profs [] m t u a c h2
      ∙ or_false _
      ∙ any-cong _ _ profs
          (λ prof. ap (λ b. contains a valid && contains a prof.app_names && b) (spread prof.name))

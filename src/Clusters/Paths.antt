-- ===== src/Clusters/Paths.antt =====
-- The path of a gen1 cluster in git is taken apart by an update.
use karlon.Base.{◌≡◌, refl, ap, ◌∙◌, arith, String, List, [], ◌∷◌, All}
use karlon.Base.Path.{join_path}
use karlon.Base.Path.Joined.{IsProper, with_last, split-join, join_path-join, All-with_last}
use karlon.Base.Result.{Result, ok}
use karlon.Base.Text.{split, join}
use karlon.Clusters.Deploy.{
  mgmt_path_from_base_path, decompose_reversed, reversed_onto, decompose_path,
}

reversed-with_last :
    (cs : List String) (n : String) (ys : List String)
    → reversed_onto (with_last cs n) ys ≡ n ∷ reversed_onto cs ys
unfolding reversed_onto
reversed-with_last [] n ys = refl
reversed-with_last (c ∷ cs) n ys = reversed-with_last cs n (c ∷ ys)

reversed_twice :
    (xs ys : List String) → reversed_onto (reversed_onto xs ys) [] ≡ reversed_onto ys xs
unfolding reversed_onto
reversed_twice [] ys = refl
reversed_twice (x ∷ xs) ys = reversed_twice xs (x ∷ ys)

-- a list turned round behind a component is not empty
decompose_some :
    (cs : List String) (c : String) (ds : List String) (name : String)
    → decompose_reversed ("mgmt" ∷ name ∷ reversed_onto cs (c ∷ ds))
      ≡ ok (name, reversed_onto cs (c ∷ ds))
unfolding decompose_reversed reversed_onto
decompose_some [] c ds name = refl
decompose_some (d ∷ cs) c ds name = decompose_some cs d (c ∷ ds) name

mgmt_component : IsProper "mgmt"
mgmt_component = (refl, refl, refl, omega arith)

mgmt_path_lem :
    (c : String) (cs : List String) (name : String)
    → All IsProper (c ∷ cs)
    → IsProper name
    → mgmt_path_from_base_path (join "/" (c ∷ cs)) name
      ≡ join "/" (with_last (with_last (c ∷ cs) name) "mgmt")
mgmt_path_lem c cs name hs hn =
    ap (λ p. join_path (p ∷ "mgmt" ∷ [])) (join_path-join c cs name hs hn)
    ∙ join_path-join c (with_last cs name) "mgmt" (All-with_last (c ∷ cs) name hs hn) mgmt_component

decompose_reads :
    (p : String) (ws : List String) (name : String)
    → decompose_reversed (reversed_onto (split "/" p) []) ≡ ok (name, ws)
    → decompose_path p ≡ ok (join "/" (reversed_onto ws []), name)
unfolding decompose_path
decompose_reads p ws name h = ground arith

-- An update finds the base path and the name of the cluster again in the path that the creation
-- made of them. The conditions are that the components of the base path, at least one, and the
-- name are neither empty nor . or .., and hold no slash.
pub decompose-mgmt_path :
    (c : String) (cs : List String) (name : String)
    → All IsProper (c ∷ cs)
    → IsProper name
    → decompose_path (mgmt_path_from_base_path (join "/" (c ∷ cs)) name)
      ≡ ok (join "/" (c ∷ cs), name)
unfolding decompose_path reversed_onto
decompose-mgmt_path c cs name hs hn =
    let named = All-with_last (c ∷ cs) name hs hn in
    let components =
      split-join c (with_last (with_last cs name) "mgmt")
        (All-with_last (with_last (c ∷ cs) name) "mgmt" named mgmt_component) in
    let reversed : reversed_onto (split "/" (mgmt_path_from_base_path (join "/" (c ∷ cs)) name)) []
        ≡ "mgmt" ∷ name ∷ reversed_onto cs (c ∷ []) =
      ap (λ p. reversed_onto (split "/" p) []) (mgmt_path_lem c cs name hs hn)
      ∙ ap (λ ws. reversed_onto ws []) components
      ∙ reversed-with_last (with_last (c ∷ cs) name) "mgmt" []
      ∙ ap (λ ws. "mgmt" ∷ ws) (reversed-with_last (c ∷ cs) name []) in
    decompose_reads (mgmt_path_from_base_path (join "/" (c ∷ cs)) name) (reversed_onto cs (c ∷ []))
      name (ap decompose_reversed reversed ∙ decompose_some cs c [] name)
    ∙ ap (λ ws. ok (join "/" ws, name)) (reversed_twice cs (c ∷ []))

-- ===== src/Controllers/Cluster/Termination.antt =====
-- The deletion of a Cluster comes to an end, with an ArgoCD that takes its time: an application that
-- is deleted is still seen by some look-ups.
use text.Mathlib.TextLemmas.{append-nil, append_cancel_left}
use mathlib.Core.Bool.{false≢true}
use karlon.Base.{
  not, ◌⊎◌, inl, inr, sym, ◌∙◌, Bool-cases, eq_iff, ℕ, zero, suc, ◌+◌, ◌≤◌, ◌≡◌, arith, Bool, true,
  false, ◌==◌, String, none, List, ◌∷◌, if◌then◌else◌, eq_refl, contains, contains-remove_all,
}
use karlon.Base.Text.{sprint}
use karlon.Base.Result.{ok, err, grpc_code}
use karlon.Objects.{Application, Cluster}
use karlon.Services.{Call, Answer, Api, State, application_get, application_delete, cluster_patch}
use karlon.Services.Quiet.{quiet, no_application}
use karlon.Controllers.Cluster.Deletion.{
  finalizer, kkarlon_app_name, delete_app, reconcile_delete, without_finalizer,
}
use karlon.Controllers.Cluster.Status.{update_state, unless_not_found}

-- an application in ArgoCD: a deleted one is seen by so many further look-ups
pub data Phase : Type 0 where
  absent : Phase
  present : Phase
  leaving : ℕ → Phase

pub record Apps : Type 0 where
  pub cluster_app : Phase
  pub kkarlon_app : Phase

-- how many reconciliations an application can still hold up
abbrev pub weight : ℕ → Phase → ℕ
weight delay absent = 0
weight delay present = 2 + delay
weight delay (leaving n) = suc n

abbrev pub after_look : Phase → Phase
after_look absent = absent
after_look present = present
after_look (leaving zero) = absent
after_look (leaving (suc n)) = leaving n

abbrev pub seen : Application → Phase → Answer (application_get "")
seen app absent = err no_application
seen app present = ok (record app { meta = record app.meta { deleting = false } })
seen app (leaving zero) = err no_application
seen app (leaving (suc n)) = ok (record app { meta = record app.meta { deleting = true } })

abbrev pub after_delete : ℕ → Phase → Phase
after_delete delay absent = absent
after_delete delay present = leaving delay
after_delete delay (leaving n) = leaving n

module _ (delay : ℕ) (app : Application) (cl : Cluster) where
  -- the services: the two applications of the cluster in ArgoCD, and every write succeeds
  abbrev pub answers : (c : Call) → Apps → Answer c × Apps
  answers (application_get name) w =
      if name == cl.meta.name
      then (seen app w.cluster_app, record w { cluster_app = after_look w.cluster_app })
      else (seen app w.kkarlon_app, record w { kkarlon_app = after_look w.kkarlon_app })
  answers (application_delete name) w =
      if name == cl.meta.name
      then (ok tt, record w { cluster_app = after_delete delay w.cluster_app })
      else (ok tt, record w { kkarlon_app = after_delete delay w.kkarlon_app })
  answers c w = (quiet c, w)

  abbrev pub argocd : Api
  argocd = record { World = Apps; answer = answers }

  abbrev pub total : Apps → ℕ
  total w = weight delay w.cluster_app + weight delay w.kkarlon_app

-- the two applications have different names
other_name : (name : String) → (kkarlon_app_name name == name) ≡ false
unfolding sprint
other_name name = elim (Bool-cases (kkarlon_app_name name == name)) [
  | inr differ ↦ differ
  | inl same ↦
      let empty : "-kkarlon" ≡ "" =
        append_cancel_left name "-kkarlon" ""
          ((eq_iff (kkarlon_app_name name) name).0 same ∙ sym (append-nil name)) in
      let never : false ≡ true = (eq_iff "-kkarlon" "").1 empty in absurd (false≢true never)
]

-- the last call took the finalizer away
abbrev pub released : List Call → Bool
released (cluster_patch cl ∷ calls) = not (contains finalizer cl.meta.finalizers)
released _ = false

module _ (delay : ℕ) (app : Application) (cl : Cluster) (ns : String) where
  -- whether one of so many reconciliations, one after the other, ends the deletion
  unfoldable pub released_within : ℕ → State (argocd delay app cl) → Bool
  released_within zero s = false
  released_within (suc n) s =
      let after = (reconcile_delete ns cl s).1 in
      let later = released_within n after in if released after.calls then true else later

  progress :
      (s : State (argocd delay app cl))
      → cl.spec.override ≡ none
      → (released (reconcile_delete ns cl s).1.calls ≡ true)
        ⊎ (suc (total delay app cl (reconcile_delete ns cl s).1.world) ≤ total delay app cl s.world)
  unfolding reconcile_delete delete_app update_state unless_not_found without_finalizer grpc_code
  progress s plain = ground (
    arith,
    other_name cl.meta.name,
    eq_refl cl.meta.name,
    contains-remove_all finalizer cl.meta.finalizers,
  )

  -- With an ArgoCD that lets every application go some look-ups after its deletion, the
  -- deletion of a Cluster without an override ends: of a number of reconciliations, one more
  -- than the two applications can hold up, one sends the Cluster without its finalizer.
  pub deletion_ends :
      (n : ℕ) (s : State (argocd delay app cl))
      → cl.spec.override ≡ none
      → total delay app cl s.world ≤ n
      → released_within (suc n) s ≡ true
  unfolding released_within
  deletion_ends zero s plain h = ground (arith, progress s plain)
  deletion_ends (suc n) s plain h =
      ground (arith, progress s plain, deletion_ends n (reconcile_delete ns cl s).1 plain)

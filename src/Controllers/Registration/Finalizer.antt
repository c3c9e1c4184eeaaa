-- ===== src/Controllers/Registration/Finalizer.antt =====
-- The finalizer: a cluster is registered behind it, and it goes when the cluster has left ArgoCD.
use karlon.Base.{
  ◌≡◌, ◌≢◌, ◌⊎◌, arith, true, false, String, [], ◌∷◌, All, contains, contains-remove_all,
  contains-remove_all_other, ◌==◌, if◌then◌else◌, eq_iff,
}
use karlon.Base.Sets.{contains-append}
use karlon.Base.Result.{Error, ok, err, is_ok}
use karlon.Objects.{ClusterRegistration, Secret}
use karlon.Services.{
  Call, Api, State, registration_get, registration_patch, argo_cluster_get, argo_cluster_create,
  argo_cluster_delete,
}
use karlon.Services.Exec.{ask}
use karlon.Controllers.Reply.{Reply}
use karlon.Controllers.Registration.{
  finalizer, add_finalizer, remove_finalizer, reconcile_present, update_state, reconcile_delete,
  reconcile, register,
}

abbrev pub CreatesNone : Call → Type 0
CreatesNone (argo_cluster_create c conf t) = ⊥
CreatesNone _ = Unit

abbrev pub KeepsFinalizer : Call → Type 0
KeepsFinalizer (registration_patch cr) = contains finalizer cr.meta.finalizers ≡ true
KeepsFinalizer _ = Unit

-- The object that the deletion of a ClusterRegistration sends lacks the finalizer, however
-- often it was there, and has every other finalizer exactly if it had it before.
pub remove_finalizer_lem :
    (cr : ClusterRegistration) (g : String)
    → contains g (remove_finalizer cr).meta.finalizers
      ≡ (if g == finalizer then false else contains g cr.meta.finalizers)
unfolding remove_finalizer
remove_finalizer_lem cr g = ground (
  arith,
  contains-remove_all finalizer cr.meta.finalizers,
  contains-remove_all_other finalizer g cr.meta.finalizers,
  eq_iff g finalizer,
)

contains-add_finalizer :
    (cr : ClusterRegistration) → contains finalizer (add_finalizer cr).meta.finalizers ≡ true
unfolding contains
contains-add_finalizer cr =
    ground (arith, contains-append finalizer cr.meta.finalizers (finalizer ∷ []))

module _ {api : Api} where
  delete-CreatesNone :
      (cr : ClusterRegistration) (s : State api)
      → All CreatesNone s.calls
      → All CreatesNone (reconcile_delete cr s).1.calls
  unfolding reconcile_delete
  delete-CreatesNone cr s h = ground arith

  update_state-KeepsFinalizer :
      (cr : ClusterRegistration) (state msg : String) (result : Reply) (s : State api)
      → All KeepsFinalizer s.calls
      → All KeepsFinalizer (update_state cr state msg result s).1.calls
  unfolding update_state
  update_state-KeepsFinalizer cr state msg result s h = ground arith

  register-KeepsFinalizer :
      (cr : ClusterRegistration) (secret : Secret) (s : State api)
      → All KeepsFinalizer s.calls
      → All KeepsFinalizer (register cr secret s).1.calls
  unfolding register
  register-KeepsFinalizer cr secret s h = grind (arith, update_state-KeepsFinalizer cr)

  present-KeepsFinalizer :
      (ns : String) (cr : ClusterRegistration) (s : State api)
      → All KeepsFinalizer s.calls
      → All KeepsFinalizer (reconcile_present ns cr s).1.calls
  unfolding reconcile_present
  present-KeepsFinalizer ns cr s h =
      grind (arith, update_state-KeepsFinalizer cr, register-KeepsFinalizer cr)

  delete-KeepsFinalizer :
      (cr : ClusterRegistration)
      → ((w : api.World) → is_ok (ask api (argo_cluster_get cr.spec.cluster_name) w) ≡ true)
      → ((server : String) (w : api.World)
          → is_ok (ask api (argo_cluster_delete cr.spec.cluster_name server) w) ≡ false)
      → (s : State api) → All KeepsFinalizer s.calls
      → All KeepsFinalizer (reconcile_delete cr s).1.calls
  unfolding reconcile_delete
  delete-KeepsFinalizer cr known refused s h = grind (arith, known, refused)

  -- Whatever the services answer, a reconciliation of a ClusterRegistration that lacks the
  -- finalizer or is being deleted sends no request to create a cluster in ArgoCD.
  pub create_needs_finalizer :
      (ns name : String) (cr : ClusterRegistration) (s : State api)
      → ask api (registration_get ns name) s.world ≡ ok cr
      → (contains finalizer cr.meta.finalizers ≡ false) ⊎ (cr.meta.deleting ≡ true)
      → All CreatesNone s.calls
      → All CreatesNone (reconcile ns name s).1.calls
  unfolding reconcile update_state
  create_needs_finalizer ns name cr s got bare h = grind (arith, delete-CreatesNone)

  -- While ArgoCD knows the cluster of a ClusterRegistration and refuses to delete it, no
  -- reconciliation sends an object without the finalizer, whatever the other services answer
  -- and whatever the state of the ClusterRegistration is, if no call before did: the object
  -- outlives its cluster's deletion.
  pub finalizer_guards :
      (ns name : String) (cr : ClusterRegistration) (s : State api)
      → ask api (registration_get ns name) s.world ≡ ok cr
      → ((w : api.World) → is_ok (ask api (argo_cluster_get cr.spec.cluster_name) w) ≡ true)
      → ((server : String) (w : api.World)
          → is_ok (ask api (argo_cluster_delete cr.spec.cluster_name server) w) ≡ false)
      → All KeepsFinalizer s.calls
      → All KeepsFinalizer (reconcile ns name s).1.calls
  unfolding reconcile
  finalizer_guards ns name cr s got known refused h = grind (
    arith,
    delete-KeepsFinalizer cr known refused,
    present-KeepsFinalizer ns cr,
    update_state-KeepsFinalizer cr,
    contains-add_finalizer cr,
  )

  -- If ArgoCD cannot find the cluster, the deletion of a ClusterRegistration makes two calls:
  -- the look-up and the patch of the object without its finalizer; no cluster is deleted.
  pub delete_unknown :
      (cr : ClusterRegistration) (s : State api) (e : Error)
      → ask api (argo_cluster_get cr.spec.cluster_name) s.world ≡ err e
      → (reconcile_delete cr s).1.calls
        ≡ registration_patch (remove_finalizer cr) ∷ argo_cluster_get cr.spec.cluster_name ∷ s.calls
  unfolding reconcile_delete
  delete_unknown cr s e gone = ground arith

abbrev pub CreatesAs : String → Call → Type 0
CreatesAs name (argo_cluster_create c conf t) = c.name ≡ name
CreatesAs name _ = Unit

abbrev pub LooksFor : String → Call → Type 0
LooksFor name (argo_cluster_get n) = n ≡ name
LooksFor name (argo_cluster_delete n server) = n ≡ name
LooksFor name _ = Unit

module _ {api : Api} where
  -- For a ClusterRegistration whose spec names no cluster, and no calls before, every cluster
  -- that registration creates has the name of the object, while every look-up and deletion of
  -- its removal asks for the empty name.
  pub unnamed_mismatch :
      (cr : ClusterRegistration) (secret : Secret) (s : State api)
      → cr.spec.cluster_name ≡ ""
      → s.calls ≡ []
      → All (CreatesAs cr.meta.name) (register cr secret s).1.calls
        × All (LooksFor "") (reconcile_delete cr s).1.calls
  unfolding register update_state reconcile_delete
  unnamed_mismatch cr secret s unnamed fresh = ground (arith, eq_iff cr.spec.cluster_name "")

  -- For a ClusterRegistration whose spec names a cluster, and no calls before, every cluster
  -- that registration creates has that name, and every look-up and deletion of its removal asks
  -- for it.
  pub named_agree :
      (cr : ClusterRegistration) (secret : Secret) (s : State api)
      → cr.spec.cluster_name ≢ ""
      → s.calls ≡ []
      → All (CreatesAs cr.spec.cluster_name) (register cr secret s).1.calls
        × All (LooksFor cr.spec.cluster_name) (reconcile_delete cr s).1.calls
  unfolding register update_state reconcile_delete
  named_agree cr secret s named fresh = ground (arith, eq_iff cr.spec.cluster_name "")

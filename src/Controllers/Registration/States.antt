-- ===== src/Controllers/Registration/States.antt =====
-- The states that a reconciliation of a ClusterRegistration writes, and when it writes none.
use karlon.Base.{eq_iff, ◌≡◌, ◌⊎◌, arith, false, String, ◌∷◌, All}
use karlon.Base.Result.{ok}
use karlon.Objects.{ClusterRegistration, Secret}
use karlon.Services.{
  Call, Api, State, registration_get, registration_helper, registration_status_update,
}
use karlon.Services.Exec.{ask}
use karlon.Controllers.Registration.{
  update_state, reconcile_delete, register, reconcile_present, reconcile,
}

abbrev pub IsState : String → Type 0
IsState s = (s ≡ "retrying") ⊎ (s ≡ "error") ⊎ (s ≡ "complete")

abbrev pub IsLegal : Call → Type 0
IsLegal (registration_status_update cr) = IsState cr.status.state
IsLegal _ = Unit

module _ {api : Api} where
  register-IsLegal :
      (cr : ClusterRegistration) (secret : Secret) (s : State api)
      → All IsLegal s.calls
      → All IsLegal (register cr secret s).1.calls
  unfolding register
  register-IsLegal cr secret s h = ground arith

  reconcile_present-IsLegal :
      (ns : String) (cr : ClusterRegistration) (s : State api)
      → All IsLegal s.calls
      → All IsLegal (reconcile_present ns cr s).1.calls
  unfolding reconcile_present
  reconcile_present-IsLegal ns cr s h = grind (arith, register-IsLegal)

  reconcile_delete-IsLegal :
      (cr : ClusterRegistration) (s : State api)
      → All IsLegal s.calls
      → All IsLegal (reconcile_delete cr s).1.calls
  unfolding reconcile_delete
  reconcile_delete-IsLegal cr s h = ground arith

  -- Whatever the services answer, every state that a reconciliation of a ClusterRegistration
  -- writes is one of retrying, error and complete, if that holds of the calls before.
  pub registration-IsLegal :
      (ns name : String) (s : State api)
      → All IsLegal s.calls
      → All IsLegal (reconcile ns name s).1.calls
  unfolding reconcile update_state
  registration-IsLegal ns name s h =
      grind (arith, reconcile_present-IsLegal, reconcile_delete-IsLegal)

  -- A ClusterRegistration that is not being deleted and is in state complete or error is read,
  -- and no call but the set-up of the patch helper follows.
  pub terminal_untouched :
      (ns name : String) (cr : ClusterRegistration) (s : State api)
      → ask api (registration_get ns name) s.world ≡ ok cr
      → cr.meta.deleting ≡ false
      → (cr.status.state ≡ "complete") ⊎ (cr.status.state ≡ "error")
      → (reconcile ns name s).1.calls
        ≡ registration_helper name ∷ registration_get ns name ∷ s.calls
  unfolding reconcile
  terminal_untouched ns name cr s got live end =
      ground (arith, eq_iff cr.status.state "complete", eq_iff cr.status.state "error")

-- ===== src/Controllers/CallHome/States.antt =====
-- The states that a reconciliation of a CallHomeConfig writes, and when it writes none.
use karlon.Base.{◌≡◌, ◌⊎◌, arith, String, ◌∷◌, All, eq_iff}
use karlon.Base.Result.{ok}
use karlon.Objects.{CallHomeConfig, Secret}
use karlon.Services.{Call, Api, State, call_home_get, call_home_status_update}
use karlon.Services.Exec.{outcome, ask}
use karlon.Controllers.Reply.{Reply, done}
use karlon.Controllers.CallHome.{
  update_state, deliver, find_token, reach_workload, reconcile, set_status,
}

abbrev pub IsState : String → Type 0
IsState s = (s ≡ "retrying") ⊎ (s ≡ "error") ⊎ (s ≡ "complete")

abbrev pub IsLegal : Call → Type 0
IsLegal (call_home_status_update c) = IsState c.status.state
IsLegal _ = Unit

module _ {api : Api} where
  deliver-IsLegal :
      (client : String) (chc : CallHomeConfig) (secret : Secret) (s : State api)
      → All IsLegal s.calls
      → All IsLegal (deliver client chc secret s).1.calls
  unfolding deliver
  deliver-IsLegal client chc secret s h = ground arith

  find_token-IsLegal :
      (ns client : String) (chc : CallHomeConfig) (s : State api)
      → All IsLegal s.calls
      → All IsLegal (find_token ns client chc s).1.calls
  unfolding find_token
  find_token-IsLegal ns client chc s h = grind (arith, deliver-IsLegal)

  reach_workload-IsLegal :
      (ns : String) (chc : CallHomeConfig) (secret : Secret) (s : State api)
      → All IsLegal s.calls
      → All IsLegal (reach_workload ns chc secret s).1.calls
  unfolding reach_workload
  reach_workload-IsLegal ns chc secret s h = grind (arith, find_token-IsLegal)

  -- Whatever the services answer, every state that a reconciliation of a CallHomeConfig writes
  -- is one of retrying, error and complete, if that holds of the calls before.
  pub call_home-IsLegal :
      (ns name : String) (s : State api)
      → All IsLegal s.calls
      → All IsLegal (reconcile ns name s).1.calls
  unfolding reconcile
  call_home-IsLegal ns name s h = grind (arith, reach_workload-IsLegal)

  -- A CallHomeConfig in state complete or error is read, no other call is made, and no further
  -- try is asked for.
  pub finished_untouched :
      (ns name : String) (chc : CallHomeConfig) (s : State api)
      → ask api (call_home_get ns name) s.world ≡ ok chc
      → (chc.status.state ≡ "complete") ⊎ (chc.status.state ≡ "error")
      → (outcome (reconcile ns name s).0 ≡ done)
        × ((reconcile ns name s).1.calls ≡ call_home_get ns name ∷ s.calls)
  unfolding reconcile
  finished_untouched ns name chc s got end =
      ground (arith, eq_iff chc.status.state "complete", eq_iff chc.status.state "error")

  -- Writing the state and message that a CallHomeConfig holds already makes no call.
  pub update_state_idem :
      (chc : CallHomeConfig) (state msg : String) (result : Reply) (s : State api)
      → (update_state (set_status chc state msg) state msg result s).1 ≡ s
  unfolding update_state
  update_state_idem chc state msg result s = ground (arith, eq_iff state state, eq_iff msg msg)

-- ===== src/Controllers/Reply.antt =====
-- pkg/controllers: what a reconciliation returns to the controller runtime.
use karlon.Base.{ℕ, Bool, true, false, Option, none, some}
use karlon.Base.Result.{Error}

-- ctrl.Result and the error beside it; `after` is RequeueAfter in seconds
pub record Reply : Type 0 where
  pub requeue : Bool
  pub after : ℕ
  pub error : Option Error

-- `ctrl.Result{}, nil`
abbrev pub done : Reply
done = record { requeue = false; after = 0; error = none }

-- `ctrl.Result{Requeue: true}, nil`
abbrev pub again : Reply
again = record { requeue = true; after = 0; error = none }

-- `ctrl.Result{RequeueAfter: n * time.Second}, nil`
abbrev pub again_in : ℕ → Reply
again_in n = record { requeue = false; after = n; error = none }

-- `ctrl.Result{}, err`
abbrev pub failed : Error → Reply
failed e = record { requeue = false; after = 0; error = some e }

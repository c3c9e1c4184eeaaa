-- ===== src/Services/Exec.antt =====
-- Go functions over the services: a step may return early from the function that it stands in, and
-- what was called before stays called.
use karlon.Base.{String, ◌∷◌}
use karlon.Base.Result.{Error, Result, ok, err, because}
use karlon.Services.{Call, Answer, Api, State}

-- `stop`: the enclosing function has returned; `go`: its next line runs
pub data Flow (R A : Type 0) : Type 0 where
  stop : R → Flow R A
  go : A → Flow R A

-- how a function that returns `(T, error)` ends
abbrev pub to_result : {A : Type 0} → Flow Error A → Result A
to_result (stop e) = err e
to_result (go a) = ok a

-- what a function has returned, early or at its end
abbrev pub outcome : {A : Type 0} → Flow A A → A
outcome (stop r) = r
outcome (go r) = r

module _ (api : Api) where
  -- the answer to a call in a world, and the world behind it
  abbrev pub ask : (c : Call) → api.World → Answer c
  ask c w = (api.answer c w).0

  abbrev pub next : Call → api.World → api.World
  next c w = (api.answer c w).1

  abbrev pub Exec : Type 0 → Type 0 → Type 0
  Exec R A = State api → Flow R A × State api

module _ {api : Api} where
  -- a function goes on only from a step that did not return
  abbrev pub unless_stopped :
      {R A B : Type 0} → Flow R A × State api → (A → Exec api R B) → Flow R B × State api
  unless_stopped (stop r, after) rest = (stop r, after)
  unless_stopped (go a, after) rest = rest a after

  infixl 5 ◌>>=◌ ◌>>◌
  abbrev pub ◌>>=◌ : {R A B : Type 0} → Exec api R A → (A → Exec api R B) → Exec api R B
  ◌>>=◌ step rest before = unless_stopped (step before) rest

  abbrev pub ◌>>◌ : {R B : Type 0} → Exec api R (Unit {0}) → Exec api R B → Exec api R B
  m >> n = m >>= λ _. n

  abbrev pub pure : {R A : Type 0} → A → Exec api R A
  pure a s = (go a, s)

  -- an early return
  abbrev pub return_now : {R A : Type 0} → R → Exec api R A
  return_now r s = (stop r, s)

  -- a call of a service
  abbrev pub perform : {R : Type 0} (c : Call) → Exec api R (Answer c)
  perform c s =
      let (a, w) = api.answer c s.world in (go a, record { world = w; calls = c ∷ s.calls })

  -- `if err != nil { return handler(err) }`
  abbrev pub or_else : {R A : Type 0} → Result A → (Error → Exec api R A) → Exec api R A
  or_else (ok a) h = pure a
  or_else (err e) h = h e

  -- `if err != nil { return ..., fmt.Errorf("text: %s", err) }`
  abbrev pub must : {A : Type 0} → String → Result A → Exec api Error A
  must t (ok a) = pure a
  must t (err e) = return_now (because t e)

  abbrev pub settled : {R A : Type 0} → Flow Error A × State api → Flow R (Result A) × State api
  settled (f, s) = (go (to_result f), s)

  -- a call of such a function from another one
  abbrev pub attempt : {R A : Type 0} → Exec api Error A → Exec api R (Result A)
  attempt m s = settled (m s)

-- ===== src/App/Tests.antt =====
-- Apps at concrete inputs.
use karlon.Base.{◌≡◌, refl, true, false, none, [], ◌∷◌}
use karlon.Base.Result.{ok}
use karlon.Services.{Call, Answer, State, app_set_get}
use karlon.Services.Quiet.{quiet, fixed}
use karlon.App.{create}

no_automation :
    (create "argocd" "nginx" "web" "default" "apps" "https://git" "main" false
      true).template.automated
    ≡ none
unfolding create
no_automation = refl

abbrev foreign : (c : Call) → Answer c
foreign (app_set_get ns name) =
    ok (record { name = name; labels = ("managed-by", "helm") ∷ []; generators = [] })
foreign c = quiet c

abbrev start : State (fixed foreign)
start = record { world = tt; calls = [] }

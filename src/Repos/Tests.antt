-- ===== src/Repos/Tests.antt =====
-- Aliases of repositories at concrete inputs.
use karlon.Base.{◌≡◌, refl, none, [], ◌∷◌}
use karlon.Base.Result.{err}
use karlon.Repos.{RepoCtx, RepoCtxCfg, no_repo, err_not_found, find_alias, get_alias}
use karlon.Services.{State}
use karlon.Services.Quiet.{quiet, fixed}
use karlon.Repos.Commands.{remove_repo, cut_alias}

abbrev prod : RepoCtx
prod = record { url = "https://git/prod"; alias = "prod" }

abbrev main : RepoCtx
main = record { url = "https://git/main"; alias = "default" }

abbrev cfg : RepoCtxCfg
cfg = record { default = no_repo; repos = prod ∷ [] }

unknown_alias : get_alias "dev" cfg ≡ err err_not_found
unfolding get_alias find_alias
unknown_alias = refl

nothing_removed : remove_repo "dev" cfg ≡ none
unfolding remove_repo cut_alias
nothing_removed = refl

abbrev start : State (fixed quiet)
start = record { world = tt; calls = [] }

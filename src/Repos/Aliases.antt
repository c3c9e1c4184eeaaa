-- ===== src/Repos/Aliases.antt =====
-- What an alias stands for.
use karlon.Base.{
  ◌≡◌, refl, arith, false, ◌==◌, String, some, List, [], ◌∷◌, ◌++◌, if◌then◌else◌, eq_iff, eq_refl,
}
use karlon.Base.Result.{ok}
use karlon.Repos.{
  RepoCtx, RepoCtxCfg, no_repo, repo_default_ctx, alias_exists, find_alias, get_alias,
}
use karlon.Repos.Commands.{add_repo, cut_alias, remove_repo}

find_added :
    (rs : List RepoCtx) (ctx : RepoCtx) (alias : String)
    → alias_exists rs ctx.alias ≡ false
    → find_alias (rs ++ ctx ∷ []) alias
      ≡ (if ctx.alias == alias then ok ctx else find_alias rs alias)
unfolding find_alias alias_exists
find_added [] ctx alias h = refl
find_added (r ∷ rs) ctx alias h = ground (
  arith,
  find_added rs ctx alias,
  eq_iff r.alias ctx.alias,
  eq_iff r.alias alias,
  eq_iff ctx.alias alias,
)

cut_added :
    (rs : List RepoCtx) (ctx : RepoCtx)
    → alias_exists rs ctx.alias ≡ false
    → cut_alias ctx.alias (rs ++ ctx ∷ []) ≡ some rs
unfolding cut_alias alias_exists
cut_added [] ctx h = ground (arith, eq_refl ctx.alias)
cut_added (r ∷ rs) ctx h = ground (arith, cut_added rs ctx)

-- After an alias that no registered repository has is added, the look-up of that alias finds
-- the new repository, and the look-up of every other alias has the result that it had before.
pub get_alias-add_repo :
    (ctx : RepoCtx) (cfg : RepoCtxCfg) (alias : String)
    → alias_exists cfg.repos ctx.alias ≡ false
    → get_alias alias (add_repo ctx cfg)
      ≡ (if ctx.alias == alias then ok ctx else get_alias alias cfg)
unfolding get_alias add_repo
get_alias-add_repo ctx cfg alias h = ground (
  arith,
  find_added cfg.repos ctx alias h,
  eq_iff ctx.alias alias,
  eq_iff ctx.alias repo_default_ctx,
  eq_iff alias repo_default_ctx,
)

-- If an alias that no registered repository has is added and removed again, the configuration
-- is the old one. The condition, for the default alias, is that no default repository was set.
pub remove_repo-add_repo :
    (ctx : RepoCtx) (cfg : RepoCtxCfg)
    → alias_exists cfg.repos ctx.alias ≡ false
    → (ctx.alias ≡ repo_default_ctx → cfg.default ≡ no_repo)
    → remove_repo ctx.alias (add_repo ctx cfg) ≡ some cfg
unfolding remove_repo add_repo
remove_repo-add_repo ctx cfg h free =
    ground (arith, cut_added cfg.repos ctx h, eq_iff ctx.alias repo_default_ctx)

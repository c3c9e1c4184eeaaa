-- ===== src/Repos.antt =====
-- pkg/gitrepo/gitrepo.go: the aliases of git repositories, in a file of the user. JSON is a parameter.
pub mod Commands
pub mod Aliases
pub mod CommitPush
pub mod Pushed
mod Tests
use karlon.Base.{Bool, true, false, ◌==◌, String, List, [], ◌∷◌, if◌then◌else◌}
use karlon.Base.Path.{join_path, dir_of}
use karlon.Base.Result.{Error, Result, ok, err, message, chained, wrapping, text}
use karlon.Services.{Api, default_config_dir, path_stat, path_make_dirs, path_open, path_read}
use karlon.Services.Exec.{Exec, ◌>>=◌, ◌>>◌, pure, return_now, perform, or_else, must, attempt}

pub record RepoCtx : Type 0 where
  pub url : String
  pub alias : String

pub record RepoCtxCfg : Type 0 where
  pub default : RepoCtx
  pub repos : List RepoCtx

abbrev pub no_repo : RepoCtx
no_repo = record { url = ""; alias = "" }

abbrev pub empty_cfg : RepoCtxCfg
empty_cfg = record { default = no_repo; repos = [] }

abbrev pub repo_default_ctx : String
repo_default_ctx = "default"

abbrev pub err_not_found : Error
err_not_found = message "given alias doesn't exist"

abbrev pub err_load_cfg_file : String
err_load_cfg_file = "failed to load config file"

abbrev pub err_overwrite_cfg : String
err_overwrite_cfg = "cannot overwrite config file"

-- AliasExists
unfoldable pub alias_exists : List RepoCtx → String → Bool
alias_exists [] alias = false
alias_exists (r ∷ rs) alias =
    let rest = alias_exists rs alias in if r.alias == alias then true else rest

-- the loop of getAlias, and the function on a configuration that was read
unfoldable pub find_alias : List RepoCtx → String → Result RepoCtx
find_alias [] alias = err err_not_found
find_alias (r ∷ rs) alias =
    let rest = find_alias rs alias in if r.alias == alias then ok r else rest

unfoldable pub get_alias : String → RepoCtxCfg → Result RepoCtx
get_alias alias cfg =
    if alias == repo_default_ctx then ok cfg.default else find_alias cfg.repos alias

module _ {api : Api} where
  -- GetRepoCfgPath
  unfoldable pub get_repo_cfg_path : Exec api Error String
  get_repo_cfg_path = do
    got ← perform default_config_dir
    argo_dir ← or_else got return_now
    pure (join_path (dir_of argo_dir ∷ ".kkarlon" ∷ "repoctx" ∷ []))

  -- ReadDefaultConfig; the file is its path
  unfoldable pub read_default_config : Exec api Error String
  read_default_config = do
    path ← get_repo_cfg_path
    found ← perform (path_stat path)
    elim found [
      | ok _ ↦ pure tt
      | err e ↦ (do made ← perform (path_make_dirs (dir_of path)); or_else made return_now)
    ]
    opened ← perform (path_open path)
    or_else opened λ e. return_now (chained err_load_cfg_file e)
    pure path

module _ (unmarshal : String → Result RepoCtxCfg) where
  module _ {api : Api} where
    -- LoadRepoCfg
    unfoldable pub load_repo_cfg : String → Exec api Error RepoCtxCfg
    load_repo_cfg path = do
      got ← perform (path_read path)
      content ← or_else got return_now
      if content == "" then pure empty_cfg else or_else (unmarshal content) return_now

    -- GetRepoUrl; errors of getAlias other than "not found" keep their chain
    unfoldable pub get_repo_url : String → Exec api Error String
    get_repo_url alias = do
      path ← read_default_config
      loaded ← attempt (load_repo_cfg path)
      cfg ← or_else loaded λ e. return_now (chained (text err_not_found) e)
      ctx ← or_else (get_alias alias cfg) return_now
      pure ctx.url

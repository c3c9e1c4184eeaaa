-- ===== src/Repos/Commands.antt =====
-- pkg/cmd/gitrepo: register and unregister. An error on which the command line exits is an error here.
use karlon.Base.{
  true, false, ◌==◌, ◌!=◌, ◌&&◌, String, Option, none, some, List, [], ◌∷◌, ◌++◌, if◌then◌else◌,
}
use karlon.Base.Result.{Error, Result, message, chained}
use karlon.Repos.{
  RepoCtx, RepoCtxCfg, no_repo, repo_default_ctx, err_not_found, err_load_cfg_file,
  err_overwrite_cfg, alias_exists, read_default_config, load_repo_cfg,
}
use karlon.Services.{
  Api, RepoCreds, path_truncate, path_write, prompt_password, repo_validate_access, repo_create,
}
use karlon.Services.Exec.{Exec, ◌>>=◌, ◌>>◌, pure, return_now, perform, or_else, attempt}

-- the configuration with one repository more
unfoldable pub add_repo : RepoCtx → RepoCtxCfg → RepoCtxCfg
add_repo ctx cfg = record {
  default = if ctx.alias == repo_default_ctx then ctx else cfg.default;
  repos = cfg.repos ++ ctx ∷ [];
}

-- the repositories without the first one of an alias, if there is one
unfoldable pub cut_alias : String → List RepoCtx → Option (List RepoCtx)
cut_alias alias [] = none
cut_alias alias (r ∷ rs) = elim (r.alias == alias) [
  | true ↦ some rs
  | false ↦ elim (cut_alias alias rs) [ none ↦ none | some kept ↦ some (r ∷ kept) ]
]

unfoldable pub remove_repo : String → RepoCtxCfg → Option RepoCtxCfg
remove_repo alias cfg = elim (cut_alias alias cfg.repos) [
  | none ↦ none
  | some kept ↦ some (record {
    default = if alias == repo_default_ctx then no_repo else cfg.default;
    repos = kept;
  })
]

module _ (unmarshal : String → Result RepoCtxCfg) (marshal : RepoCtxCfg → Result String) where
  module _ {api : Api} where
    -- the configuration replaces the text of the file
    unfoldable pub overwrite_cfg : String → RepoCtxCfg → Exec api Error (Unit {0})
    overwrite_cfg path cfg = do
      content ← or_else (marshal cfg) return_now
      cut ← perform (path_truncate path)
      or_else cut λ e. return_now (chained err_overwrite_cfg e)
      stored ← perform (path_write path content)
      or_else stored λ e. return_now (chained err_overwrite_cfg e)

    unfoldable pub ask_password : String → String → Exec api Error String
    ask_password user password =
        if user != "" && password == "" then perform prompt_password else pure password

    -- register; an alias that exists is no error
    unfoldable pub register : String → String → String → String → Exec api Error (Unit {0})
    register repo_url user password alias = do
      secret ← ask_password user password
      path ← read_default_config
      loaded ← attempt (load_repo_cfg unmarshal path)
      cfg ← or_else loaded λ e. return_now (chained err_load_cfg_file e)
      if alias_exists cfg.repos alias
          then pure tt
          else if cfg.default.url != "" && alias == repo_default_ctx
          then return_now (message "default alias already exists")
          else (do
            let creds : RepoCreds = record { url = repo_url; username = user; password = secret }
            valid ← perform (repo_validate_access creds)
            or_else valid return_now
            created ← perform (repo_create creds)
            url ← or_else created return_now
            overwrite_cfg path (add_repo (record { url = url; alias = alias }) cfg))

    -- unregister
    unfoldable pub unregister : String → Exec api Error (Unit {0})
    unregister alias = do
      path ← read_default_config
      loaded ← attempt (load_repo_cfg unmarshal path)
      cfg ← or_else loaded λ e. return_now (chained err_load_cfg_file e)
      elim cfg.repos [
        | [] ↦ pure tt
        | r ∷ rs ↦ elim (remove_repo alias cfg) [
          | none ↦ return_now err_not_found
          | some kept ↦ overwrite_cfg path kept
        ]
      ]

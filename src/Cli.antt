-- ===== src/Cli.antt =====
-- pkg/cmd/basecluster, pkg/cmd/bundle and pkg/cmd/clusterspec: what the commands do. The flags are arguments;
-- what a command prints is left out, and where it ends the program on an error, that is an error here.
pub mod Clusters
pub mod Profiles
pub mod Effects
pub mod Tables
pub mod Columns
mod Tests
use karlon.Base.{
  Bool, true, false, ◌==◌, ◌!=◌, ◌&&◌, String, Option, none, some, List, [], ◌∷◌, if◌then◌else◌,
}
use karlon.Base.Dict.{get, lookup}
use karlon.Base.Number.{ℤ}
use karlon.Base.Result.{Error, Result, ok, err, message, wrapping}
use karlon.BaseCluster.{validate_git_dir}
use karlon.BaseCluster.Prepare.{prepare_git_dir}
use karlon.Bundles.Names.{err_invalid_name, is_valid_k8s_name}
use karlon.Bundles.Api.{Source}
use karlon.ClusterSpec.Api.{Changes}
use karlon.Git.{get_client_and_creds}
use karlon.Repos.{RepoCtxCfg, get_repo_url}
use karlon.Services.{Api, Resource, client_config, secret_get}
use karlon.Services.Exec.{Exec, ◌>>=◌, ◌>>◌, pure, return_now, perform, or_else, must, attempt}

module _ {api : Api} where
  -- the configuration of the management cluster
  unfoldable pub need_config : Exec api Error (Unit {0})
  need_config = do config ← perform client_config; must "failed to get k8s client config" config

  -- dumpBundle: the text of a static bundle
  unfoldable pub dump_bundle : String → String → Exec api Error String
  dump_bundle ns name = do
    if is_valid_k8s_name name then pure tt else return_now (wrapping err_invalid_name name)
    got ← perform (secret_get ns name)
    secr ← must "failed to get bundle secret" got
    if get "kkkarlon-type" secr.meta.labels != "config-bundle"
        then return_now (message "secret is missing expected label")
        else pure tt
    if get "bundle-type" secr.meta.labels != "static"
        then return_now (message "bundle is not of static type")
        else pure tt
    elim (lookup "data" secr.content) [
      | none ↦ return_now (message "bundle has no data")
      | some text ↦ pure text
    ]

  unfoldable pub dump_bundle_command : String → String → Exec api Error String
  dump_bundle_command ns name = do
    need_config
    text ← attempt (dump_bundle ns name)
    or_else text return_now

  unfoldable pub delete_bundle_command : String → String → Exec api Error (Unit {0})
  delete_bundle_command ns name = do
    need_config
    deleted ← attempt (karlon.Bundles.Api.delete ns name)
    or_else deleted return_now

  unfoldable pub update_spec_command : String → String → Bool → Bool → Changes → Exec api Error Bool
  update_spec_command ns name enable disable changes = do
    need_config
    if enable && disable
        then return_now (message "--disablecas and --enablecas cannot both be set")
        else pure tt
    let given_changes : Changes = record changes {
      cas_enabled = if enable then some true else (if disable then some false else none);
    }
    changed ← attempt (karlon.ClusterSpec.Api.update ns name given_changes)
    or_else changed return_now

module _ (unmarshal : String → Result RepoCtxCfg) where
  module _ {api : Api} where
    -- the URL that was given, or that of the alias
    unfoldable pub repo_or_alias : String → String → Exec api Error String
    repo_or_alias repo_url alias =
        if repo_url != ""
        then pure repo_url
        else do found ← attempt (get_repo_url unmarshal alias); or_else found return_now

    -- validategit: the name of the cluster
    unfoldable pub validate_git_command :
        String → String → String → String → String → Exec api Error String
    validate_git_command argocd_ns repo_url alias revision path = do
      url ← repo_or_alias repo_url alias
      need_config
      creds_or ← attempt (get_client_and_creds argocd_ns url)
      creds ← must "failed to get repository credentials" creds_or
      validated ← attempt (validate_git_dir creds url revision path)
      or_else validated return_now

    -- create and update of bundles
    unfoldable pub create_bundle_command :
        String → String → Source → String → String → String → Exec api Error (Unit {0})
    create_bundle_command ns name src alias desc tags = do
      url ← if src.from_file == "" then repo_or_alias src.repo_url alias else pure src.repo_url
      need_config
      created ←
          attempt (karlon.Bundles.Api.create ns name (record src { repo_url = url }) desc tags)
      or_else created return_now

    unfoldable pub update_bundle_command :
        String → String → Source → String → String → String → Exec api Error (Unit {0})
    update_bundle_command ns name src alias desc tags = do
      url ←
          if src.from_file == "" && alias != ""
          then repo_or_alias src.repo_url alias
          else pure src.repo_url
      need_config
      updated ←
          attempt (karlon.Bundles.Api.update ns name (record src { repo_url = url }) desc tags)
      or_else updated return_now

  module _ (encode : Resource → Result String) (encoded : List Resource → String)
      (configurations_yaml : String) where
    module _ {api : Api} where
      -- preparegit: the name of the cluster, and whether something changed
      unfoldable pub prepare_git_command :
          String → String → String → String → String → ℤ → ℤ → Exec api Error (String × Bool)
      prepare_git_command argocd_ns repo_url alias revision path cas_max cas_min = do
        url ← repo_or_alias repo_url alias
        need_config
        creds_or ← attempt (get_client_and_creds argocd_ns url)
        creds ← must "failed to get repository credentials" creds_or
        prepared ← attempt (
            prepare_git_dir encode encoded configurations_yaml creds url revision path cas_max
              cas_min)
        must "git preparation failed" prepared

-- ===== src/App.antt =====
-- pkg/app/app.go: apps, which are application sets of ArgoCD with a label.
pub mod Created
mod Tests
use karlon.Base.{Bool, true, false, ◌!=◌, String, Option, none, some, List, [], ◌∷◌, if◌then◌else◌}
use karlon.Base.Dict.{Dict, get}
use karlon.Base.Result.{Error, Result, ok, err, message}
use karlon.Base.Text.{sprint}
use karlon.Objects.{ApplicationSet}
use karlon.Services.{Api, runtime_client, app_set_list, app_set_get, app_set_delete}
use karlon.Services.Exec.{Exec, ◌>>=◌, ◌>>◌, pure, perform, must, return_now}

-- the template of an application set; `automated` is the policy's Automated with its Prune
pub record Template : Type 0 where
  pub name : String
  pub destination_namespace : String
  pub server : String
  pub project : String
  pub path : String
  pub repo_url : String
  pub target_revision : String
  pub automated : Option Bool

-- what Create makes: the fields of an application set that the program reads, and the others
pub record NewApp : Type 0 where
  pub namespace : String
  pub set : ApplicationSet
  pub template : Template

-- Create
unfoldable pub create :
    String → String → String → String → String → String → String → Bool → Bool → NewApp
create ns name dest_ns project src_path src_repo_url src_target_revision auto_sync auto_prune =
    record {
      namespace = ns;
      set = record {
        name = name;
        labels = ("kkarlon-type", "application") ∷ ("managed-by", "kkarlon") ∷ [];
        generators = some [] ∷ [];
      };
      template = record {
        name = sprint ("{{cluster_name}}-app-" ∷ name ∷ []);
        destination_namespace = dest_ns;
        server = "{{cluster_server}}";
        project = project;
        path = src_path;
        repo_url = src_repo_url;
        target_revision = src_target_revision;
        automated = if auto_sync then some auto_prune else none;
      };
    }

module _ {api : Api} where
  -- List; the selector is the text of the requirement
  unfoldable pub list : String → Exec api Error (List ApplicationSet)
  list ns = do
    cli ← perform runtime_client
    must "failed to get controller runtime client" cli
    got ← perform (app_set_list ns "kkarlon-type in (application)")
    must "failed to list applicationsets" got

  -- Delete
  unfoldable pub delete : String → String → Exec api Error (Unit {0})
  delete ns name = do
    cli ← perform runtime_client
    must "failed to get controller runtime client" cli
    got ← perform (app_set_get ns name)
    app ← must "failed to get applicationset" got
    if get "kkarlon-type" app.labels != "application"
        then return_now
            (message (sprint ("applicationset " ∷ name ∷ " is not an kkarlon app" ∷ [])))
        else pure tt
    deleted ← perform (app_set_delete ns app.name)
    must "failed to delete applicationset" deleted

-- ===== src/Bundles.antt =====
-- pkg/bundle and pkg/common: a bundle is a secret, whose data is the manifest of a static bundle, and
-- whose annotations say where a dynamic bundle is in git.
pub mod Names
pub mod NameLaws
pub mod Api
pub mod Kinds
mod Tests
use karlon.Base.{String, Option}

abbrev pub repo_url_annotation_key : String
repo_url_annotation_key = "kkarlon.io/repo-url"

abbrev pub repo_path_annotation_key : String
repo_path_annotation_key = "kkarlon.io/repo-path"

abbrev pub repo_revision_annotation_key : String
repo_revision_annotation_key = "kkarlon.io/repo-revision"

abbrev pub src_type_annotation_key : String
src_type_annotation_key = "kkarlon.io/srctype"

-- `content` is the field Data: `none` is nil
pub record Bundle : Type 0 where
  pub name : String
  pub content : Option String
  pub repo_url : String
  pub repo_path : String
  pub repo_revision : String
  pub src_type : String

pub record ListItem : Type 0 where
  pub name : String
  pub kind : String
  pub tags : String
  pub repo : String
  pub path : String
  pub revision : String
  pub src_type : String
  pub description : String

-- ===== src/Profiles.antt =====
-- pkg/profile/utils.go: the lists of names in the config map of a gen1 profile.
mod RoundTrip
pub mod Overrides
pub mod OverrideMaps
pub mod InGit
pub mod Api
pub mod Writes
pub mod Repeat
pub mod Saves
mod Tests
use Prim.Native.String.{String, ◌++◌}
use karlon.Base.{Bool, true, false, ◌==◌, ◌!=◌, List, [], ◌∷◌, if◌then◌else◌}
use karlon.Base.Dict.{Dict, get}
use karlon.Base.Sets.{from_slice, equal_sets, is_subset}
use karlon.Base.Text.{split, sprint}
use karlon.Base.Result.{Error, Result, ok, err, message}
use karlon.Objects.{ConfigMap, Profile, ProfileSpec}

-- StringListFromCommaSeparated; a nil slice is an empty one
unfoldable pub string_list : String → List String
string_list cs = if cs == "" then [] else split "," cs

-- the loop of CommaSeparatedFromStringList behind the first item
unfoldable pub append_items : String → List String → String
append_items s [] = s
append_items s (item ∷ items) = append_items (s ++ ("," ++ item)) items

-- CommaSeparatedFromStringList
unfoldable pub comma_separated : List String → String
comma_separated [] = ""
comma_separated (item ∷ items) = append_items ("" ++ item) items

-- stringListsEquivalent
unfoldable pub string_lists_equivalent : List String → List String → Bool
string_lists_equivalent s t = equal_sets (from_slice s) (from_slice t)

-- isSubset
unfoldable pub is_sub_list : List String → List String → Bool
is_sub_list sub super = is_subset (from_slice sub) (from_slice super)

-- FromConfigMap
unfoldable pub from_config_map : ConfigMap → Result Profile
unfolding string_list
from_config_map cm =
    if get "kkarlon-type" cm.labels != "profile"
    then err (message (sprint ("config map " ∷ cm.name ∷ " is missing kkarlon-type label" ∷ [])))
    else ok (record {
      name = cm.name;
      namespace = "";
      spec = record {
        description = get "description" cm.content;
        tags = string_list (get "tags" cm.content);
        bundles = string_list (get "bundles" cm.content);
        overrides = [];
        repo_url = get "repo-url" cm.content;
        repo_path = get "repo-path" cm.content;
        repo_revision = get "repo-branch" cm.content;
      };
    })

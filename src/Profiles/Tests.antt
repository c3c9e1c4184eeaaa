-- ===== src/Profiles/Tests.antt =====
-- Lists of names at concrete inputs.
use karlon.Base.{◌≡◌, ◌≢◌, refl, arith, String, List, [], ◌∷◌}
use karlon.Base.Dict.{get, lookup}
use karlon.Base.Text.{split, prepend}
use karlon.Base.Result.{ok}
use karlon.Objects.{ConfigMap}
use karlon.Profiles.{
  string_list, comma_separated, append_items, from_config_map, is_sub_list, string_lists_equivalent,
}
use karlon.Base.{some, none, true, false, contains}
use karlon.Base.Sets.{is_subset, add_all, add, equal_sets}
use karlon.Services.{Call, Answer, State, Entries, profile_get}
use karlon.Services.Exec.{go}
use karlon.Bundles.Api.{list}
use karlon.Services.Quiet.{quiet, fixed}
use karlon.Objects.{Override, Profile, ProfileSpec}
use karlon.Profiles.OverrideMaps.{value_at, set_values, merge-value}
use karlon.Profiles.Overrides.{merge}
use karlon.Profiles.Repeat.{apply_change_again}
use karlon.Profiles.Saves.{Updated, update_profile-Updated}
use karlon.Profiles.Writes.{
  Change, apply_change, change_description, change_tags, change_bundles, change_overrides,
  wanted_bundles, save_profile, update_profile,
}
use karlon.Profiles.Api.{check_names, get_augmented, get_profile}

abbrev stored : ConfigMap
stored = record {
  name = "web";
  labels = ("kkarlon-type", "profile") ∷ [];
  content = ("bundles", "nginx,guestbook") ∷ ("description", "web servers") ∷ [];
}

read :
    from_config_map stored
    ≡ ok (record {
      name = "web";
      namespace = "";
      spec = record {
        description = "web servers";
        tags = [];
        bundles = "nginx" ∷ "guestbook" ∷ [];
        overrides = [];
        repo_url = "";
        repo_path = "";
        repo_revision = "";
      };
    })
unfolding from_config_map get lookup split prepend
read = refl

one_empty_name_is_lost : string_list (comma_separated ("" ∷ [])) ≡ []
unfolding string_list comma_separated append_items
one_empty_name_is_lost = refl

abbrev names : List String
names = "b1" ∷ "" ∷ "b2" ∷ []

names_full : names ≢ "" ∷ []
names_full h = ground arith

abbrev size_two : Override
size_two = record { bundle = "nginx"; key = "size"; value = "2" }

abbrev size_three : Override
size_three = record { bundle = "nginx"; key = "size"; value = "3" }

merge-value_example :
    value_at (merge (size_three ∷ []) (size_two ∷ [], false)).0
    ≡ set_values (size_three ∷ []) (value_at (size_two ∷ []))
merge-value_example = merge-value (size_three ∷ []) (size_two ∷ []) false

abbrev servers : ProfileSpec
servers = record {
  description = "web servers";
  tags = "web" ∷ [];
  bundles = names;
  overrides = size_two ∷ [];
  repo_url = "https://git/profiles";
  repo_path = "profiles/web";
  repo_revision = "main";
}

abbrev web : Profile
web = record { name = "web"; namespace = "kkarlon"; spec = servers }

abbrev grow : Change
grow = record {
  bundles = some ("b1" ∷ "b3" ∷ []);
  desc = "more servers";
  tags = "";
  overrides = size_three ∷ [];
}

apply_change_again_example :
    apply_change grow (apply_change grow servers).0 ≡ ((apply_change grow servers).0, false)
apply_change_again_example = apply_change_again grow servers (tt, tt) (omega arith) names_full

abbrev start : {answers : (c : Call) → Answer c} → State (fixed answers)
start = record { world = tt; calls = [] }

abbrev describe : Change
describe = record { bundles = none; desc = "more servers"; tags = ""; overrides = [] }

-- a service that holds a static profile
abbrev with_profile : (c : Call) → Answer c
with_profile (profile_get ns name) =
    ok (record web { spec = record servers { repo_url = ""; repo_path = "" } })
with_profile c = quiet c

update_profile-Updated_example :
    Updated describe (
      update_profile Entries.end {api = fixed with_profile} "argocd" "kkarlon" "web" describe start)
update_profile-Updated_example =
    update_profile-Updated Entries.end {api = fixed with_profile} "argocd" "kkarlon" "web" describe
      start tt

-- the run of the theorem stores the profile
profile_stored :
    (update_profile Entries.end {api = fixed with_profile} "argocd" "kkarlon" "web" describe
      start).0
    ≡ go true
unfolding update_profile save_profile check_names list is_sub_list is_subset add_all add contains
    get_augmented get_profile apply_change change_description change_tags change_bundles
    change_overrides wanted_bundles merge comma_separated append_items string_list
    string_lists_equivalent equal_sets split prepend
profile_stored = refl

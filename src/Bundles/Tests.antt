-- ===== src/Bundles/Tests.antt =====
-- Names and bundles at concrete inputs.
use karlon.Base.{◌≡◌, ◌↔◌, ◌≤◌, refl, inl, true, false, [], ◌∷◌, All}
use karlon.Base.Dict.{insert, lookup, get}
use karlon.Base.Result.{ok, is_not_found}
use karlon.Base.Text.{split, prepend}
use karlon.Objects.{Secret}
use karlon.Services.{Call, Answer, State, read_file, secret_get, secret_create}
use karlon.Services.Exec.{to_result}
use karlon.Services.Quiet.{quiet, fixed}
use karlon.Bundles.Api.{
  Source, empty_bundle, static_bundle, fill_bundle, change_content, update_source, create, update,
}
use karlon.Bundles.Kinds.{IsBundle, WritesBundle, WritesKept, create-IsBundle, update-IsBundle}
use karlon.Bundles.NameLaws.{has_dns_line, is_valid_k8s_name_lem}
use karlon.Bundles.Names.{
  byte_size, byte_length, match_from, any_line, matches_rfc1123, is_valid_k8s_name,
}

-- the names of pkg/bundle/common_test.go
names_checked :
    (is_valid_k8s_name "this-is-a-valid-k8s-name" ≡ true)
    × (is_valid_k8s_name "this-is-an-invalid-k8s-name+" ≡ false)
    × (is_valid_k8s_name "THIS-Has-uppercase" ≡ false)
    × (is_valid_k8s_name "gdrjnk+(gd" ≡ false)
    × (is_valid_k8s_name
          "thisisaveryveryverylongk8swannabenamewhichistotallyinvalidandnotallowedthiswillreturn"
        ≡ false)
unfolding is_valid_k8s_name matches_rfc1123 any_line match_from split prepend byte_length byte_size
names_checked = (refl, refl, refl, refl, refl)

-- the expression is anchored at lines, so one line is enough
line_is_enough : is_valid_k8s_name "web\n../../etc" ≡ true
unfolding is_valid_k8s_name matches_rfc1123 any_line match_from split prepend byte_length byte_size
line_is_enough = refl

is_valid_k8s_name_lem_example : (is_valid_k8s_name "web.v1" ≡ true) ↔ (
    (1 ≤ byte_length "web.v1")
    × (byte_length "web.v1" ≤ 63)
    × (has_dns_line (split "\n" "web.v1") ≡ true))
is_valid_k8s_name_lem_example = is_valid_k8s_name_lem "web.v1"

abbrev from_file : Source
from_file = record {
  from_file = "web.yaml";
  repo_url = "";
  repo_path = "";
  repo_revision = "";
  src_type = "";
}

abbrev with_file : (c : Call) → Answer c
with_file (read_file path) = ok "kind: Pod"
with_file c = quiet c

abbrev start : {answers : (c : Call) → Answer c} → State (fixed answers)
start = record { world = tt; calls = [] }

create-IsBundle_example :
    All WritesBundle
      (create {api = fixed with_file} "kkarlon" "web" from_file "servers" "" start).1.calls
create-IsBundle_example =
    create-IsBundle {api = fixed with_file} "kkarlon" "web" from_file "servers" "" start tt

abbrev stored : Secret
stored = static_bundle "kind: Pod" (empty_bundle "web" "servers" "")

stored-IsBundle : IsBundle stored
unfolding IsBundle static_bundle insert lookup get
stored-IsBundle = inl (refl, ("kind: Pod", refl), refl)

abbrev with_bundle : (c : Call) → Answer c
with_bundle (secret_get ns name) = ok stored
with_bundle c = with_file c

update-IsBundle_example :
    All
      (WritesKept stored)
      (update {api = fixed with_bundle} "kkarlon" "web" from_file "more" "" start).1.calls
update-IsBundle_example =
    update-IsBundle {api = fixed with_bundle} "kkarlon" "web" from_file "more" "" stored start refl
      stored-IsBundle tt

-- the runs of the two theorems write
bundle_created :
    (create {api = fixed with_file} "kkarlon" "web" from_file "servers" "" start).1.calls
    ≡ secret_create "kkarlon" (static_bundle "kind: Pod" (empty_bundle "web" "servers" ""))
      ∷ read_file "web.yaml"
      ∷ secret_get "kkarlon" "web"
      ∷ []
unfolding create fill_bundle is_not_found is_valid_k8s_name matches_rfc1123 any_line match_from
    split prepend byte_length byte_size
bundle_created = refl

bundle_updated :
    to_result (update {api = fixed with_bundle} "kkarlon" "web" from_file "more" "" start).0 ≡ ok tt
unfolding update update_source change_content static_bundle is_valid_k8s_name matches_rfc1123
    any_line match_from split prepend byte_length byte_size insert lookup get
bundle_updated = refl

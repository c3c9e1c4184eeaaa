-- ===== src/Base/Yaml.antt =====
-- Go's `map[string]interface{}` as it is marshalled: texts, numbers, flags, lists and maps.
use Prim.Native.String.{String}
use mathlib.Core.Bool.{Bool}
use mathlib.Core.List.{List, [], ◌∷◌, ◌++◌}
use karlon.Base.Number.{ℤ}
use karlon.Base.Tests.{◌==◌, if◌then◌else◌}

mutual
  pub data Yaml : Type 0 where
    text : String → Yaml
    number : ℤ → Yaml
    flag : Bool → Yaml
    items : Items → Yaml
    object : Fields → Yaml

  pub data Items : Type 0 where
    no_items : Items
    item : Yaml → Items → Items

  pub data Fields : Type 0 where
    no_fields : Fields
    field : String → Yaml → Fields → Fields

-- literals
abbrev pub fields_of : List (String × Yaml) → Fields
fields_of [] = no_fields
fields_of ((key, value) ∷ rest) = field key value (fields_of rest)

abbrev pub map_of : List (String × Yaml) → Yaml
map_of entries = object (fields_of entries)

abbrev pub items_of : List Yaml → Items
items_of [] = no_items
items_of (x ∷ xs) = item x (items_of xs)

abbrev pub texts : List String → Items
texts [] = no_items
texts (t ∷ ts) = item (text t) (texts ts)

-- the value under a key, and the text under a path of keys
unfoldable pub find_field : String → Fields → Yaml
find_field key no_fields = text ""
find_field key (field k value rest) =
    let later = find_field key rest in if k == key then value else later

abbrev pub child : String → Yaml → Yaml
child key (object fields) = find_field key fields
child key _ = text ""

unfoldable pub text_at : List String → Yaml → String
text_at [] (text t) = t
text_at [] _ = ""
text_at (key ∷ path) value = text_at path (child key value)

-- all the values under a key, at any depth
unfoldable mutual
  pub all_under : String → Yaml → List Yaml
  all_under key (text t) = []
  all_under key (number n) = []
  all_under key (flag b) = []
  all_under key (items xs) = items_under key xs
  all_under key (object fields) = fields_under key fields

  pub items_under : String → Items → List Yaml
  items_under key no_items = []
  items_under key (item x xs) = all_under key x ++ items_under key xs

  pub fields_under : String → Fields → List Yaml
  fields_under key no_fields = []
  fields_under key (field k value rest) =
      let deeper = all_under key value ++ fields_under key rest in
      if k == key then value ∷ deeper else deeper

abbrev pub under_any : String → List Yaml → List Yaml
under_any key [] = []
under_any key (r ∷ rs) = all_under key r ++ under_any key rs

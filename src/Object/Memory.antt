-- ===== src/Object/Memory.antt =====
-- An implementation of the interface on plain maps, which shows that its laws can hold.
pub mod Writes
pub mod Lawful
pub mod Framed
use tenantplane.Base.{
  String, Bool, true, false, ◌&&◌, Option, none, some, List, [], ◌∷◌, Dict, lookup, insert, erase,
  string_eq, if◌then◌else◌,
}
use tenantplane.Base.Text.{Text, text}
use tenantplane.Object.{
  Object, Value, ℤ, int, string, object, slice, as_map, as_text, of_object, to_list, of_list, Gvk,
  Unstructured,
}
use tenantplane.Object.Laws.{is_formed}

-- The metadata, as a map.
abbrev pub map_of : Option Value → Object
map_of none = []
map_of (some v) = elim (as_map v) [ none ↦ [] | some m ↦ m ]

abbrev pub metadata : Object → Object
metadata o = map_of (lookup "metadata" o)

abbrev pub set_metadata : Object → String → Value → Object
set_metadata o f v =
    if is_formed o then insert "metadata" (object (of_object (insert f v (metadata o)))) o else o

abbrev pub texts : Object → Dict String Text
texts [] = []
texts ((j, v) ∷ m) = (j, as_text (some v)) ∷ texts m

abbrev pub of_texts : Dict String Text → Object
of_texts [] = []
of_texts ((j, t) ∷ m) = (j, string t) ∷ of_texts m

abbrev pub texts_of : Option Value → Option (Dict String Text)
texts_of none = none
texts_of (some v) = elim (as_map v) [ none ↦ none | some m ↦ some (texts m) ]

abbrev get_path : Object → List String → Option Value
get_path o [] = none
get_path o (f ∷ []) = lookup f o
get_path o (f ∷ g ∷ path) = get_path (map_of (lookup f o)) (g ∷ path)

abbrev pub nest : String → Object → Option Object → Option Object
nest f o none = none
nest f o (some m) = some (insert f (object (of_object m)) o)

abbrev pub is_map : Option Value → Bool
is_map none = true
is_map (some v) = elim (as_map v) [ none ↦ false | some m ↦ true ]

abbrev pub set_path : Object → Value → List String → Option Object
set_path o v [] = none
set_path o v (f ∷ []) = some (insert f v o)
set_path o v (f ∷ g ∷ path) =
    let rest = set_path (map_of (lookup f o)) v (g ∷ path) in
    if is_map (lookup f o) then nest f o rest else none

abbrev pub remove_path : Object → List String → Object
remove_path o [] = o
remove_path o (f ∷ []) = erase f o
remove_path o (f ∷ g ∷ path) =
    let rest = remove_path (map_of (lookup f o)) (g ∷ path) in
    elim (lookup f o) [
      | none ↦ o
      | some v ↦ elim (as_map v) [ none ↦ o | some m ↦ insert f (object (of_object rest)) o ]
    ]

abbrev as_items : Option Value → Option (List Value)
as_items (some (slice vs)) = some (to_list vs)
as_items _ = none

abbrev as_int : Option Value → Option ℤ
as_int (some (int z)) = some z
as_int _ = none

abbrev as_object : Option Value → Option Object
as_object none = none
as_object (some v) = as_map v

-- The API version stands as one text, the version of a group with no name.
abbrev pub memory : Unstructured
memory = record {
  get_kind = λ o. as_text (lookup "kind" o);
  get_name = λ o. as_text (lookup "name" (metadata o));
  get_namespace = λ o. as_text (lookup "namespace" (metadata o));
  get_resource_version = λ o. as_text (lookup "resourceVersion" (metadata o));
  get_labels = λ o. texts_of (lookup "labels" (metadata o));
  get_annotations = λ o. texts_of (lookup "annotations" (metadata o));
  group_version_kind = λ o. record {
    group = [];
    version = as_text (lookup "apiVersion" o);
    kind = as_text (lookup "kind" o);
  };
  set_name = λ o n. set_metadata o "name" (string n);
  set_namespace = λ o n. set_metadata o "namespace" (string n);
  set_resource_version = λ o n. set_metadata o "resourceVersion" (string n);
  set_labels = λ o m. set_metadata o "labels" (object (of_object (of_texts m)));
  set_annotations = λ o m. set_metadata o "annotations" (object (of_object (of_texts m)));
  set_group_version_kind =
      λ o g. insert "apiVersion" (string g.version) (insert "kind" (string g.kind) o);
  nested_field_copy = get_path;
  nested_map = λ o path. as_object (get_path o path);
  nested_slice = λ o path. as_items (get_path o path);
  nested_int64 = λ o path. as_int (get_path o path);
  set_nested_field = set_path;
  set_nested_map = λ o m path. set_path o (object (of_object m)) path;
  set_nested_slice = λ o vs path. set_path o (slice (of_list vs)) path;
  remove_nested_field = remove_path;
}

-- ===== src/Sdkgen/Examples.antt =====
-- Small runs of internal/sdkgen.
use tsgonest.Common.{String, ◌≡◌, refl, inl, inr, false, none, some, [], ◌∷◌}
use tsgonest.Common.Texts.{◌<>◌}
use tsgonest.Common.Maps.{Map, Values, lookup, has, insert, delete}
use tsgonest.Metadata.{Value}
use tsgonest.Sdkgen.Keys.{escape_js_string, ts_property_key, ts_prop_access, is_js_identifier}
use tsgonest.Sdkgen.Literals.{
  Mode, read, codes, read-quoted, read_key, read_key-ts_property_key, ts_property_key-injective,
}
use tsgonest.Sdkgen.Nodes.{
  NodeFacts, Node, node, no_field, null, to, no_node, is_builtin, safe_ts_name,
  rename_builtin_collisions,
}
use tsgonest.Sdkgen.Refs.{RefsOk}
use tsgonest.Sdkgen.Renaming.{
  Named, rename_builtin_collisions-RefsOk, has-rename_builtin_collisions,
}

key_plain : ts_property_key "first_name" ≡ "first_name"
unfolding ts_property_key is_js_identifier
key_plain = refl

key_quoted : ts_property_key "first \"name\"" ≡ "\"first \\\"name\\\"\""
unfolding ts_property_key is_js_identifier escape_js_string
key_quoted = refl

access_quoted : ts_prop_access "body" "a-b" ≡ "body[\"a-b\"]"
unfolding ts_prop_access is_js_identifier escape_js_string
access_quoted = refl

read-quoted_example :
    read Mode.plain (escape_js_string "a\"b" <> "\"" <> ": string")
    ≡ some (codes "a\"b", ": string")
read-quoted_example = read-quoted "a\"b" ": string"

read_key-ts_property_key_example : read_key (ts_property_key "a-b") ≡ some (codes "a-b")
read_key-ts_property_key_example = read_key-ts_property_key "a-b"

ts_property_key-injective_example : ◌≡◌ {A = String} "a-b" "a-b"
ts_property_key-injective_example = ts_property_key-injective "a-b" "a-b" refl

abbrev facts_of : String → NodeFacts
facts_of ref = record {
  type = "";
  format = "";
  description = "";
  required = [];
  enum = [];
  const = Value.nil;
  ref = ref;
  nullable = false;
  discriminator = none;
  name = "";
}

abbrev refers_to : String → Node
refers_to ref = node (facts_of ref) no_field null no_node no_node no_node null

abbrev schemas : Map Node
schemas =
    ("Record", node (facts_of "") no_field (to (refers_to "Entry")) no_node no_node no_node null)
    ∷ ("Entry", refers_to "Record")
    ∷ []

abbrev renamed_schemas : Map Node
renamed_schemas =
    ("Entry", refers_to "Record_")
    ∷ ("Record_", node (facts_of "") no_field (to (refers_to "Entry")) no_node no_node no_node null)
    ∷ []

rename_record : rename_builtin_collisions schemas ≡ renamed_schemas
unfolding rename_builtin_collisions safe_ts_name is_builtin lookup insert delete
rename_record = refl

schemas-RefsOk : Values (RefsOk (Named schemas)) schemas
unfolding RefsOk lookup
schemas-RefsOk = (
  (inl refl, tt, (inr refl, tt, tt, tt, tt, tt, tt), tt, tt, tt, tt),
  ((inr refl, tt, tt, tt, tt, tt, tt), tt),
)

rename_builtin_collisions-RefsOk_example :
    Values (RefsOk (Named (rename_builtin_collisions schemas))) (rename_builtin_collisions schemas)
rename_builtin_collisions-RefsOk_example = rename_builtin_collisions-RefsOk schemas schemas-RefsOk

has-rename_builtin_collisions_example : has "Record" (rename_builtin_collisions schemas) ≡ false
unfolding is_builtin
has-rename_builtin_collisions_example = has-rename_builtin_collisions schemas "Record" refl

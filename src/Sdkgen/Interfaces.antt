-- ===== src/Sdkgen/Interfaces.antt =====
-- internal/sdkgen/schema2ts.go: the declaration of a named schema, and its JSDoc comments. The
-- properties of a node are listed in the order of their names.
use Prim.Native.Char.{Char, code}
use tsgonest.Common.{
  ℕ, String, Bool, not, ◌&&◌, ◌||◌, List, [], ◌∷◌, ◌==◌, if◌then◌else◌, nat_eq, leb,
}
use tsgonest.Common.Lists.{any}
use tsgonest.Common.Texts.{◌<>◌, split}
use tsgonest.Sdkgen.Keys.{ts_property_key}
use tsgonest.Sdkgen.Nodes.{Node, NodeFacts, NodeFields, NodePointer}
use tsgonest.Sdkgen.Types.{
  Format, schema_to_ts, pointer_to_ts, optional_mark, no_pointer, no_fields,
}

-- `unicode.IsSpace`.
abbrev pub is_space : ℕ → Bool
is_space r =
    (leb 9 r && leb r 13)
    || nat_eq r 32
    || nat_eq r 0x85
    || nat_eq r 0xA0
    || nat_eq r 0x1680
    || (leb 0x2000 r && leb r 0x200A)
    || nat_eq r 0x2028
    || nat_eq r 0x2029
    || nat_eq r 0x202F
    || nat_eq r 0x205F
    || nat_eq r 0x3000

unfoldable pub trim_space_left : String → String
trim_space_left String.[] = String.[]
trim_space_left (String.◌∷◌ c s) =
    let rest = trim_space_left s in if is_space (code c) then rest else String.◌∷◌ c s

abbrev pub onto_spaces : Char → String → String
onto_spaces c String.[] = if is_space (code c) then String.[] else String.◌∷◌ c String.[]
onto_spaces c (String.◌∷◌ d t) = String.◌∷◌ c (String.◌∷◌ d t)

unfoldable pub trim_space_right : String → String
trim_space_right String.[] = String.[]
trim_space_right (String.◌∷◌ c s) = onto_spaces c (trim_space_right s)

-- `strings.TrimSpace`.
unfoldable pub trim_space : String → String
unfolding trim_space_left trim_space_right
trim_space s = trim_space_right (trim_space_left s)

-- A line of a comment of several, behind this indentation.
abbrev pub comment_line : String → String → String
comment_line indent line = if line == "" then indent <> " *\n" else indent <> " * " <> line <> "\n"

unfoldable pub comment_lines : String → List String → String
comment_lines indent [] = ""
comment_lines indent (l ∷ ls) = comment_line indent l <> comment_lines indent ls

abbrev pub comment_of : String → List String → String
comment_of indent (l ∷ []) = indent <> "/** " <> l <> " */\n"
comment_of indent ls = indent <> "/**\n" <> comment_lines indent ls <> indent <> " */\n"

-- `buildSchemaJSDoc`, and `buildPropertyJSDoc`, which differs in its indentation.
unfoldable pub build_schema_js_doc : String → String
unfolding trim_space comment_lines
build_schema_js_doc description = comment_of "" (split 10 (trim_space description))

unfoldable pub build_property_js_doc : String → String
unfolding trim_space comment_lines
build_property_js_doc description = comment_of "  " (split 10 (trim_space description))

abbrev pub described_by : (String → String) → String → String
described_by build description = if description == "" then "" else build description

abbrev pub facts_of_node : Node → NodeFacts
facts_of_node (Node.node f props items an on al extra) = f

module _ (format : Format) where
  -- The line of a property, with its comment.
  unfoldable pub interface_field : List String → String → Node → String
  unfolding build_property_js_doc schema_to_ts
  interface_field required name n =
      described_by build_property_js_doc (facts_of_node n).description
      <> "  "
      <> ts_property_key name
      <> optional_mark (any (λ r. r == name) required)
      <> ": "
      <> schema_to_ts format n
      <> ";\n"

  unfoldable pub interface_fields : List String → NodeFields → String
  unfolding interface_field
  interface_fields required NodeFields.no_field = ""
  interface_fields required (NodeFields.field name n more) =
      interface_field required name n <> interface_fields required more

  -- `GenerateInterface`.
  unfoldable pub generate_interface : String → NodePointer → String
  unfolding interface_fields build_schema_js_doc schema_to_ts
  generate_interface name NodePointer.null = "export type " <> name <> " = unknown;\n"
  generate_interface name (NodePointer.to (Node.node f props items an on al extra)) =
      if f.type == "object" && no_fields props && not (no_pointer extra)
      then described_by build_schema_js_doc f.description
        <> "export interface "
        <> name
        <> " { [key: string]: "
        <> pointer_to_ts format extra
        <> " }\n"
      else if not (f.type == "object") || no_fields props
      then described_by build_schema_js_doc f.description
        <> "export type "
        <> name
        <> " = "
        <> schema_to_ts format (Node.node f props items an on al extra)
        <> ";\n"
      else described_by build_schema_js_doc f.description
        <> "export interface "
        <> name
        <> " {\n"
        <> interface_fields f.required props
        <> "}\n"

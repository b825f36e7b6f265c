-- ===== src/Sdkgen/TypeExamples.antt =====
-- internal/sdkgen/schema2ts.go: the types and comments of small schemas.
use tsgonest.Metadata.{Float64, Value}
use tsgonest.Sdkgen.Literals.{is_identifier, read}
use tsgonest.Common.{
  String, true, false, Option, none, some, [], ◌∷◌, ◌≡◌, ◌==◌, if◌then◌else◌, refl,
}
use tsgonest.Common.Texts.{◌<>◌, has_prefix, join, split}
use tsgonest.Sdkgen.Keys.{is_js_identifier, ts_property_key}
use tsgonest.Sdkgen.Types.{Format, schema_to_ts}
use tsgonest.Sdkgen.Nodes.{Node, NodeFields, NodePointer, Nodes}
use tsgonest.Sdkgen.Grammar.{named, literal, union, list_of, no_type, type_and, wide, Reads}
use tsgonest.Sdkgen.TypeOf.{type_of, is_wide, IsClear}
use tsgonest.Sdkgen.Readable.Schemas.{schema_to_ts-type_of}
use tsgonest.Sdkgen.Readable.Nullable.{
  no_facts, plain_node, reference_to, any_of_nodes, array_of_node, nullable_array,
  nullable_array_lem,
}
use tsgonest.Sdkgen.Interfaces.{
  trim_space, build_schema_js_doc, build_property_js_doc, generate_interface,
}
use tsgonest.Sdkgen.Comments.{after_comment, star_scan, after_comment-build_schema_js_doc}

abbrev as_is : Format
as_is = record { escaped = λ s. s; shown = λ f. "0" }

-- `{ tags?: (Tag | null)[] }`, with a description.
abbrev tagged : Node
tagged =
    Node.node (record no_facts { type = "object"; description = "A\n\nB" })
      (NodeFields.field "tags"
        (array_of_node (
          any_of_nodes (
            Nodes.cons (reference_to "Tag")
              (Nodes.cons (plain_node (record no_facts { type = "null" })) Nodes.no_node))))
        NodeFields.no_field)
      NodePointer.null Nodes.no_node Nodes.no_node Nodes.no_node NodePointer.null

tagged_text : schema_to_ts as_is tagged ≡ "{ tags?: (Tag | null)[] }"
unfolding schema_to_ts is_js_identifier join ts_property_key
tagged_text = refl

tagged_interface :
    generate_interface as_is "Post" (NodePointer.to tagged)
    ≡ "/**\n * A\n *\n * B\n */\nexport interface Post {\n  tags?: (Tag | null)[];\n}\n"
unfolding generate_interface is_js_identifier split ts_property_key
tagged_interface = refl

-- The numeral 0, and no other.
abbrev zero_numeral : String → Option Float64
zero_numeral s = if s == "0" then some 0 else none

schema_to_ts-type_of_example : Reads zero_numeral wide (schema_to_ts as_is tagged) (type_of tagged)
unfolding IsClear schema_to_ts is_wide has_prefix type_of is_identifier
schema_to_ts-type_of_example = schema_to_ts-type_of as_is zero_numeral tagged (
  tt,
  (
    (
      (λ _. refl),
      tt,
      (
        refl,
        tt,
        tt,
        ((refl, tt, tt, tt, tt, tt, tt), ((tt, tt, tt, tt, tt, tt, tt), tt)),
        tt,
        tt,
        tt,
      ),
      tt,
      tt,
      tt,
      tt,
    ),
    tt,
  ),
  tt,
  tt,
  tt,
  tt,
  tt,
)

-- `"a" | 0 | null`.
abbrev mixed : Node
mixed = plain_node (record no_facts { enum = Value.text "a" ∷ Value.number 0 ∷ Value.nil ∷ [] })

mixed_type :
    type_of mixed
    ≡ union (
        type_and
          (literal (Value.text "a"))
          (type_and (literal (Value.number 0)) (type_and (literal Value.nil) no_type)))
unfolding type_of
mixed_type = refl

mixed-IsClear : IsClear as_is zero_numeral mixed
unfolding IsClear read
mixed-IsClear = ((refl, ((refl, refl), (tt, tt))), tt, tt, tt, tt, tt, tt)

nullable_array_lem_example : Reads zero_numeral wide (schema_to_ts as_is (nullable_array "A" "B")) (
    union (
      type_and
        (union (type_and (named "A") (type_and (named "B") no_type)))
        (type_and (list_of (named "null")) no_type)))
unfolding is_identifier
nullable_array_lem_example = nullable_array_lem as_is zero_numeral "A" "B" refl refl refl refl

nullable_array_run : schema_to_ts as_is (nullable_array "A" "B") ≡ "(A | B) | null[]"
unfolding schema_to_ts join
nullable_array_run = refl

after_comment-build_schema_js_doc_example :
    (after_comment (build_schema_js_doc "one\ntwo *" <> "x") ≡ some ("\n" <> "x"))
    × (after_comment (build_property_js_doc "one\ntwo *" <> "x") ≡ some ("\n" <> "x"))
unfolding split trim_space star_scan
after_comment-build_schema_js_doc_example =
    after_comment-build_schema_js_doc "one\ntwo *" "x" ((false, refl), ((true, refl), tt))

-- ===== src/Sdkgen/Readable/Nullable.antt =====
-- internal/sdkgen/schema2ts.go: the text for an array of a nullable union of two references.
use text.Mathlib.TextLemmas.{append_assoc, cons-append}
use mathlib.Core.Bool.{and-false}
use mathlib.Core.Path.{subst}
use tsgonest.Common.Tests.{Bool-cases}
use tsgonest.Metadata.{Float64}
use tsgonest.Sdkgen.Literals.{is_identifier}
use tsgonest.Common.{
  Option, inl, inr, arith, eq_iff, String, true, false, [], ◌∷◌, ◌≡◌, ◌==◌, refl, none,
}
use tsgonest.Common.Texts.{◌<>◌, has_prefix, join}
use tsgonest.Metadata.{Value}
use tsgonest.Sdkgen.Types.{Format, schema_to_ts}
use tsgonest.Sdkgen.Nodes.{Node, NodeFacts, NodeFields, NodePointer, Nodes}
use tsgonest.Sdkgen.Grammar.{
  named, union, list_of, no_type, type_and, wide, Reads, a_name, loosely, either, group, list,
  none_left, and_reads,
}

abbrev pub no_facts : NodeFacts
no_facts = record {
  type = "";
  format = "";
  description = "";
  required = [];
  enum = [];
  const = Value.nil;
  ref = "";
  nullable = false;
  discriminator = none;
  name = "";
}

abbrev pub plain_node : NodeFacts → Node
plain_node f =
    Node.node f NodeFields.no_field NodePointer.null Nodes.no_node Nodes.no_node Nodes.no_node
      NodePointer.null

abbrev pub reference_to : String → Node
reference_to a = plain_node (record no_facts { ref = a })

abbrev pub any_of_nodes : Nodes → Node
any_of_nodes ns =
    Node.node no_facts NodeFields.no_field NodePointer.null ns Nodes.no_node Nodes.no_node
      NodePointer.null

abbrev pub array_of_node : Node → Node
array_of_node n =
    Node.node (record no_facts { type = "array" }) NodeFields.no_field (NodePointer.to n)
      Nodes.no_node Nodes.no_node Nodes.no_node NodePointer.null

-- `(A | B | null)[]`, as a schema.
abbrev pub nullable_array : String → String → Node
nullable_array a b = array_of_node (
    any_of_nodes (
      Nodes.cons (reference_to a) (
        Nodes.cons (reference_to b)
          (Nodes.cons (plain_node (record no_facts { type = "null" })) Nodes.no_node))))

opens : (s t : String) → has_prefix "(" (("(" <> s) <> t) ≡ true
unfolding has_prefix
opens s t = rw (append_assoc, cons-append) refl

nullable_array_text :
    (format : Format) (a b : String)
    → (a == "") ≡ false
    → (b == "") ≡ false
    → (a == "null") ≡ false
    → (b == "null") ≡ false
    → schema_to_ts format (nullable_array a b)
      ≡ ("(" <> (a <> (" | " <> b)) <> ")") <> (" | " <> "null[]")
unfolding schema_to_ts
nullable_array_text format a b ea eb na nb =
    rw (ea, eb, na, nb, opens (join " | " (a ∷ b ∷ []) <> ")") " | null", and-false)
      (unfold join in rw (append_assoc, append_assoc, append_assoc, append_assoc) refl)

identifier_not_empty : (a : String) → is_identifier a ≡ true → (a == "") ≡ false
unfolding is_identifier
identifier_not_empty a i = elim (Bool-cases (a == "")) [
  | inr n ↦ n
  | inl y ↦ absurd (
      let none_left : is_identifier "" ≡ true =
        subst (λ t. is_identifier t ≡ true) ((eq_iff a "").0 y) i in
      ground (arith, none_left))
]

null_name : is_identifier "null" ≡ true
unfolding is_identifier
null_name = refl

-- The text for an array of `A | B | null` is read as the union of `A | B` and an array of null; A and
-- B are identifiers, and not null.
pub nullable_array_lem :
    (format : Format) (numeral : String → Option Float64) (a b : String)
    → is_identifier a ≡ true
    → is_identifier b ≡ true
    → (a == "null") ≡ false
    → (b == "null") ≡ false
    → Reads numeral wide (schema_to_ts format (nullable_array a b)) (
        union (
          type_and
            (union (type_and (named a) (type_and (named b) no_type)))
            (type_and (list_of (named "null")) no_type)))
unfolding join
nullable_array_lem format numeral a b ia ib na nb =
    rw
      (nullable_array_text format a b (identifier_not_empty a ia) (identifier_not_empty b ib) na nb)
      (either (
        and_reads
          (loosely (
            group (
              either
                (and_reads (loosely (a_name a ia)) (and_reads (loosely (a_name b ib)) none_left)))))
          (and_reads (loosely (list (a_name "null" null_name))) none_left)))

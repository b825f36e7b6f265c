-- ===== src/Sdkgen/Refs.antt =====
-- internal/sdkgen/shared.go, renameSchemaRefs: the references of a schema node.
use tsgonest.Common.{String, ◌≡◌, ◌∙◌, ap, inl, inr, ◌⊎◌}
use tsgonest.Common.Maps.{Map}
use tsgonest.Sdkgen.Nodes.{
  Node, node, NodeFields, no_field, field, NodePointer, null, to, Nodes, no_node, cons, renamed,
  rename_schema_refs, rename_fields, rename_pointer, rename_nodes,
}

-- Every reference that is written satisfies the predicate.
unfoldable mutual
  pub RefsOk : (String → Type 0) → Node → Type 0
  RefsOk P (node f props items an on al extra) =
      ((f.ref ≡ "") ⊎ P f.ref)
      × FieldsOk P props
      × PointerOk P items
      × NodesOk P an
      × NodesOk P on
      × NodesOk P al
      × PointerOk P extra

  pub FieldsOk : (String → Type 0) → NodeFields → Type 0
  FieldsOk P no_field = Unit
  FieldsOk P (field name n more) = RefsOk P n × FieldsOk P more

  pub PointerOk : (String → Type 0) → NodePointer → Type 0
  PointerOk P null = Unit
  PointerOk P (to n) = RefsOk P n

  pub NodesOk : (String → Type 0) → Nodes → Type 0
  NodesOk P no_node = Unit
  NodesOk P (cons n ns) = RefsOk P n × NodesOk P ns

module _ (renames : Map String) (P Q : String → Type 0) (empty : renamed renames "" ≡ "")
    (moves : (n : String) → P n → Q (renamed renames n)) where
  ref_ok :
      (ref : String) → (ref ≡ "") ⊎ P ref → (renamed renames ref ≡ "") ⊎ Q (renamed renames ref)
  ref_ok ref (inl e) = inl (ap (renamed renames) e ∙ empty)
  ref_ok ref (inr p) = inr (moves ref p)

  mutual
    unfolding RefsOk rename_schema_refs

    pub rename_schema_refs-RefsOk :
        (n : Node) → RefsOk P n → RefsOk Q (rename_schema_refs renames n)
    rename_schema_refs-RefsOk (node f props items an on al extra) (r, a, b, c, d, e, g) = (
      ref_ok f.ref r,
      fields_ok props a,
      pointer_ok items b,
      nodes_ok an c,
      nodes_ok on d,
      nodes_ok al e,
      pointer_ok extra g,
    )

    fields_ok : (fs : NodeFields) → FieldsOk P fs → FieldsOk Q (rename_fields renames fs)
    fields_ok no_field h = tt
    fields_ok (field name n more) (h, k) = (rename_schema_refs-RefsOk n h, fields_ok more k)

    pointer_ok : (p : NodePointer) → PointerOk P p → PointerOk Q (rename_pointer renames p)
    pointer_ok null h = tt
    pointer_ok (to n) h = rename_schema_refs-RefsOk n h

    nodes_ok : (ns : Nodes) → NodesOk P ns → NodesOk Q (rename_nodes renames ns)
    nodes_ok no_node h = tt
    nodes_ok (cons n ns) (h, k) = (rename_schema_refs-RefsOk n h, nodes_ok ns k)

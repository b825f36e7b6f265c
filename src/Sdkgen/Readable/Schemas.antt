-- ===== src/Sdkgen/Readable/Schemas.antt =====
-- internal/sdkgen/schema2ts.go: what TypeScript reads in the text of SchemaToTS, by induction on the
-- schema.
use text.Mathlib.TextLemmas.{nil-append, append_assoc}
use mathlib.Core.Path.{subst}
use tsgonest.Common.{
  String, Bool, true, false, Option, sym, ◌∷◌, List, ◌≡◌, ◌==◌, refl, arith, inl, inr,
}
use tsgonest.Common.Tests.{Bool-cases}
use tsgonest.Common.Lists.{any, is_empty}
use tsgonest.Common.Texts.{◌<>◌, join, has_prefix}
use tsgonest.Metadata.{Float64}
use tsgonest.Sdkgen.Keys.{ts_property_key}
use tsgonest.Sdkgen.Literals.{is_identifier, read_key-ts_property_key}
use tsgonest.Sdkgen.Types.{
  optional_mark, has_part, Format, Branch, branch, reference, enumeration, constant, any_of, one_of,
  all_of, blob, string, number, boolean, null, array, map, inline, open_object, unknown,
  schema_to_ts, nodes_to_ts, fields_to_ts, pointer_to_ts, branch_to_ts, field_to_ts,
}
use tsgonest.Sdkgen.Nodes.{Node, NodeFacts, NodeFields, NodePointer, Nodes}
use tsgonest.Sdkgen.Grammar.{
  TsType, TsFields, named, wide, Reads, ReadsFields, a_name, record_type, member, inline_object,
  loosely, no_more, required_field, optional_field,
}
use tsgonest.Sdkgen.TypeOf.{
  said_by, said_by_type, branch_type, branch_wide, type_of, fields_of, pointer_type, types_of,
  is_wide, are_wide, pointer_wide, IsBranchClear, IsClear, AreFieldsClear, IsPointerClear, AreClear,
}
use tsgonest.Sdkgen.Readable.{
  TextPart, TextParts, record_not_null, object_not_null, constant_part, widen, union_part,
  intersection_part, enum_part, array_part,
}

-- The code takes the branch that the schema says.
branch-said_by :
    (f : NodeFacts) (props : NodeFields) (an on al : Nodes) (extra : NodePointer)
    → branch f props an on al extra ≡ said_by f props an on al extra
unfolding branch said_by
branch-said_by f props an on al extra = ground (arith)

said_by_type_enum :
    (f : NodeFacts) (props : NodeFields) (extra : NodePointer)
    → said_by_type f props extra ≡ enumeration
    → ⊥
unfolding said_by_type
said_by_type_enum f props extra e = ground (arith, e)

said_by_enum :
    (f : NodeFacts) (props : NodeFields) (an on al : Nodes) (extra : NodePointer)
    → said_by f props an on al extra ≡ enumeration
    → is_empty f.enum ≡ false
unfolding said_by
said_by_enum f props an on al extra e = elim (Bool-cases (is_empty f.enum)) [
  | inr n ↦ n
  | inl y ↦ absurd (ground (arith, e, y, said_by_type_enum f props extra))
]

module _ (format : Format) (numeral : String → Option Float64) where
  name_part : (s : String) → is_identifier s ≡ true → TextPart format numeral s false (named s)
  name_part s i = (a_name s i, (λ e. absurd (ground (arith, e))), refl)

  -- What a branch writes is read as the type of the branch, if the parts' texts are.
  branch_part :
      (b : Branch) (f : NodeFacts) (fs : List String) (fts : TsFields) (item : String) (w : Bool)
      (itemt : TsType) (an on al : List String) (anw onw alw : List Bool)
      (ant ont alt : List TsType) (extra : String) (extrat : TsType)
      → IsBranchClear format numeral b f item w ant ont alt alw
      → (b ≡ enumeration → is_empty f.enum ≡ false)
      → ReadsFields numeral fs fts
      → TextPart format numeral item w itemt
      → TextParts format numeral an anw ant
      → TextParts format numeral on onw ont
      → TextParts format numeral al alw alt
      → Reads numeral wide extra extrat
      → TextPart format numeral
          (branch_to_ts format b f fs item an on al extra)
          (branch_wide b f ant ont alt anw onw alw)
          (branch_type b f fts itemt ant ont alt extrat)
  unfolding branch_to_ts branch_wide branch_type is_identifier has_part has_prefix
  branch_part reference f fs fts item w it an on al anw onw alw ant ont alt ex ext c ne rf ri ra ro
        rl re =
      name_part f.ref c
  branch_part enumeration f fs fts item w it an on al anw onw alw ant ont alt ex ext c ne rf ri ra
        ro rl re =
      enum_part format numeral f.enum c (ne refl)
  branch_part constant f fs fts item w it an on al anw onw alw ant ont alt ex ext c ne rf ri ra ro
        rl re =
      constant_part format numeral f.const c
  branch_part any_of f fs fts item w it an on al anw onw alw ant ont alt ex ext c ne rf ri ra ro rl
        re =
      union_part format numeral an anw ant ra c
  branch_part one_of f fs fts item w it an on al anw onw alw ant ont alt ex ext c ne rf ri ra ro rl
        re =
      union_part format numeral on onw ont ro c
  branch_part all_of f fs fts item w it an on al anw onw alw ant ont alt ex ext c ne rf ri ra ro rl
        re =
      intersection_part format numeral al alw alt rl c.0 c.1
  branch_part array f fs fts item w it an on al anw onw alw ant ont alt ex ext c ne rf ri ra ro rl
        re =
      array_part format numeral w item it ri c
  branch_part map f fs fts item w it an on al anw onw alw ant ont alt ex ext c ne rf ri ra ro rl
        re =
      (record_type re, (λ e. absurd (ground (arith, e))), record_not_null (ex <> ">"))
  branch_part inline f fs fts item w it an on al anw onw alw ant ont alt ex ext c ne rf ri ra ro rl
        re =
      (inline_object rf, (λ e. absurd (ground (arith, e))), object_not_null (join "; " fs <> " }"))
  branch_part open_object f fs fts item w it an on al anw onw alw ant ont alt ex ext c ne rf ri ra
        ro rl re =
      (
        record_type (loosely (a_name "unknown" refl)),
        (λ e. absurd (ground (arith, e))),
        record_not_null "unknown>",
      )
  branch_part blob f fs fts item w it an on al anw onw alw ant ont alt ex ext c ne rf ri ra ro rl
        re =
      name_part "Blob" refl
  branch_part string f fs fts item w it an on al anw onw alw ant ont alt ex ext c ne rf ri ra ro rl
        re =
      name_part "string" refl
  branch_part number f fs fts item w it an on al anw onw alw ant ont alt ex ext c ne rf ri ra ro rl
        re =
      name_part "number" refl
  branch_part boolean f fs fts item w it an on al anw onw alw ant ont alt ex ext c ne rf ri ra ro rl
        re =
      name_part "boolean" refl
  branch_part null f fs fts item w it an on al anw onw alw ant ont alt ex ext c ne rf ri ra ro rl
        re =
      name_part "null" refl
  branch_part unknown f fs fts item w it an on al anw onw alw ant ont alt ex ext c ne rf ri ra ro rl
        re =
      name_part "unknown" refl

  field_read :
      (key : String) (required : Bool) (s : String) (t : TsType) (ss : List String) (fs : TsFields)
      → Reads numeral wide s t
      → ReadsFields numeral ss fs
      → ReadsFields numeral
          ((ts_property_key key <> optional_mark required <> ": " <> s) ∷ ss)
          (member key required t fs)
  field_read key true s t ss fs r rs =
      subst (λ u. ReadsFields numeral ((ts_property_key key <> u) ∷ ss) (member key true t fs))
        (sym (nil-append (": " <> s)))
        (required_field (ts_property_key key) key (read_key-ts_property_key key) r rs)
  field_read key false s t ss fs r rs =
      subst (λ u. ReadsFields numeral ((ts_property_key key <> u) ∷ ss) (member key false t fs))
        (append_assoc "?" ": " s)
        (optional_field (ts_property_key key) key (read_key-ts_property_key key) r rs)

  mutual
    unfolding schema_to_ts type_of is_wide IsClear field_to_ts is_identifier

    node_part :
        (n : Node)
        → IsClear format numeral n
        → TextPart format numeral (schema_to_ts format n) (is_wide n) (type_of n)
    node_part (Node.node f props items an on al extra) (c, cp, ci, ca, co, cl, ce) =
        rw (branch-said_by f props an on al extra) (
          branch_part (said_by f props an on al extra) f _ _ _ _ _ _ _ _ _ _ _ _ _ _ _ _ c
            (said_by_enum f props an on al extra) (fields_read f.required props cp)
            (pointer_part items ci) (nodes_parts an ca) (nodes_parts on co) (nodes_parts al cl)
            (widen format numeral _ _ _ (pointer_part extra ce).0))

    fields_read :
        (required : List String) (fs : NodeFields)
        → AreFieldsClear format numeral fs
        → ReadsFields numeral (fields_to_ts format required fs) (fields_of required fs)
    fields_read required NodeFields.no_field c = no_more
    fields_read required (NodeFields.field key n more) (c, cs) =
        field_read key (any (λ r. r == key) required) _ _ _ _
          (widen format numeral _ _ _ (node_part n c).0) (fields_read required more cs)

    pointer_part :
        (p : NodePointer)
        → IsPointerClear format numeral p
        → TextPart format numeral (pointer_to_ts format p) (pointer_wide p) (pointer_type p)
    pointer_part NodePointer.null c = name_part "unknown" refl
    pointer_part (NodePointer.to n) c = node_part n c

    nodes_parts :
        (ns : Nodes)
        → AreClear format numeral ns
        → TextParts format numeral (nodes_to_ts format ns) (are_wide ns) (types_of ns)
    nodes_parts Nodes.no_node c = tt
    nodes_parts (Nodes.cons n ns) (c, cs) = (node_part n c, nodes_parts ns cs)

  -- TypeScript reads the text of SchemaToTS as the type that the schema stands for. It is asked, of
  -- the schema and all in it, that a reference is an identifier, that %q writes the text constants
  -- as JavaScript reads them and the numbers are written as numerals, that each composition has a
  -- part besides null, that no part of an intersection of several binds like a union, and that an
  -- array's item that binds like one does not begin with a parenthesis.
  pub schema_to_ts-type_of :
      (n : Node) → IsClear format numeral n → Reads numeral wide (schema_to_ts format n) (type_of n)
  schema_to_ts-type_of n c = widen format numeral (is_wide n) _ _ (node_part n c).0

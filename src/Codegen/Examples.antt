-- ===== src/Codegen/Examples.antt =====
-- internal/codegen: the generated test on small types and values.
use tsgonest.Common.{
  String, Bool, true, false, ◌&&◌, Option, none, some, [], ◌∷◌, ◌≡◌, ◌==◌, refl, if◌then◌else◌,
  nat_eq, leb,
}
use tsgonest.Common.Maps.{lookup}
use tsgonest.Metadata.{
  Metadata, TypeRegistry, PropertyFacts, Kind, Properties, Pointer, Members, pos, Discriminant,
}
use tsgonest.Codegen.JsValue.{
  JsValue, JsItems, JsFields, Host, typeof, is_undefined, is_null, is_array, get,
}
use tsgonest.Codegen.Expr.{Env, no_expr, eval, read, Accessor, run_test, every_of, bind}
use tsgonest.Codegen.IsExpr.{
  generate_is_function, generate_ref, generate_is_discriminated_union_expr,
}
use tsgonest.Codegen.Names.{escape_for_regex_literal}
use tsgonest.Codegen.Regexes.{
  literal_end, is_pattern, literal_end-escape_for_regex_literal, escape_for_regex_literal_idem,
}
use tsgonest.Common.Texts.{◌<>◌}
use tsgonest.Codegen.Matches.{is_record, property_of, matches}
use tsgonest.Codegen.Correct.Function.{discriminated_number, unbound_list, blank, made_of, list_of}

-- An engine in which numbers are their bit patterns and nothing is an instance of a class.
abbrev engine : Host
engine = record {
  is_finite = λ f. true;
  same_number = nat_eq;
  at_least = λ v x. elim v [ JsValue.number f ↦ leb x f | _ ↦ false ];
  at_most = λ v x. elim v [ JsValue.number f ↦ leb f x | _ ↦ false ];
  above = λ v x. false;
  below = λ v x. false;
  units = λ s. 0;
  test = λ p fl v. true;
  instance_of = λ v c. false;
  valid_date = λ v. none;
  member = λ v k. JsValue.undefined;
  member_at = λ v i. JsValue.undefined;
  has_member = λ v k. false;
  length_of = λ v. none;
}

-- Lists of lists of lists.
unfoldable mutual
  nested : JsValue → Bool
  nested (JsValue.array xs) = all_nested xs
  nested JsValue.undefined = false
  nested JsValue.null = false
  nested (JsValue.boolean b) = false
  nested (JsValue.number f) = false
  nested (JsValue.bigint s) = false
  nested (JsValue.symbol s) = false
  nested (JsValue.text s) = false
  nested (JsValue.function s) = false
  nested (JsValue.object c fs) = false

  all_nested : JsItems → Bool
  all_nested JsItems.no_item = true
  all_nested (JsItems.item v more) = nested v && all_nested more

abbrev decide : String → JsValue → Bool
decide name v = if "Nested" == name then nested v else true

abbrev types : TypeRegistry
types = ("Nested", list_of "Nested") ∷ []

-- `type Tag = string`.
abbrev tag : Metadata
tag =
    made_of (record blank { kind = Kind.atomic; atomic = "string" }) Properties.no_property
      Pointer.null Members.no_member

abbrev tags : TypeRegistry
tags = ("Tag", tag) ∷ []

abbrev decide_tag : String → JsValue → Bool
decide_tag name v = if "Tag" == name then matches engine (λ n w. true) tag v else true

abbrev property_facts : String → PropertyFacts
property_facts name = record {
  name = name;
  required = true;
  readonly = false;
  exact_optional = false;
  constraints = none;
  description = "";
  write_only = false;
  example = none;
}

-- `{ id: number; items: Nested | null }`.
abbrev box : Metadata
box =
    made_of (record blank { kind = Kind.object; name = "Box" })
      (Properties.property (property_facts "id")
        (made_of (record blank { kind = Kind.atomic; atomic = "number" }) Properties.no_property
          Pointer.null Members.no_member)
        (Properties.property (property_facts "items")
          (made_of (record blank { kind = Kind.ref; ref = "Nested"; nullable = true })
            Properties.no_property Pointer.null Members.no_member)
          Properties.no_property))
      Pointer.null Members.no_member

abbrev env_of : JsValue → Env
env_of v = record { argument = v; value_of = λ n. JsValue.undefined }

abbrev boxed : JsValue → JsValue
boxed v =
    JsValue.object "Object"
      (JsFields.field "id" (JsValue.number 7) (JsFields.field "items" v JsFields.no_field))

abbrev one_list : JsValue
one_list = JsValue.array (JsItems.item (JsValue.array JsItems.no_item) JsItems.no_item)

-- `{ id: number; tag: Tag | null }`.
abbrev card : Metadata
card =
    made_of (record blank { kind = Kind.object; name = "Card" })
      (Properties.property (property_facts "id")
        (made_of (record blank { kind = Kind.atomic; atomic = "number" }) Properties.no_property
          Pointer.null Members.no_member)
        (Properties.property (property_facts "tag")
          (made_of (record blank { kind = Kind.ref; ref = "Tag"; nullable = true })
            Properties.no_property Pointer.null Members.no_member)
          Properties.no_property))
      Pointer.null Members.no_member

abbrev tagged : JsValue
tagged = JsValue.object "Object" (
    JsFields.field "id" (JsValue.number 7)
      (JsFields.field "tag" (JsValue.text "new") JsFields.no_field))

-- No function is in scope.
abbrev no_calls : String → JsValue → Option Bool
no_calls name v = none

-- The test accepts a box and refuses one whose list holds a number.
RunsTo : Bool → JsValue → Type 0
RunsTo b v =
    eval engine (λ n w. some (decide n w)) (env_of v) (generate_is_function "Box" box types)
    ≡ some b

accepts : RunsTo true (boxed one_list)
unfolding RunsTo generate_is_function eval read run_test every_of bind nested lookup typeof is_null
    get is_undefined is_array
accepts = refl

accepts_null : RunsTo true (boxed JsValue.null)
unfolding RunsTo generate_is_function eval read run_test every_of bind nested lookup typeof is_null
    get is_undefined is_array
accepts_null = refl

refuses : RunsTo false (boxed (JsValue.array (JsItems.item (JsValue.number 1) JsItems.no_item)))
unfolding RunsTo generate_is_function eval read run_test every_of bind nested lookup typeof is_null
    get is_undefined is_array
refuses = refl

-- No function is in scope but that of the box itself.
abbrev box_only : String → JsValue → Option Bool
box_only name v = if name == "Box" then some true else none

unbound_list_example :
    eval engine box_only
      (env_of one_list)
      (generate_ref types 1 ("Box" ∷ []) "Nested" Accessor.input 0)
    ≡ none
unfolding lookup read
unbound_list_example =
    unbound_list engine box_only (env_of one_list) types 0 "Box" "Nested" Accessor.input 0
      (JsValue.array JsItems.no_item) JsItems.no_item refl refl refl refl

abbrev by_kind : Discriminant
by_kind = record { property = "kind"; mapping = ("1", pos 0) ∷ [] }

discriminated_number_example :
    eval engine box_only
      (env_of
        (JsValue.object "Object" (JsFields.field "kind" (JsValue.number 1) JsFields.no_field)))
      (generate_is_discriminated_union_expr Accessor.input by_kind no_expr)
    ≡ some false
unfolding read property_of is_record
discriminated_number_example =
    discriminated_number engine box_only
      (env_of
        (JsValue.object "Object" (JsFields.field "kind" (JsValue.number 1) JsFields.no_field)))
      Accessor.input by_kind no_expr
      (JsValue.object "Object" (JsFields.field "kind" (JsValue.number 1) JsFields.no_field)) 1 refl
      refl refl

literal_end-escape_for_regex_literal_example :
    literal_end (escape_for_regex_literal "a/[/b]\\/c" <> "/" <> ".test(x)") ≡ some ".test(x)"
unfolding is_pattern
literal_end-escape_for_regex_literal_example =
    literal_end-escape_for_regex_literal "a/[/b]\\/c" ".test(x)" refl

escape_for_regex_literal_idem_example :
    escape_for_regex_literal (escape_for_regex_literal "a/b\\/c")
    ≡ escape_for_regex_literal "a/b\\/c"
escape_for_regex_literal_idem_example = escape_for_regex_literal_idem "a/b\\/c"

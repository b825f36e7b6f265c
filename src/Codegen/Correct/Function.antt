-- ===== src/Codegen/Correct/Function.antt =====
-- internal/codegen/validate_is.go: the function `is` of a type, and two inputs outside what it is
-- written for.
use tsgonest.Common.{
  ℕ, zero, suc, ◌+◌, String, Bool, true, false, Option, none, some, [], ◌∷◌, ◌≡◌, ◌==◌, refl, ap,
  nat_eq, ◌∙◌, arith,
}
use text.Mathlib.TextPositions.{eq_refl}
use tsgonest.Common.Maps.{lookup}
use tsgonest.Metadata.{
  Metadata, TypeRegistry, Discriminant, Float64, Facts, Kind, Properties, Pointer, Elements,
  Members, Index, Value,
}
use tsgonest.Codegen.JsValue.{JsValue, JsItems, Host, is_array}
use tsgonest.Codegen.Expr.{
  Accessor, call, run_test, every_of, Env, Exprs, read, eval, is_case, bind, variable,
}
use tsgonest.Codegen.IsExpr.{
  generate_is_discriminated_union_expr, mapping_cases, generate_ref, generate_is_expr,
}
use tsgonest.Codegen.Matches.{is_record, property_of}
use tsgonest.Codegen.Correct.Steps.{record_step, read-property}
use tsgonest.Codegen.Correct.Unions.{cases_other, switch_step, one_step}

-- A discriminated union refuses each record whose discriminant is a number: the cases are texts.
pub discriminated_number :
    (h : Host) (calls : String → JsValue → Option Bool) (env : Env) (a : Accessor)
    (d : Discriminant) (es : Exprs) (v : JsValue) (f : Float64)
    → read h env a ≡ some v
    → is_record v ≡ true
    → property_of h v d.property ≡ JsValue.number f
    → eval h calls env (generate_is_discriminated_union_expr a d es) ≡ some false
unfolding generate_is_discriminated_union_expr is_case
discriminated_number h calls env a d es v f r t p =
    let w = read-property h calls env a d.property v r t in
    record_step h calls env a _ v false r (λ _. one_step h calls env _ false (
      switch_step h calls env a d es (JsValue.number f) false (rw p at w)
        (cases_other h calls env (mapping_cases d.mapping es) (JsValue.number f) (λ s. refl))))
    ∙ ap some (rw t refl)

abbrev pub blank : Facts
blank = record {
  kind = Kind.any;
  nullable = false;
  optional = false;
  name = "";
  atomic = "";
  template_pattern = "";
  literal_value = Value.nil;
  discriminant = none;
  enum_values = [];
  native_type = "";
  ref = "";
  strictness = "";
  ignore = "";
  constraints = none;
}

abbrev pub made_of : Facts → Properties → Pointer → Members → Metadata
made_of f ps el us =
    Metadata.metadata f ps el Elements.no_element us Members.no_member Members.no_member
      Index.no_index

-- `type Name = Name[]`.
abbrev pub list_of : String → Metadata
list_of name =
    made_of (record blank { kind = Kind.array; name = name }) Properties.no_property
      (Pointer.to (
        made_of (record blank { kind = Kind.ref; ref = name }) Properties.no_property Pointer.null
          Members.no_member))
      Members.no_member

repeated_call :
    (types : TypeRegistry) (fuel : ℕ) (root name : String) (n : ℕ)
    → generate_ref types fuel (name ∷ root ∷ []) name (variable n) (n + 1) ≡ call name (variable n)
unfolding generate_ref
repeated_call types zero root name n = rw (eq_refl name)
repeated_call types (suc fuel) root name n = rw (eq_refl name)

-- The test that a type puts in for another type that is a list of itself calls a function named
-- after that other type: where there is none in scope, it throws on each list with an element.
pub unbound_list :
    (h : Host) (calls : String → JsValue → Option Bool) (env : Env) (types : TypeRegistry)
    (fuel : ℕ) (root name : String) (a : Accessor) (n : ℕ) (w : JsValue) (more : JsItems)
    → lookup name types ≡ some (list_of name)
    → (root == name) ≡ false
    → calls name w ≡ none
    → read h env a ≡ some (JsValue.array (JsItems.item w more))
    → eval h calls env (generate_ref types (suc fuel) (root ∷ []) name a n) ≡ none
unfolding generate_ref generate_is_expr eval run_test read bind every_of is_array
unbound_list h calls env types fuel root name a n w more p e c r =
    rw (e, p, generate_ref, repeated_call types fuel root name n, r)
      (let same : nat_eq n n ≡ true = ground arith in rw (same, c) refl)

-- ===== src/Codegen/Matches.antt =====
-- What it means that a JavaScript value has a type of internal/metadata, said on the value itself.
-- `decide` says which values have the type of a name.
use tsgonest.Common.{
  ℕ, ◌+◌, String, Bool, true, false, not, ◌&&◌, ◌||◌, Option, none, some, List, [], ◌∷◌, ◌==◌,
  if◌then◌else◌,
}
use tsgonest.Common.Maps.{lookup}
use tsgonest.Metadata.{
  Metadata, Facts, Kind, facts, PropertyFacts, Properties, Pointer, Elements, Members, Constraints,
  EnumValue, pos, Value,
}
use tsgonest.Codegen.Formats.{format_regexes, format_flags}
use tsgonest.Codegen.JsValue.{
  JsValue, JsItems, Host, typeof, is_undefined, is_null, is_array, nth_item, count_items, reaches,
  within, get, has_key, equals,
}

abbrev pub or_false : Option Bool → Bool
or_false none = false
or_false (some b) = b

abbrev pub or_undefined : Option JsValue → JsValue
or_undefined none = JsValue.undefined
or_undefined (some v) = v

-- A value with properties.
unfoldable pub is_record : JsValue → Bool
is_record (JsValue.array xs) = true
is_record (JsValue.object c fs) = true
is_record v = false

abbrev pub allows {ℓ} : {A : Type ℓ} → Option A → (A → Bool) → Bool
allows none f = true
allows (some x) f = f x

-- The value a property of it has.
unfoldable pub property_of : Host → JsValue → String → JsValue
unfolding get
property_of h v key = or_undefined (get h v key)

-- A tuple's element.
unfoldable pub element_of : JsValue → ℕ → JsValue
unfolding nth_item
element_of (JsValue.array xs) i = nth_item xs i
element_of v i = JsValue.undefined

unfoldable pub is_shorter : JsValue → ℕ → Bool
unfolding count_items within
is_shorter (JsValue.array xs) i = within (count_items xs) (pos i)
is_shorter v i = false

unfoldable pub all_items : (JsValue → Bool) → JsItems → Bool
all_items p JsItems.no_item = true
all_items p (JsItems.item v more) = p v && all_items p more

-- An optional element may be missing; what stands in the place of a rest element is not tested.
abbrev pub element_fits : (optional rest shorter fits others : Bool) → Bool
element_fits optional true shorter fits others = others
element_fits true false shorter fits others = (shorter || fits) && others
element_fits false false shorter fits others = fits && others

abbrev pub array_of : Option (JsValue → Bool) → JsValue → Bool
array_of none v = is_array v
array_of (some p) (JsValue.array xs) = all_items p xs
array_of (some p) v = false

-- A constraint on numbers, and one on texts: other values meet it.
unfoldable pub number_meets : (JsValue → Bool) → JsValue → Bool
number_meets p (JsValue.number f) = p (JsValue.number f)
number_meets p v = true

unfoldable pub text_meets : (JsValue → Bool) → JsValue → Bool
text_meets p (JsValue.text s) = p (JsValue.text s)
text_meets p v = true

module _ (h : Host) where
  unfoldable pub has_literal : Value → JsValue → Bool
  unfolding equals
  has_literal w v = or_false (equals h v w)

  unfoldable pub finite_number : JsValue → Bool
  finite_number (JsValue.number f) = h.is_finite f
  finite_number v = false

  unfoldable pub has_atomic : Facts → JsValue → Bool
  unfolding typeof finite_number
  has_atomic f v =
      if f.atomic == "string"
      then typeof v == "string" && (f.template_pattern == "" || h.test f.template_pattern "" v)
      else if f.atomic == "number"
      then finite_number v
      else if f.atomic == "boolean"
      then typeof v == "boolean"
      else if f.atomic == "bigint"
      then typeof v == "bigint"
      else true

  unfoldable pub has_native : String → JsValue → Bool
  has_native name v =
      if name == "Date"
      then h.instance_of v "Date" && or_false (h.valid_date v)
      else h.instance_of v name

  unfoldable pub has_enum_value : List EnumValue → JsValue → Bool
  unfolding has_literal
  has_enum_value [] v = false
  has_enum_value (w ∷ ws) v = has_literal w.value v || has_enum_value ws v

  abbrev pub enum_allows : List EnumValue → JsValue → Bool
  enum_allows [] v = true
  enum_allows (w ∷ ws) v = has_enum_value (w ∷ ws) v

  unfoldable pub units_meet : (ℕ → Bool) → JsValue → Bool
  units_meet p (JsValue.text s) = p (h.units s)
  units_meet p v = true

  unfoldable pub has_format : String → JsValue → Bool
  unfolding text_meets
  has_format name v = elim (lookup name format_regexes) [
    | none ↦ true
    | some pattern ↦
        pattern == ""
        || text_meets (h.test pattern (elim (lookup name format_flags) [ none ↦ "" | some f ↦ f ]))
            v
  ]

  unfoldable pub meets : Constraints → JsValue → Bool
  unfolding number_meets text_meets units_meet has_format
  meets c v =
      allows c.minimum (λ x. number_meets (λ w. h.at_least w x) v)
      && (allows c.maximum (λ x. number_meets (λ w. h.at_most w x) v)
          && (allows c.exclusive_minimum (λ x. number_meets (λ w. h.above w x) v)
              && (allows c.exclusive_maximum (λ x. number_meets (λ w. h.below w x) v)
                  && (allows c.min_length (λ n. units_meet (λ l. reaches l n) v)
                      && (allows c.max_length (λ n. units_meet (λ l. within l n) v)
                          && (allows c.pattern (λ p. text_meets (h.test p "") v)
                              && allows c.format (λ name. has_format name v)))))))

  -- A property of a record: `fits` tests the value of it against its type.
  unfoldable pub has_property : PropertyFacts → Bool → (JsValue → Bool) → JsValue → Bool
  unfolding property_of meets
  has_property p optional fits v =
      let w = property_of h v p.name in
      let present =
        if p.required && not optional
        then not (is_undefined w) && fits w
        else if p.exact_optional
        then not (or_false (has_key h v p.name)) || fits w
        else is_undefined w || fits w in
      present && allows p.constraints (λ c. meets c w)

  unfoldable pub nullish_or : Facts → (JsValue → Bool) → JsValue → Bool
  nullish_or f p v = (f.nullable && is_null v) || ((f.optional && is_undefined v) || p v)

  -- A kind of type, over what holds of the parts.
  unfoldable pub has_kind :
      (String → JsValue → Bool)
      → Kind
      → Facts
      → (properties : Bool) (element : Option (JsValue → Bool)) (elements any_member each : Bool)
      → JsValue
      → Bool
  unfolding has_atomic has_literal has_native has_enum_value is_record
  has_kind decide Kind.atomic f ps el els any_member each v = has_atomic f v
  has_kind decide Kind.literal f ps el els any_member each v = has_literal f.literal_value v
  has_kind decide Kind.object f ps el els any_member each v = is_record v && ps
  has_kind decide Kind.array f ps el els any_member each v = array_of el v
  has_kind decide Kind.tuple f ps el els any_member each v = is_array v && els
  has_kind decide Kind.union f ps el els any_member each v = any_member
  has_kind decide Kind.ref f ps el els any_member each v = decide f.ref v
  has_kind decide Kind.enum f ps el els any_member each v = enum_allows f.enum_values v
  has_kind decide Kind.native f ps el els any_member each v = has_native f.native_type v
  has_kind decide Kind.never f ps el els any_member each v = false
  has_kind decide Kind.void f ps el els any_member each v = is_undefined v
  has_kind decide Kind.intersection f ps el els any_member each v = each
  has_kind decide Kind.any f ps el els any_member each v = true
  has_kind decide Kind.unknown f ps el els any_member each v = true
  has_kind decide Kind.unset f ps el els any_member each v = true

  module _ (decide : String → JsValue → Bool) where
    unfoldable mutual
      unfolding has_kind has_property nullish_or all_items element_of is_shorter

      -- The type but for its null and undefined.
      pub has_shape : Metadata → JsValue → Bool
      has_shape (Metadata.metadata f ps el els us is ts ix) v =
          has_kind decide f.kind f (has_properties ps v) (element_type el) (has_elements 0 els v)
            (some_member us v) (every_member is v) v

      pub has_properties : Properties → JsValue → Bool
      has_properties Properties.no_property v = true
      has_properties (Properties.property p m more) v =
          has_property p (facts m).optional (nullish_or (facts m) (has_shape m)) v
          && has_properties more v

      pub element_type : Pointer → Option (JsValue → Bool)
      element_type Pointer.null = none
      element_type (Pointer.to m) = some (nullish_or (facts m) (has_shape m))

      pub has_elements : ℕ → Elements → JsValue → Bool
      has_elements i Elements.no_element v = true
      has_elements i (Elements.element optional rest label m more) v =
          element_fits optional rest (is_shorter v i)
            (nullish_or (facts m) (has_shape m) (element_of v i)) (has_elements (i + 1) more v)

      pub some_member : Members → JsValue → Bool
      some_member Members.no_member v = false
      some_member (Members.member m more) v =
          nullish_or (facts m) (has_shape m) v || some_member more v

      pub every_member : Members → JsValue → Bool
      every_member Members.no_member v = true
      every_member (Members.member m more) v =
          nullish_or (facts m) (has_shape m) v && every_member more v

    -- The value has the type.
    unfoldable pub matches : Metadata → JsValue → Bool
    unfolding has_shape
    matches m v = nullish_or (facts m) (has_shape m) v

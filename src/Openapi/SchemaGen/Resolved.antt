-- ===== src/Openapi/SchemaGen/Resolved.antt =====
-- Schemas of internal/openapi/schema.go whose references all name a component.
use tsgonest.Common.{String, ◌≡◌, ◌∙◌, ◌⊎◌, inl, inr, true, List, [], ◌∷◌}
use tsgonest.Common.Lists.{All, All-mono}
use tsgonest.Common.Maps.{Map, has, Values, insert, Values-insert, has-insert_mono}
use tsgonest.Openapi.Schema.{
  Keywords, Schema, schema, Fields, no_field, field, Pointer, null, to, Schemas, no_schema, cons,
  SchemaOrBool, absent, is_schema, is_bool, keywords, with_keywords, ref_path, schemas_of,
  fields_of,
}
use tsgonest.Openapi.SchemaGen.Action.{Gen}

-- A schema is a reference to a known name, with no type beside it, or no reference.
abbrev pub RefResolved : (String → Type 0) → Keywords → Type 0
RefResolved P k =
    (k.ref ≡ "") ⊎ ((name : String) × (k.ref ≡ ref_path name) × (k.type ≡ "") × P name)

-- So are all schemas inside.
unfoldable mutual
  pub Resolved : (String → Type 0) → Schema → Type 0
  Resolved P (schema k fs it pre an on al extra cs) =
      RefResolved P k
      × FieldsResolved P fs
      × PointerResolved P it
      × SchemasResolved P pre
      × SchemasResolved P an
      × SchemasResolved P on
      × SchemasResolved P al
      × ExtraResolved P extra
      × PointerResolved P cs

  pub FieldsResolved : (String → Type 0) → Fields → Type 0
  FieldsResolved P no_field = Unit
  FieldsResolved P (field name s fs) = Resolved P s × FieldsResolved P fs

  pub PointerResolved : (String → Type 0) → Pointer → Type 0
  PointerResolved P null = Unit
  PointerResolved P (to s) = Resolved P s

  pub SchemasResolved : (String → Type 0) → Schemas → Type 0
  SchemasResolved P no_schema = Unit
  SchemasResolved P (cons s ss) = Resolved P s × SchemasResolved P ss

  pub ExtraResolved : (String → Type 0) → SchemaOrBool → Type 0
  ExtraResolved P absent = Unit
  ExtraResolved P (is_schema s) = Resolved P s
  ExtraResolved P (is_bool b) = Unit

RefResolved-mono :
    {P Q : String → Type 0} (f : (n : String) → P n → Q n) (k : Keywords)
    → RefResolved P k
    → RefResolved Q k
RefResolved-mono f k (inl e) = inl e
RefResolved-mono f k (inr (n, e, t, p)) = inr (n, e, t, f n p)

module _ (P Q : String → Type 0) (f : (n : String) → P n → Q n) where
  mutual
    unfolding Resolved

    mono : (s : Schema) → Resolved P s → Resolved Q s
    mono (schema k fs it pre an on al extra cs) (r, a, b, c, d, e, g, h, i) = (
      RefResolved-mono f k r,
      mono_fields fs a,
      mono_pointer it b,
      mono_schemas pre c,
      mono_schemas an d,
      mono_schemas on e,
      mono_schemas al g,
      mono_extra extra h,
      mono_pointer cs i,
    )

    mono_fields : (fs : Fields) → FieldsResolved P fs → FieldsResolved Q fs
    mono_fields no_field h = tt
    mono_fields (field name s fs) (p, h) = (mono s p, mono_fields fs h)

    mono_pointer : (p : Pointer) → PointerResolved P p → PointerResolved Q p
    mono_pointer null h = tt
    mono_pointer (to s) h = mono s h

    mono_schemas : (ss : Schemas) → SchemasResolved P ss → SchemasResolved Q ss
    mono_schemas no_schema h = tt
    mono_schemas (cons s ss) (p, h) = (mono s p, mono_schemas ss h)

    mono_extra : (e : SchemaOrBool) → ExtraResolved P e → ExtraResolved Q e
    mono_extra absent h = tt
    mono_extra (is_schema s) h = mono s h
    mono_extra (is_bool b) h = tt

  pub Resolved-mono : (s : Schema) → Resolved P s → Resolved Q s
  Resolved-mono s h = mono s h

pub schemas_of-SchemasResolved :
    (P : String → Type 0) (ss : List Schema)
    → All (Resolved P) ss
    → SchemasResolved P (schemas_of ss)
unfolding Resolved
schemas_of-SchemasResolved P [] h = tt
schemas_of-SchemasResolved P (s ∷ ss) (p, h) = (p, schemas_of-SchemasResolved P ss h)

pub fields_of-FieldsResolved :
    (P : String → Type 0) (fs : Map Schema)
    → Values (Resolved P) fs
    → FieldsResolved P (fields_of fs)
unfolding Resolved
fields_of-FieldsResolved P [] h = tt
fields_of-FieldsResolved P ((n, s) ∷ fs) (p, h) = (p, fields_of-FieldsResolved P fs h)

RefResolved-same :
    (P : String → Type 0) (k k' : Keywords)
    → k'.ref ≡ k.ref
    → k'.type ≡ k.type
    → RefResolved P k
    → RefResolved P k'
RefResolved-same P k k' er et (inl e) = inl (er ∙ e)
RefResolved-same P k k' er et (inr (n, e, t, p)) = inr (n, er ∙ e, et ∙ t, p)

-- Other keywords may be written as long as the reference and the type stay.
pub Resolved-with_keywords :
    (P : String → Type 0) (s : Schema) (k : Keywords)
    → k.ref ≡ (keywords s).ref
    → k.type ≡ (keywords s).type
    → Resolved P s
    → Resolved P (with_keywords s k)
unfolding Resolved
Resolved-with_keywords P (schema k₀ fs it pre an on al extra cs) k er et
      (r, a, b, c, d, e, g, h, i) =
    (RefResolved-same P k₀ k er et r, a, b, c, d, e, g, h, i)

-- A name of the components.
abbrev pub Has : Gen → String → Type 0
Has g n = has n g ≡ true

-- The components refer to one another only.
abbrev pub Closed : Gen → Type 0
Closed g = Values (Resolved (Has g)) g

abbrev pub Grows : Gen → Gen → Type 0
Grows g g' = (n : String) → Has g n → Has g' n

pub Grows-insert : (name : String) (s : Schema) (g : Gen) → Grows g (insert name s g)
Grows-insert name s g n h = has-insert_mono name n s g h

pub Closed-insert :
    (name : String) (s : Schema) (g : Gen)
    → Resolved (Has (insert name s g)) s
    → Closed g
    → Closed (insert name s g)
Closed-insert name s g h c =
    Values-insert (Resolved (Has (insert name s g))) name s g h (
      All-mono g (λ e. Resolved-mono (Has g) (Has (insert name s g)) (Grows-insert name s g) e.1) c)

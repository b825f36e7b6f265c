-- ===== src/Openapi/SchemaGen/Known.antt =====
-- Which metadata the schema generator can resolve: every reference in it is registered, and the
-- component names that references ask for are among `names`.
use tsgonest.Common.{String, ◌≡◌, ◌⊎◌, true, List}
use tsgonest.Common.Maps.{has}
use tsgonest.Metadata.{
  Kind, Facts, Metadata, metadata, Properties, no_property, property, Pointer, null, to, Elements,
  no_element, element, Members, no_member, member, Index, no_index, index, TypeRegistry,
}
use tsgonest.Openapi.SchemaGen.Convert.{schema_name}
use tsgonest.Openapi.SchemaGen.Names.{contains}

module _ (registry : TypeRegistry) (names : List String) where
  abbrev pub RefKnown : Kind → Facts → Type 0
  RefKnown Kind.ref f =
      (f.ref ≡ "") ⊎ ((has f.ref registry ≡ true) × (contains (schema_name f) names ≡ true))
  RefKnown _ f = Unit

  unfoldable mutual
    pub Known : Metadata → Type 0
    Known (metadata f ps el els us is ts ix) =
        RefKnown f.kind f
        × PropertiesKnown ps
        × PointerKnown el
        × ElementsKnown els
        × MembersKnown us
        × MembersKnown is
        × MembersKnown ts
        × IndexKnown ix

    pub PropertiesKnown : Properties → Type 0
    PropertiesKnown no_property = Unit
    PropertiesKnown (property p m ps) = Known m × PropertiesKnown ps

    pub PointerKnown : Pointer → Type 0
    PointerKnown null = Unit
    PointerKnown (to m) = Known m

    pub ElementsKnown : Elements → Type 0
    ElementsKnown no_element = Unit
    ElementsKnown (element _ _ _ m es) = Known m × ElementsKnown es

    pub MembersKnown : Members → Type 0
    MembersKnown no_member = Unit
    MembersKnown (member m ms) = Known m × MembersKnown ms

    -- The key type of an index signature is never converted.
    pub IndexKnown : Index → Type 0
    IndexKnown no_index = Unit
    IndexKnown (index _ m) = Known m

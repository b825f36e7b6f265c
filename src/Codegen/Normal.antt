-- ===== src/Codegen/Normal.antt =====
-- The form in which the analyzer hands types to internal/codegen: literals have values, the members
-- of a union or an intersection carry no null or undefined of their own, and the mapping of a
-- discriminated union names each member by the text of its discriminant property.
use tsgonest.Common.{ℕ, ◌+◌, String, Bool, true, false, Option, none, some, ◌≡◌}
use tsgonest.Common.Lists.{All}
use tsgonest.Common.Maps.{lookup, Distinct}
use tsgonest.Metadata.{
  Metadata, Facts, Kind, facts, Properties, Pointer, Elements, Members, Discriminant, pos, Value,
  TypeRegistry,
}
use tsgonest.Codegen.JsValue.{JsValue, Host}
use tsgonest.Codegen.Matches.{is_record, property_of, has_shape, matches}

abbrev pub writable : Value → Bool
writable Value.nil = false
writable w = true

abbrev pub IsPlain : Facts → Type 0
IsPlain f = (f.nullable ≡ false) × (f.optional ≡ false)

module _ (h : Host) (decide : String → JsValue → Bool) where
  -- Values of the member are records whose discriminant is the text.
  abbrev pub IsTag : Discriminant → ℕ → Metadata → Type 0
  IsTag d i m =
      (k : String) × (lookup k d.mapping ≡ some (pos i))
      × ((v : JsValue)
          → has_shape h decide m v ≡ true
          → (is_record v ≡ true) × (property_of h v d.property ≡ JsValue.text k))

  abbrev pub AreTags : Discriminant → ℕ → Members → Type 0
  AreTags d i Members.no_member = Unit
  AreTags d i (Members.member m more) = IsTag d i m × AreTags d (i + 1) more

  abbrev pub IsTagged : Option Discriminant → Members → Type 0
  IsTagged none us = Unit
  IsTagged (some d) us = Distinct d.mapping × AreTags d 0 us

  abbrev pub IsKindNormal : Kind → Facts → Members → Type 0
  IsKindNormal Kind.literal f us = writable f.literal_value ≡ true
  IsKindNormal Kind.enum f us = All (λ e. writable e.value ≡ true) f.enum_values
  IsKindNormal Kind.union f us = IsTagged f.discriminant us
  IsKindNormal k f us = Unit

  unfoldable mutual
    pub IsNormal : Metadata → Type 0
    IsNormal (Metadata.metadata f ps el els us is ts ix) =
        IsKindNormal f.kind f us
        × AreNormal ps
        × IsNormalPointer el
        × AreNormalElements els
        × AreNormalMembers us
        × AreNormalMembers is

    pub AreNormal : Properties → Type 0
    AreNormal Properties.no_property = Unit
    AreNormal (Properties.property p m more) = IsNormal m × AreNormal more

    pub IsNormalPointer : Pointer → Type 0
    IsNormalPointer Pointer.null = Unit
    IsNormalPointer (Pointer.to m) = IsNormal m

    pub AreNormalElements : Elements → Type 0
    AreNormalElements Elements.no_element = Unit
    AreNormalElements (Elements.element optional rest label m more) =
        IsNormal m × AreNormalElements more

    pub AreNormalMembers : Members → Type 0
    AreNormalMembers Members.no_member = Unit
    AreNormalMembers (Members.member m more) =
        IsPlain (facts m) × IsNormal m × AreNormalMembers more

  -- Each type of the registry is normal, and `decide` says of its name what the type says.
  abbrev pub AreDecided : TypeRegistry → Type 0
  AreDecided types =
      (name : String) (m : Metadata)
      → lookup name types ≡ some m
      → IsNormal m × ((v : JsValue) → decide name v ≡ matches h decide m v)

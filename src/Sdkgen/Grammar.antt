-- ===== src/Sdkgen/Grammar.antt =====
-- What TypeScript reads in the texts of internal/sdkgen/schema2ts.go: its types, and the part of its
-- grammar that the texts use. `[]` binds tighter than `&`, and `&` tighter than `|`; a union of unions
-- is one union, so a member of a union may be a union.
use tsgonest.Common.{String, Bool, true, false, Option, some, ◌≡◌, List, [], ◌∷◌}
use tsgonest.Common.Texts.{◌<>◌, join}
use tsgonest.Metadata.{Float64, Value}
use tsgonest.Sdkgen.Literals.{Mode, read, codes, read_key, is_identifier}

mutual
  pub data TsType : Type 0 where
    named : String → TsType
    literal : Value → TsType
    union intersection : TsTypes → TsType
    list_of : TsType → TsType
    record_of : TsType → TsType
    object : TsFields → TsType

  pub data TsTypes : Type 0 where
    no_type : TsTypes
    type_and : TsType → TsTypes → TsTypes

  pub data TsFields : Type 0 where
    no_member : TsFields
    member : String → Bool → TsType → TsFields → TsFields

-- How tightly a text binds: behind it may stand `[]`, or at most `&`, or at most `|`.
pub data Level : Type 0 where
  primary wide : Level

-- `numeral` is the number that a text is read as.
module _ (numeral : String → Option Float64) where
  mutual
    -- A text, at its level, stands for the type.
    pub data Reads : Level → String → TsType → Type 0 where
      a_name : (s : String) → is_identifier s ≡ true → Reads primary s (named s)
      text_literal :
          (w s : String)
          → read Mode.plain (w <> "\"") ≡ some (codes s, "")
          → Reads primary ("\"" <> w <> "\"") (literal (Value.text s))
      number_literal :
          (w : String) (x : Float64)
          → numeral w ≡ some x
          → Reads primary w (literal (Value.number x))
      true_literal : Reads primary "true" (literal (Value.boolean true))
      false_literal : Reads primary "false" (literal (Value.boolean false))
      null_literal : Reads primary "null" (literal Value.nil)
      group : {s : String} {t : TsType} → Reads wide s t → Reads primary ("(" <> s <> ")") t
      list : {s : String} {t : TsType} → Reads primary s t → Reads primary (s <> "[]") (list_of t)
      record_type :
          {s : String} {t : TsType}
          → Reads wide s t
          → Reads primary ("Record<string, " <> s <> ">") (record_of t)
      inline_object :
          {ss : List String} {fs : TsFields}
          → ReadsFields ss fs
          → Reads primary ("{ " <> join "; " ss <> " }") (object fs)
      loosely : {s : String} {t : TsType} → Reads primary s t → Reads wide s t
      either :
          {ss : List String} {ts : TsTypes}
          → ReadsAll wide ss ts
          → Reads wide (join " | " ss) (union ts)
      both :
          {ss : List String} {ts : TsTypes}
          → ReadsAll primary ss ts
          → Reads wide (join " & " ss) (intersection ts)

    pub data ReadsAll : Level → List String → TsTypes → Type 0 where
      none_left : {l : Level} → ReadsAll l [] no_type
      and_reads :
          {l : Level} {s : String} {t : TsType} {ss : List String} {ts : TsTypes}
          → Reads l s t
          → ReadsAll l ss ts
          → ReadsAll l (s ∷ ss) (type_and t ts)

    pub data ReadsFields : List String → TsFields → Type 0 where
      no_more : ReadsFields [] no_member
      required_field :
          {s : String} {t : TsType} {ss : List String} {fs : TsFields} (w key : String)
          → read_key w ≡ some (codes key)
          → Reads wide s t
          → ReadsFields ss fs
          → ReadsFields ((w <> ": " <> s) ∷ ss) (member key true t fs)
      optional_field :
          {s : String} {t : TsType} {ss : List String} {fs : TsFields} (w key : String)
          → read_key w ≡ some (codes key)
          → Reads wide s t
          → ReadsFields ss fs
          → ReadsFields ((w <> "?: " <> s) ∷ ss) (member key false t fs)

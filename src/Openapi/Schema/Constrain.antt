-- ===== src/Openapi/Schema/Constrain.antt =====
-- internal/openapi/schema.go, applyConstraints: the constraints of a type written into its schema.
use Prim.Native.Char.{code}
use Prim.Native.String
use tsgonest.Common.{ℕ, String, Bool, ◌||◌, Option, none, some, nat_eq, if◌then◌else◌}
use tsgonest.Metadata.{Constraints, Value}
use tsgonest.Openapi.Schema.{Schema, Keywords, keywords, with_keywords}

-- `if c.X != nil { schema.X = c.X }`.
abbrev or_else {ℓ} : {A : Type ℓ} → Option A → Option A → Option A
or_else none old = old
or_else (some a) old = some a

-- `if c.X != nil { schema.X = *c.X }`.
abbrev given {ℓ} : {A : Type ℓ} → Option A → A → A
given none old = old
given (some a) old = a

abbrev given_text : Option String → Value → Value
given_text none old = old
given_text (some s) old = Value.text s

-- `regexp.QuoteMeta` of the standard library: a backslash before each of \.+*?()|[]{}^$
is_special : ℕ → Bool
is_special c =
    nat_eq c 0x5c
    || nat_eq c 0x2e
    || nat_eq c 0x2b
    || nat_eq c 0x2a
    || nat_eq c 0x3f
    || nat_eq c 0x28
    || nat_eq c 0x29
    || nat_eq c 0x7c
    || nat_eq c 0x5b
    || nat_eq c 0x5d
    || nat_eq c 0x7b
    || nat_eq c 0x7d
    || nat_eq c 0x5e
    || nat_eq c 0x24

unfoldable pub quote_meta : String → String
unfolding is_special
quote_meta String.[] = ""
quote_meta (String.◌∷◌ c s) =
    if is_special (code c)
    then String.◌++◌ "\\" (String.◌∷◌ c (quote_meta s))
    else String.◌∷◌ c (quote_meta s)

-- The field Pattern: @pattern, else startsWith, else endsWith, else what it was.
pattern_for : (pattern starts ends : Option String) → String → String
pattern_for (some p) starts ends old = p
pattern_for none (some s) ends old = String.◌++◌ "^" (quote_meta s)
pattern_for none none (some e) old = String.◌++◌ (quote_meta e) "$"
pattern_for none none none old = old

unfoldable pub constrain : Constraints → Keywords → Keywords
unfolding pattern_for
constrain c k = record k {
  minimum = or_else c.minimum k.minimum;
  maximum = or_else c.maximum k.maximum;
  exclusive_minimum = or_else c.exclusive_minimum k.exclusive_minimum;
  exclusive_maximum = or_else c.exclusive_maximum k.exclusive_maximum;
  multiple_of = or_else c.multiple_of k.multiple_of;
  min_length = or_else c.min_length k.min_length;
  max_length = or_else c.max_length k.max_length;
  pattern = pattern_for c.pattern c.starts_with c.ends_with k.pattern;
  format = given c.format k.format;
  min_items = or_else c.min_items k.min_items;
  max_items = or_else c.max_items k.max_items;
  unique_items = or_else c.unique_items k.unique_items;
  default = given_text c.default k.default;
  content_media_type = given c.content_media_type k.content_media_type;
}

-- `applyConstraints`, with the nil test that stands before each of its calls.
unfoldable pub apply_constraints : Option Constraints → Schema → Schema
apply_constraints none s = s
apply_constraints (some c) s = with_keywords s (constrain c (keywords s))

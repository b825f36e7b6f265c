-- ===== src/Sdkgen/Keys.antt =====
-- internal/sdkgen/schema2ts.go: property names as keys and accesses of the generated TypeScript.
use Prim.Native.Char.{Char, code}
use Prim.Native.String.{String, [], ◌∷◌}
use tsgonest.Common.{ℕ, ◌/◌, ◌%◌, Bool, true, false, ◌&&◌, ◌||◌, nat_eq, leb, ltb, if◌then◌else◌}
use tsgonest.Common.Texts.{◌<>◌}

abbrev pub is_letter : ℕ → Bool
is_letter r =
    ((leb b'a' r && leb r b'z') || (leb b'A' r && leb r b'Z')) || (nat_eq r b'_' || nat_eq r b'$')

abbrev pub is_word : ℕ → Bool
is_word r = is_letter r || (leb b'0' r && leb r b'9')

unfoldable pub all_words : String → Bool
all_words [] = true
all_words (c ∷ s) = is_word (code c) && all_words s

-- `isJSIdentifier`.
unfoldable pub is_js_identifier : String → Bool
unfolding all_words
is_js_identifier [] = false
is_js_identifier (c ∷ s) = is_letter (code c) && all_words s

unfoldable pub hex_digit : ℕ → Char
hex_digit d =
    if nat_eq d 0
    then "0"
    else if nat_eq d 1
    then "1"
    else if nat_eq d 2
    then "2"
    else if nat_eq d 3
    then "3"
    else if nat_eq d 4
    then "4"
    else if nat_eq d 5
    then "5"
    else if nat_eq d 6
    then "6"
    else if nat_eq d 7
    then "7"
    else if nat_eq d 8
    then "8"
    else if nat_eq d 9
    then "9"
    else if nat_eq d 10
    then "a"
    else if nat_eq d 11
    then "b"
    else if nat_eq d 12
    then "c"
    else if nat_eq d 13
    then "d"
    else if nat_eq d 14
    then "e"
    else "f"

-- What the loop writes for a character, in front of what follows.
unfoldable pub escape_onto : Char → String → String
escape_onto c t =
    if nat_eq (code c) 92
    then "\\" ∷ "\\" ∷ t
    else if nat_eq (code c) 34
    then "\\" ∷ "\"" ∷ t
    else if nat_eq (code c) 10
    then "\\" ∷ "n" ∷ t
    else if nat_eq (code c) 13
    then "\\" ∷ "r" ∷ t
    else if nat_eq (code c) 9
    then "\\" ∷ "t" ∷ t
    else if ltb (code c) 32
    then "\\" ∷ "x" ∷ hex_digit (code c / 16) ∷ hex_digit (code c % 16) ∷ t
    else c ∷ t

-- `escapeJSString`.
unfoldable pub escape_js_string : String → String
unfolding escape_onto
escape_js_string [] = []
escape_js_string (c ∷ s) = escape_onto c (escape_js_string s)

abbrev pub quoted : String → String
quoted s = "\"" <> escape_js_string s <> "\""

-- `tsPropertyKey`.
unfoldable pub ts_property_key : String → String
ts_property_key name = if is_js_identifier name then name else quoted name

-- `tsPropAccess`.
unfoldable pub ts_prop_access : String → String → String
ts_prop_access accessor name =
    if is_js_identifier name then accessor <> "." <> name else accessor <> "[" <> quoted name <> "]"

-- `tsOptionalAccess`.
unfoldable pub ts_optional_access : String → String → String
ts_optional_access accessor name =
    if is_js_identifier name
    then accessor <> "?." <> name
    else accessor <> "?.[" <> quoted name <> "]"

-- ===== src/Codegen/Names.antt =====
-- internal/codegen/validate_util.go: texts that are put into generated code. `isJSIdentifier` is the
-- same function as that of internal/sdkgen.
use Prim.Native.Char.{Char, code}
use Prim.Native.String.{String, [], ◌∷◌}
use tsgonest.Common.{◌/◌, ◌%◌, Bool, true, false, ◌==◌, nat_eq, ltb, if◌then◌else◌}
use tsgonest.Common.Texts.{◌<>◌}
use tsgonest.Sdkgen.Keys.{is_js_identifier, hex_digit}

-- What the loop of `jsStringEscape` writes for a character, in front of what follows.
unfoldable pub escape_char : Char → String → String
escape_char c t =
    if nat_eq (code c) 92
    then "\\" ∷ "\\" ∷ t
    else if nat_eq (code c) 34
    then "\\" ∷ "\"" ∷ t
    else if nat_eq (code c) 10
    then "\\" ∷ "n" ∷ t
    else if nat_eq (code c) 13
    then "\\" ∷ "r" ∷ t
    else if nat_eq (code c) 9
    then "\\" ∷ "t" ∷ t
    else if nat_eq (code c) 8
    then "\\" ∷ "b" ∷ t
    else if nat_eq (code c) 12
    then "\\" ∷ "f" ∷ t
    else if nat_eq (code c) 0x2028
    then "\\" ∷ "u" ∷ "2" ∷ "0" ∷ "2" ∷ "8" ∷ t
    else if nat_eq (code c) 0x2029
    then "\\" ∷ "u" ∷ "2" ∷ "0" ∷ "2" ∷ "9" ∷ t
    else if ltb (code c) 32
    then "\\" ∷ "x" ∷ hex_digit (code c / 16) ∷ hex_digit (code c % 16) ∷ t
    else c ∷ t

-- `jsStringEscape`.
unfoldable pub js_string_escape : String → String
unfolding escape_char
js_string_escape [] = []
js_string_escape (c ∷ s) = escape_char c (js_string_escape s)

abbrev pub quote_key : String → String
quote_key name = "[\"" <> js_string_escape name <> "\"]"

-- `jsPropAccess`.
unfoldable pub js_prop_access : String → String → String
js_prop_access accessor name =
    if name == "__proto__"
    then accessor <> "[\"__proto__\"]"
    else if is_js_identifier name
    then accessor <> "." <> name
    else accessor <> quote_key name

-- `jsObjectKey`.
unfoldable pub js_object_key : String → String
js_object_key name =
    if name == "__proto__"
    then "[\"__proto__\"]"
    else if is_js_identifier name
    then name
    else "\"" <> js_string_escape name <> "\""

-- `jsPropPathSuffix`.
unfoldable pub js_prop_path_suffix : String → String
js_prop_path_suffix name =
    if name == "__proto__"
    then "[\"__proto__\"]"
    else if is_js_identifier name
    then "." <> name
    else quote_key name

-- The loop of `escapeForRegexLiteral`, by its flag `escaped`.
unfoldable pub escape_slashes : Bool → String → String
escape_slashes escaped [] = []
escape_slashes true (c ∷ s) = c ∷ escape_slashes false s
escape_slashes false (c ∷ s) =
    let kept = c ∷ escape_slashes (nat_eq (code c) 92) s in
    if nat_eq (code c) 47 then "\\" ∷ kept else kept

-- `escapeForRegexLiteral`.
unfoldable pub escape_for_regex_literal : String → String
unfolding escape_slashes
escape_for_regex_literal pattern = escape_slashes false pattern

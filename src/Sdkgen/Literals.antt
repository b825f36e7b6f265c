-- ===== src/Sdkgen/Literals.antt =====
-- internal/sdkgen/schema2ts.go, escapeJSString: what JavaScript reads in an escaped text. `read` is
-- the language's reading of the rest of a string literal in double quotes, as far as the escapes that
-- escapeJSString writes go.
use Prim.Native.Char.{Char, code}
use Prim.Native.String.{String, [], ◌∷◌}
use text.Mathlib.TextLemmas.{cons-append, nil-append}
use mathlib.Core.Path.{subst}
use mathlib.Core.Option.{some-injective}
use text.Mathlib.TextEquality.{Char-path}
use tsgonest.Common.{
  ℕ, zero, suc, ◌+◌, ◌-◌, ◌*◌, ◌/◌, ◌%◌, ◌<◌, ◌≡◌, ◌∙◌, refl, sym, ap, Bool, true, false, ◌&&◌,
  ◌||◌, Option, none, some, List, arith, inl, inr, Bool-cases, if_cases, nat_eq, leb, ltb,
  if◌then◌else◌,
}
use tsgonest.Common.Texts.{◌<>◌}
use tsgonest.Sdkgen.Keys.{
  hex_digit, escape_onto, escape_js_string, quoted, all_words, is_js_identifier, ts_property_key,
}

-- Where the reader stands: in the text, behind a backslash, behind \x, behind \x and one digit.
pub data Mode : Type 0 where
  plain escape hex_high : Mode
  hex_low : ℕ → Mode

abbrev pub Read : Type 0
Read = Option (List ℕ × String)

abbrev pub push : ℕ → Read → Read
push x none = none
push x (some (xs, rest)) = some (List.◌∷◌ x xs, rest)

abbrev pub hex_value : ℕ → Option ℕ
hex_value r =
    if leb b'0' r && leb r b'9'
    then some (r - 48)
    else if leb b'a' r && leb r b'f'
    then some (r - 87)
    else none

-- The code points of the literal, and the text behind its closing quote.
unfoldable pub read : Mode → String → Read
read Mode.plain [] = none
read Mode.escape [] = none
read Mode.hex_high [] = none
read (Mode.hex_low v) [] = none
read Mode.plain (c ∷ s) =
    let next = read Mode.plain s in
    let escaped = read Mode.escape s in
    if nat_eq (code c) 34
    then some (List.[], s)
    else if nat_eq (code c) 92
    then escaped
    else if nat_eq (code c) 10 || nat_eq (code c) 13
    then none
    else push (code c) next
read Mode.escape (c ∷ s) =
    let next = read Mode.plain s in
    let hex = read Mode.hex_high s in
    if nat_eq (code c) b'x'
    then hex
    else if nat_eq (code c) b'n'
    then push 10 next
    else if nat_eq (code c) b'r'
    then push 13 next
    else if nat_eq (code c) b't'
    then push 9 next
    else if nat_eq (code c) 34 || nat_eq (code c) 92
    then push (code c) next
    else none
read Mode.hex_high (c ∷ s) = elim (hex_value (code c)) [
  | none ↦ none
  | some v ↦ read (Mode.hex_low v) s
]
read (Mode.hex_low v) (c ∷ s) =
    let next = read Mode.plain s in
    elim (hex_value (code c)) [ none ↦ none | some w ↦ push (16 * v + w) next ]

abbrev pub codes : String → List ℕ
codes [] = List.[]
codes (c ∷ s) = List.◌∷◌ (code c) (codes s)

all_below : ℕ → (ℕ → Bool) → Bool
all_below zero test = true
all_below (suc n) test = test n && all_below n test

all_below-holds :
    (n : ℕ) (test : ℕ → Bool) (d : ℕ) → all_below n test ≡ true → d < n → test d ≡ true
unfolding all_below
all_below-holds zero test d h k = absurd (omega arith)
all_below-holds (suc n) test d h k = elim (Bool-cases (nat_eq d n)) [
  | inl e ↦
      let same : d ≡ n = ground arith in
      let last : test n ≡ true = ground arith in subst (λ m. test m ≡ true) (sym same) last
  | inr e ↦ all_below-holds n test d (ground arith) (ground arith)
]

abbrev is_this : ℕ → Option ℕ → Bool
is_this d none = false
is_this d (some v) = nat_eq v d

is_this-some : (d : ℕ) (o : Option ℕ) → is_this d o ≡ true → o ≡ some d
is_this-some d none h = absurd (ground arith)
is_this-some d (some v) h = let same : v ≡ d = ground arith in ap some same

hex_value-hex_digit : (d : ℕ) → d < 16 → hex_value (code (hex_digit d)) ≡ some d
unfolding hex_digit all_below
hex_value-hex_digit d h =
    is_this-some d _ (all_below-holds 16 (λ m. is_this m (hex_value (code (hex_digit m)))) d refl h)

append_four : (a b c d : Char) (t u : String) → (a ∷ b ∷ c ∷ d ∷ t) <> u ≡ a ∷ b ∷ c ∷ d ∷ (t <> u)
append_four a b c d t u = rw (cons-append, cons-append, cons-append, cons-append) refl

-- A backslash and one character.
read-short :
    (c e : Char) (x : ℕ) (t u : String)
    → nat_eq (code c) x ≡ true
    → read Mode.escape (e ∷ (t <> u)) ≡ push x (read Mode.plain (t <> u))
    → read Mode.plain (("\\" ∷ e ∷ t) <> u) ≡ push (code c) (read Mode.plain (t <> u))
unfolding read
read-short c e x t u h k =
    let same : x ≡ code c = ground arith in
    rw (cons-append, cons-append) (k ∙ ap (λ y. push y (read Mode.plain (t <> u))) same)

-- \x and two digits.
read-hex :
    (c : Char) (t u : String)
    → ltb (code c) 32 ≡ true
    → read Mode.plain (("\\" ∷ "x" ∷ hex_digit (code c / 16) ∷ hex_digit (code c % 16) ∷ t) <> u)
      ≡ push (code c) (read Mode.plain (t <> u))
unfolding read
read-hex c t u h =
    let spelled = append_four "\\" "x" (hex_digit (code c / 16)) (hex_digit (code c % 16)) t u in
    let high = hex_value-hex_digit (code c / 16) (ground arith) in
    let low = hex_value-hex_digit (code c % 16) (ground arith) in
    let same : 16 * (code c / 16) + code c % 16 ≡ code c = omega arith in
    ap (read Mode.plain) spelled ∙ rw (high, low) (ap (λ y. push y (read Mode.plain (t <> u))) same)

read-escape_onto :
    (c : Char) (t u : String)
    → read Mode.plain (escape_onto c t <> u) ≡ push (code c) (read Mode.plain (t <> u))
unfolding read escape_onto
read-escape_onto c t u =
    let P : String → Type 0 =
      λ x. read Mode.plain (x <> u) ≡ push (code c) (read Mode.plain (t <> u)) in
    if_cases P (nat_eq (code c) 92) _ _ (λ e. read-short c "\\" 92 t u e refl)
      (λ a.
        if_cases P (nat_eq (code c) 34) _ _ (λ e. read-short c "\"" 34 t u e refl)
          (λ b.
            if_cases P (nat_eq (code c) 10) _ _ (λ e. read-short c "n" 10 t u e refl)
              (λ d.
                if_cases P (nat_eq (code c) 13) _ _ (λ e. read-short c "r" 13 t u e refl)
                  (λ f.
                    if_cases P (nat_eq (code c) 9) _ _ (λ e. read-short c "t" 9 t u e refl)
                      (λ g.
                        if_cases P (ltb (code c) 32) _ _ (λ e. read-hex c t u e)
                          (λ e. rw (cons-append, a, b, d, f) refl))))))

-- What escapeJSString writes, between double quotes, is read as one literal that stands for the text
-- itself; the reader stops exactly at the closing quote, whatever the text holds and whatever follows.
pub read-quoted :
    (s rest : String) → read Mode.plain (escape_js_string s <> "\"" <> rest) ≡ some (codes s, rest)
unfolding read escape_js_string
read-quoted [] rest = rw (nil-append, cons-append, nil-append) refl
read-quoted (c ∷ s) rest =
    read-escape_onto c (escape_js_string s) ("\"" <> rest) ∙ rw (read-quoted s rest) refl

-- The characters below 128 that an identifier of ECMAScript may begin with, and those that it may go on
-- with, by ranges that leave out their ends.
abbrev pub between : ℕ → ℕ → ℕ → Bool
between low high r = ltb low r && ltb r high

abbrev pub begins_identifier : ℕ → Bool
begins_identifier r = between 64 91 r || between 96 123 r || between 94 96 r || between 35 37 r

abbrev pub continues_identifier : ℕ → Bool
continues_identifier r = between 47 58 r || begins_identifier r

unfoldable pub rest_of_identifier : String → Bool
rest_of_identifier [] = true
rest_of_identifier (c ∷ s) = continues_identifier (code c) && rest_of_identifier s

unfoldable pub is_identifier : String → Bool
unfolding rest_of_identifier
is_identifier [] = false
is_identifier (c ∷ s) = begins_identifier (code c) && rest_of_identifier s

-- What a property key denotes: a literal that is the whole key, or an identifier.
abbrev pub whole : Read → Option (List ℕ)
whole none = none
whole (some (xs, [])) = some xs
whole (some (xs, c ∷ rest)) = none

unfoldable pub read_key : String → Option (List ℕ)
unfolding is_identifier
read_key [] = none
read_key (c ∷ s) =
    if nat_eq (code c) 34
    then whole (read Mode.plain s)
    else if is_identifier (c ∷ s)
    then some (codes (c ∷ s))
    else none

read_key-quoted : (s : String) → read_key (quoted s) ≡ some (codes s)
unfolding read_key
read_key-quoted s = ap read_key (literal (escape_js_string s)) ∙ rw (read-quoted s "") refl
  where
    literal : (w : String) → "\"" <> w <> "\"" ≡ "\"" ∷ (w <> "\"")
    literal w = rw (cons-append, nil-append) refl

rest_of_identifier-all_words : (s : String) → all_words s ≡ true → rest_of_identifier s ≡ true
unfolding all_words rest_of_identifier
rest_of_identifier-all_words [] h = refl
rest_of_identifier-all_words (c ∷ s) h =
    let tail = rest_of_identifier-all_words s (ground (arith, h)) in ground (arith, h, tail)

pub is_identifier-is_js_identifier :
    (s : String) → is_js_identifier s ≡ true → is_identifier s ≡ true
unfolding is_js_identifier is_identifier
is_identifier-is_js_identifier [] h = absurd (ground (arith, h))
is_identifier-is_js_identifier (c ∷ s) h =
    let tail = rest_of_identifier-all_words s (ground (arith, h)) in ground (arith, h, tail)

read_key-identifier :
    (name : String) → is_js_identifier name ≡ true → read_key name ≡ some (codes name)
unfolding read_key is_js_identifier
read_key-identifier [] h = absurd (ground arith)
read_key-identifier (c ∷ s) h =
    let no_quote : nat_eq (code c) 34 ≡ false = ground arith in
    let name = is_identifier-is_js_identifier (c ∷ s) h in rw (no_quote, name) refl

-- Whatever characters a property name has, the key that tsPropertyKey writes denotes that name.
pub read_key-ts_property_key : (name : String) → read_key (ts_property_key name) ≡ some (codes name)
unfolding ts_property_key
read_key-ts_property_key name =
    if_cases (λ key. read_key key ≡ some (codes name)) (is_js_identifier name) _ _
      (read_key-identifier name) (λ _. read_key-quoted name)

codes-injective : (s t : String) → codes s ≡ codes t → s ≡ t
codes-injective [] [] h = refl
codes-injective [] (d ∷ t) h = absurd (ground arith)
codes-injective (c ∷ s) [] h = absurd (ground arith)
codes-injective (c ∷ s) (d ∷ t) h =
    let head : code c ≡ code d = ground arith in
    let tail : codes s ≡ codes t = ground arith in cc (Char-path c d head, codes-injective s t tail)

-- Two names with the same key are the same name.
pub ts_property_key-injective : (a b : String) → ts_property_key a ≡ ts_property_key b → a ≡ b
ts_property_key-injective a b h = codes-injective a b (
    some-injective _ _
      (sym (read_key-ts_property_key a) ∙ ap read_key h ∙ read_key-ts_property_key b))

-- ===== src/Codegen/Regexes.antt =====
-- internal/codegen/validate_util.go, escapeForRegexLiteral: what JavaScript reads of it. `literal_end`
-- is the language's lexical grammar of a regular expression literal: one line, up to the first slash
-- that no backslash stands in front of and that is in no class.
use Prim.Native.Char.{Char, code}
use Prim.Native.String.{String, [], ◌∷◌}
use text.Mathlib.TextLemmas.{cons-append, nil-append}
use mathlib.Core.Path.{subst}
use tsgonest.Common.{
  ℕ, ◌||◌, ◌∙◌, ◌≡◌, refl, ap, Bool, true, false, ◌&&◌, not, Option, none, some, arith, inl, inr,
  Bool-cases, nat_eq, if◌then◌else◌,
}
use tsgonest.Common.Texts.{◌<>◌}
use tsgonest.Codegen.Names.{escape_slashes, escape_for_regex_literal}

-- Line feed, carriage return, line separator, paragraph separator.
abbrev pub ends_line : ℕ → Bool
ends_line r = nat_eq r 10 || nat_eq r 13 || nat_eq r 8232 || nat_eq r 8233

-- Whether a class is open behind this character, which no backslash stands in front of.
abbrev pub opens_class : Bool → ℕ → Bool
opens_class true r = not (nat_eq r 93)
opens_class false r = nat_eq r 91

-- What follows the body and its slash. The flags say that a class is open, and that a backslash
-- stands in front.
unfoldable pub body_end : (in_class escaped : Bool) → String → Option String
body_end in_class escaped [] = none
body_end in_class true (c ∷ s) =
    let rest = body_end in_class false s in if ends_line (code c) then none else rest
body_end in_class false (c ∷ s) =
    let escape = body_end in_class true s in
    let rest = body_end (opens_class in_class (code c)) false s in
    if ends_line (code c)
    then none
    else if nat_eq (code c) 92
    then escape
    else if nat_eq (code c) 47 && not in_class
    then some s
    else rest

-- What follows the literal whose first slash stands in front: a slash or a star would make a comment.
unfoldable pub literal_end : String → Option String
unfolding body_end
literal_end [] = none
literal_end (c ∷ s) =
    if nat_eq (code c) 47 || nat_eq (code c) 42 then none else body_end false false (c ∷ s)

-- One line, in which each backslash has a character behind it and each class is closed.
unfoldable pub is_closed : (in_class escaped : Bool) → String → Bool
is_closed in_class escaped [] = not in_class && not escaped
is_closed in_class true (c ∷ s) = not (ends_line (code c)) && is_closed in_class false s
is_closed in_class false (c ∷ s) =
    let escape = is_closed in_class true s in
    let rest = is_closed (opens_class in_class (code c)) false s in
    not (ends_line (code c)) && (if nat_eq (code c) 92 then escape else rest)

-- Such a pattern that is not empty and does not begin with a star.
unfoldable pub is_pattern : String → Bool
unfolding is_closed
is_pattern [] = false
is_pattern (c ∷ s) = not (nat_eq (code c) 42) && is_closed false false (c ∷ s)

slash_end : (rest : String) → body_end false false ("/" <> rest) ≡ some rest
unfolding body_end
slash_end rest = rw (cons-append, nil-append) refl

slash_class : (in_class : Bool) (r : ℕ) → nat_eq r 47 ≡ true → opens_class in_class r ≡ in_class
slash_class true r e = ground (arith, e)
slash_class false r e = ground (arith, e)

body_end-slashes :
    (in_class escaped : Bool) (p rest : String)
    → is_closed in_class escaped p ≡ true
    → body_end in_class escaped (escape_slashes escaped p <> "/" <> rest) ≡ some rest
unfolding body_end escape_slashes is_closed
body_end-slashes true true [] rest e = absurd (ground (arith, e))
body_end-slashes true false [] rest e = absurd (ground (arith, e))
body_end-slashes false true [] rest e = absurd (ground (arith, e))
body_end-slashes false false [] rest e = rw nil-append (slash_end rest)
body_end-slashes in_class true (c ∷ p) rest e =
    let line : ends_line (code c) ≡ false = ground (arith, e) in
    let more : is_closed in_class false p ≡ true = ground (arith, e) in
    rw (cons-append, line) (body_end-slashes in_class false p rest more)
body_end-slashes in_class false (c ∷ p) rest e =
    let line : ends_line (code c) ≡ false = ground (arith, e) in
    elim (Bool-cases (nat_eq (code c) 92)) [
      | inl b ↦
          let slash : nat_eq (code c) 47 ≡ false = ground (arith, b) in
          let more : is_closed in_class true p ≡ true = ground (arith, e, b) in
          rw (slash, cons-append, line, b) (body_end-slashes in_class true p rest more)
      | inr b ↦
          let more : is_closed (opens_class in_class (code c)) false p ≡ true =
            ground (arith, e, b) in
          elim (Bool-cases (nat_eq (code c) 47)) [
            | inl s ↦
                let same : opens_class in_class (code c) ≡ in_class =
                  slash_class in_class (code c) s in
                let more' = subst (λ k. is_closed k false p ≡ true) same more in
                rw (s, b, cons-append, cons-append, line)
                  (body_end-slashes in_class false p rest more')
            | inr s ↦
                rw (s, b, cons-append, line, s, b)
                  (body_end-slashes (opens_class in_class (code c)) false p rest more)
          ]
    ]

-- What does not begin with a slash or a star is read as a literal.
literal_end-first :
    (c : Char) (s : String)
    → (nat_eq (code c) 47 || nat_eq (code c) 42) ≡ false
    → literal_end (c ∷ s) ≡ body_end false false (c ∷ s)
unfolding literal_end
literal_end-first c s e = rw e refl

-- A pattern that is one line, in which each backslash has a character behind it and each class is
-- closed, and which is not empty and does not begin with a star, is read, when it is escaped and
-- written between slashes, up to the closing slash and no further, whatever slashes it holds.
pub literal_end-escape_for_regex_literal :
    (p rest : String)
    → is_pattern p ≡ true
    → literal_end (escape_for_regex_literal p <> "/" <> rest) ≡ some rest
unfolding escape_for_regex_literal escape_slashes is_pattern
literal_end-escape_for_regex_literal [] rest e = absurd (ground (arith, e))
literal_end-escape_for_regex_literal (c ∷ p) rest e =
    let star : nat_eq (code c) 42 ≡ false = ground (arith, e) in
    let closed : is_closed false false (c ∷ p) ≡ true = ground (arith, e) in
    let whole = body_end-slashes false false (c ∷ p) rest closed in
    let tail = escape_slashes (nat_eq (code c) 92) p in
    elim (Bool-cases (nat_eq (code c) 47)) [
      | inl s ↦
          rw (s, cons-append)
            (literal_end-first "\\" ((c ∷ tail) <> "/" <> rest) refl
              ∙ (rw (s, cons-append) at whole))
      | inr s ↦
          rw (s, cons-append)
            (literal_end-first c (tail <> "/" <> rest) (ground (arith, s, star))
              ∙ (rw (s, cons-append) at whole))
    ]

escape_slashes_twice :
    (escaped : Bool) (p : String)
    → escape_slashes escaped (escape_slashes escaped p) ≡ escape_slashes escaped p
unfolding escape_slashes
escape_slashes_twice escaped [] = refl
escape_slashes_twice true (c ∷ p) = ap (λ s. c ∷ s) (escape_slashes_twice false p)
escape_slashes_twice false (c ∷ p) =
    let rec = escape_slashes_twice (nat_eq (code c) 92) p in
    elim (Bool-cases (nat_eq (code c) 47)) [
      | inl s ↦
          let other : nat_eq (code c) 92 ≡ false = ground (arith, s) in
          rw (s, other) (ap (λ t. "\\" ∷ c ∷ t) (rw other at rec))
      | inr s ↦ rw (s, s) (ap (λ t. c ∷ t) rec)
    ]

-- Escaping twice is escaping once: slashes that are escaped already are left alone.
pub escape_for_regex_literal_idem :
    (p : String)
    → escape_for_regex_literal (escape_for_regex_literal p) ≡ escape_for_regex_literal p
unfolding escape_for_regex_literal
escape_for_regex_literal_idem p = escape_slashes_twice false p

-- ===== src/Sdkgen/Comments.antt =====
-- internal/sdkgen/schema2ts.go: where TypeScript ends a JSDoc comment.
use Prim.Native.Char.{code}
use package.text.Mathlib.TextLemmas.{append_assoc, cons-append, nil-append}
use tsgonest.Common.{
  String, Bool, true, false, ◌&&◌, Option, none, some, List, [], ◌∷◌, ◌≡◌, ◌==◌, ◌∙◌, refl, sym, ap,
  arith, inl, inr, nat_eq, if◌then◌else◌,
}
use tsgonest.Common.Tests.{Bool-cases}
use tsgonest.Common.Lists.{All}
use tsgonest.Common.Texts.{◌<>◌, split}
use tsgonest.Sdkgen.Interfaces.{
  trim_space, comment_line, comment_lines, comment_of, build_schema_js_doc, build_property_js_doc,
}

-- The text behind the first `*/`; the flag says that a star stands in front.
unfoldable pub comment_end : Bool → String → Option String
comment_end star String.[] = none
comment_end star (String.◌∷◌ c s) =
    let rest = comment_end (nat_eq (code c) 42) s in
    if star && nat_eq (code c) 47 then some s else rest

-- Whether a text has `*/`, and whether it ends in a star.
unfoldable pub star_scan : Bool → String → Option Bool
star_scan star String.[] = some star
star_scan star (String.◌∷◌ c s) =
    let rest = star_scan (nat_eq (code c) 42) s in if star && nat_eq (code c) 47 then none else rest

pub comment_end-append :
    (star : Bool) (s t : String) (b : Bool)
    → star_scan star s ≡ some b
    → comment_end star (s <> t) ≡ comment_end b t
unfolding comment_end star_scan
comment_end-append star String.[] t b e = rw nil-append (ground (arith, e))
comment_end-append star (String.◌∷◌ c s) t b e =
    rw cons-append (ground (arith, e, comment_end-append (nat_eq (code c) 42) s t b))

star_scan-append :
    (star : Bool) (s t : String) (b : Bool)
    → star_scan star s ≡ some b
    → star_scan star (s <> t) ≡ star_scan b t
unfolding star_scan
star_scan-append star String.[] t b e = rw nil-append (ground (arith, e))
star_scan-append star (String.◌∷◌ c s) t b e =
    rw cons-append (ground (arith, e, star_scan-append (nat_eq (code c) 42) s t b))

-- No `*/` in the text.
abbrev pub IsOpen : String → Type 0
IsOpen s = (b : Bool) × (star_scan false s ≡ some b)

scan_newline : (b : Bool) → star_scan b "\n" ≡ some false
unfolding star_scan
scan_newline true = refl
scan_newline false = refl

scan_closing : (b : Bool) → star_scan b " *" ≡ some true
unfolding star_scan
scan_closing true = refl
scan_closing false = refl

split_closing : (rest : String) → " */\n" <> rest ≡ " *" <> ("/\n" <> rest)
split_closing rest = append_assoc " *" "/\n" rest

slash_behind : (rest : String) → comment_end true ("/\n" <> rest) ≡ some ("\n" <> rest)
unfolding comment_end
slash_behind rest = rw (cons-append) refl

closing : (b : Bool) (rest : String) → comment_end b (" */\n" <> rest) ≡ some ("\n" <> rest)
closing b rest =
    ap (comment_end b) (split_closing rest)
    ∙ comment_end-append b " *" ("/\n" <> rest) true (scan_closing b)
    ∙ slash_behind rest

module _ (indent : String) (spaces : star_scan false indent ≡ some false) where
  line_scan : (l : String) → IsOpen l → star_scan false (comment_line indent l) ≡ some false
  unfolding star_scan
  line_scan l (b, e) = elim (Bool-cases (l == "")) [
    | inl y ↦ rw y (star_scan-append false indent " *\n" false spaces)
    | inr y ↦ rw y (
        star_scan-append false indent (" * " <> l <> "\n") false spaces
        ∙ star_scan-append false " * " (l <> "\n") false refl
        ∙ star_scan-append false l "\n" b e
        ∙ scan_newline b)
  ]

  lines_scan :
      (ls : List String) → All IsOpen ls → star_scan false (comment_lines indent ls) ≡ some false
  unfolding comment_lines star_scan
  lines_scan [] a = refl
  lines_scan (l ∷ ls) (p, a) =
      star_scan-append false (comment_line indent l) (comment_lines indent ls) false (line_scan l p)
      ∙ lines_scan ls a

  -- What stands behind the opening `/*`.
  one_line :
      (l rest : String)
      → IsOpen l
      → comment_end false ("* " <> (l <> (" */\n" <> rest))) ≡ some ("\n" <> rest)
  unfolding comment_end star_scan
  one_line l rest (b, e) =
      comment_end-append false "* " (l <> (" */\n" <> rest)) false refl
      ∙ comment_end-append false l (" */\n" <> rest) b e
      ∙ closing b rest

  many_lines :
      (ls : List String) (rest : String)
      → All IsOpen ls
      → comment_end false ("*\n" <> (comment_lines indent ls <> (indent <> (" */\n" <> rest))))
        ≡ some ("\n" <> rest)
  unfolding comment_end star_scan
  many_lines ls rest a =
      comment_end-append false "*\n" (comment_lines indent ls <> (indent <> (" */\n" <> rest)))
        false refl
      ∙ comment_end-append false (comment_lines indent ls) (indent <> (" */\n" <> rest)) false
          (lines_scan ls a)
      ∙ comment_end-append false indent (" */\n" <> rest) false spaces
      ∙ closing false rest

-- The text behind the comment that this text begins with, spaces aside.
unfoldable pub after_comment : String → Option String
unfolding comment_end
after_comment String.[] = none
after_comment (String.◌∷◌ c String.[]) = none
after_comment (String.◌∷◌ c (String.◌∷◌ d s)) =
    let rest = after_comment (String.◌∷◌ d s) in
    if nat_eq (code c) 32
    then rest
    else if nat_eq (code c) 47 && nat_eq (code d) 42
    then comment_end false s
    else none

opened : (t : String) → after_comment ("/*" <> t) ≡ comment_end false t
unfolding after_comment
opened t = rw (cons-append, cons-append, nil-append) refl

indented : (t : String) → after_comment ("  /*" <> t) ≡ comment_end false t
unfolding after_comment
indented t = rw (cons-append, cons-append, cons-append, cons-append, nil-append) refl

-- What stands behind `/*` in the comment, and then `rest`.
abbrev body_of : String → List String → String → String
body_of indent (l ∷ []) rest = "* " <> (l <> (" */\n" <> rest))
body_of indent ls rest = "*\n" <> (comment_lines indent ls <> (indent <> (" */\n" <> rest)))

comment_of-body_of :
    (indent : String) (ls : List String) (rest : String)
    → comment_of indent ls <> rest ≡ indent <> ("/*" <> body_of indent ls rest)
comment_of-body_of indent (l ∷ []) rest =
    rw (append_assoc, append_assoc, append_assoc)
      (ap (λ t. indent <> t) (append_assoc "/*" "* " (l <> (" */\n" <> rest))))
comment_of-body_of indent [] rest =
    rw (append_assoc, append_assoc, append_assoc, append_assoc)
      (ap (λ t. indent <> t)
        (append_assoc "/*" "*\n" (comment_lines indent [] <> (indent <> (" */\n" <> rest)))))
comment_of-body_of indent (l ∷ k ∷ ls) rest =
    rw (append_assoc, append_assoc, append_assoc, append_assoc)
      (ap (λ t. indent <> t)
        (append_assoc "/*" "*\n"
          (comment_lines indent (l ∷ k ∷ ls) <> (indent <> (" */\n" <> rest)))))

body_end :
    (indent : String) (ls : List String) (rest : String)
    → star_scan false indent ≡ some false
    → All IsOpen ls
    → comment_end false (body_of indent ls rest) ≡ some ("\n" <> rest)
body_end indent [] rest e a = many_lines indent e [] rest a
body_end indent (l ∷ []) rest e a = one_line indent e l rest a.0
body_end indent (l ∷ k ∷ ls) rest e a = many_lines indent e (l ∷ k ∷ ls) rest a

-- The comments of a schema and of a property, with any text behind them, end exactly where they are
-- closed, if no line of the trimmed description holds the end of a comment.
pub after_comment-build_schema_js_doc :
    (description rest : String)
    → All IsOpen (split 10 (trim_space description))
    → (after_comment (build_schema_js_doc description <> rest) ≡ some ("\n" <> rest))
      × (after_comment (build_property_js_doc description <> rest) ≡ some ("\n" <> rest))
unfolding build_schema_js_doc build_property_js_doc star_scan
after_comment-build_schema_js_doc description rest a =
    let ls = split 10 (trim_space description) in
    (
      ap after_comment (comment_of-body_of "" ls rest ∙ nil-append _)
          ∙ opened (body_of "" ls rest)
          ∙ body_end "" ls rest refl a,
      ap after_comment (comment_of-body_of "  " ls rest)
          ∙ ap after_comment (sym (append_assoc "  " "/*" (body_of "  " ls rest)))
          ∙ indented (body_of "  " ls rest)
          ∙ body_end "  " ls rest refl a,
    )

-- ===== src/Pathalias/Edited.antt =====
-- internal/pathalias/pathalias.go: what a line is after resolveImportLine: the searches of its loop, said by where the
-- openings and the quotes stand.
use Prim.Native.Char.{Char, code}
use text.Mathlib.TextLemmas.{cons-append, nil-append}
use tsgonest.Common.{
  ◌≤◌, String, true, false, none, some, eq_iff, ◌==◌, ◌≡◌, inl, inr, refl, sym, ap, ◌∙◌, arith,
  nat_eq,
}
use tsgonest.Common.Tests.{Bool-cases, Option-cases}
use tsgonest.Common.Texts.{◌<>◌, has_prefix, Lacks}
use tsgonest.Pathalias.{drop_text, text_length}
use tsgonest.Pathalias.Patterns.{prefix_drop, drop-empty, has_prefix-append}
use tsgonest.Pathalias.Lines.{
  cut, put_resolved, resolve_import_line, resolve_pattern, resolve_behind, resolve_to_quote,
}

-- A text is what stands around the occurrence.
cut_lem :
    (p s before behind : String) → cut p s ≡ some (before, behind) → s ≡ before <> (p <> behind)
unfolding cut
cut_lem String.[] String.[] before behind e =
    let front : before ≡ String.[] = ground (arith, e) in
    let back : behind ≡ String.[] = ground (arith, e) in
    rw (front, back, nil-append, nil-append) refl
cut_lem (String.◌∷◌ c p) String.[] before behind e = absurd (ground (arith, e))
cut_lem p (String.◌∷◌ c s) before behind e = elim (Bool-cases (has_prefix p (String.◌∷◌ c s))) [
  | inl y ↦
      let front : before ≡ String.[] = ground (arith, e, y) in
      let back : behind ≡ drop_text (text_length p) (String.◌∷◌ c s) = ground (arith, e, y) in
      rw (front, back, nil-append) (prefix_drop p (String.◌∷◌ c s) y)
  | inr y ↦ elim (Option-cases (cut p s)) [
    | inl n ↦ absurd (ground (arith, e, y, n))
    | inr ((q, t), n) ↦
        let front : before ≡ String.◌∷◌ c q = ground (arith, e, y, n) in
        let back : behind ≡ t = ground (arith, e, y, n) in
        rw (front, back)
          (ap (λ u. String.◌∷◌ c u) (cut_lem p s q t n) ∙ sym (cons-append c q (p <> t)))
  ]
]

cut_misses :
    (q : Char) (s before behind : String)
    → cut (String.◌∷◌ q String.[]) s ≡ some (before, behind)
    → Lacks (code q) before
unfolding cut has_prefix
cut_misses q String.[] before behind e = absurd (ground (arith, e))
cut_misses q (String.◌∷◌ c s) before behind e = elim (Bool-cases (nat_eq (code q) (code c))) [
  | inl y ↦ let front : before ≡ String.[] = ground (arith, e, y) in rw front tt
  | inr y ↦ elim (Option-cases (cut (String.◌∷◌ q String.[]) s)) [
    | inl n ↦ absurd (ground (arith, e, y, n))
    | inr ((p, t), n) ↦
        let front : before ≡ String.◌∷◌ c p = ground (arith, e, y, n) in
        let other : nat_eq (code c) (code q) ≡ false = ground (arith, y) in
        rw front (other, cut_misses q s p t n)
  ]
]

cut-none-Lacks : (q : Char) (s : String) → cut (String.◌∷◌ q String.[]) s ≡ none → Lacks (code q) s
unfolding cut has_prefix
cut-none-Lacks q String.[] e = tt
cut-none-Lacks q (String.◌∷◌ c s) e = elim (Bool-cases (nat_eq (code q) (code c))) [
  | inl y ↦ absurd (ground (arith, e, y))
  | inr y ↦ elim (Option-cases (cut (String.◌∷◌ q String.[]) s)) [
    | inl n ↦
        let other : nat_eq (code c) (code q) ≡ false = ground (arith, y) in
        (other, cut-none-Lacks q s n)
    | inr (w, n) ↦ absurd (ground (arith, e, y, n))
  ]
]

cut_here :
    (p s : String) → has_prefix p s ≡ true → cut p s ≡ some (String.[], drop_text (text_length p) s)
unfolding cut
cut_here p String.[] e = rw (e, drop-empty (text_length p)) refl
cut_here p (String.◌∷◌ c s) e = rw e refl

-- Where the text occurs, cut finds it there or earlier.
cut_finds :
    (p a b : String)
    → (before : String) × (behind : String) × (cut p (a <> (p <> b)) ≡ some (before, behind))
      × (text_length before ≤ text_length a)
unfolding cut text_length
cut_finds p String.[] b = (
  "",
  drop_text (text_length p) (p <> b),
  rw nil-append (cut_here p (p <> b) (has_prefix-append p b)),
  omega arith,
)
cut_finds p (String.◌∷◌ c a) b = elim (Bool-cases (has_prefix p (String.◌∷◌ c (a <> (p <> b))))) [
  | inl y ↦ (
    "",
    drop_text (text_length p) (String.◌∷◌ c (a <> (p <> b))),
    rw (cons-append, y) refl,
    ground arith,
  )
  | inr y ↦
      let (q, t, e, l) = cut_finds p a b in
      (String.◌∷◌ c q, t, rw (cons-append, y, e) refl, ground (arith, l))
]

-- The opening does not occur in the line before this.
abbrev pub IsFirst : String → String → String → Type 0
IsFirst opening before line =
    (a b : String) → line ≡ a <> (opening <> b) → text_length before ≤ text_length a

-- The line after the search for an opening: what stands between its first occurrence and the next quote
-- is resolved; the line is as it was where there is no opening, or no such quote.
pub data Rewritten (resolve : String → String) (opening : String) (q : Char) (line result : String)
    : Type 0 where
  no_opening :
      ((a b : String) → line ≡ a <> (opening <> b) → ⊥)
      → result ≡ line
      → Rewritten resolve opening q line result
  no_quote :
      (before b : String)
      → line ≡ before <> (opening <> b)
      → IsFirst opening before line
      → Lacks (code q) b
      → result ≡ line
      → Rewritten resolve opening q line result
  resolved :
      (before specifier behind : String)
      → line ≡ before <> (opening <> (specifier <> String.◌∷◌ q behind))
      → IsFirst opening before line
      → Lacks (code q) specifier
      → result ≡ before <> (opening <> (resolve specifier <> String.◌∷◌ q behind))
      → Rewritten resolve opening q line result

cut-none-occurs : (p s : String) → cut p s ≡ none → (a b : String) → s ≡ a <> (p <> b) → ⊥
cut-none-occurs p s e a b same =
    let (before, behind, f, _) = cut_finds p a b in
    let g : cut p s ≡ some (before, behind) = ap (cut p) same ∙ f in ground (arith, e, g)

cut-IsFirst : (p s before behind : String) → cut p s ≡ some (before, behind) → IsFirst p before s
cut-IsFirst p s before behind e a b same =
    let (q, t, f, l) = cut_finds p a b in
    let g : cut p s ≡ some (q, t) = ap (cut p) same ∙ f in
    let front : before ≡ q = ground (arith, e, g) in rw front l

quote_append : (q : Char) (s : String) → String.◌∷◌ q String.[] <> s ≡ String.◌∷◌ q s
quote_append q s = rw (cons-append, nil-append) refl

module _ (resolve : String → String) where
  put_resolved_lem :
      (line before opening specifier : String) (q : Char) (behind : String)
      → line ≡ before <> (opening <> (specifier <> String.◌∷◌ q behind))
      → put_resolved resolve line before opening specifier (String.◌∷◌ q String.[] <> behind)
        ≡ before <> (opening <> (resolve specifier <> String.◌∷◌ q behind))
  put_resolved_lem line before opening specifier q behind whole =
      elim (Bool-cases (resolve specifier == specifier)) [
        | inl y ↦
            let same = (eq_iff (resolve specifier) specifier).0 y in
            rw y (whole ∙ ap (λ u. before <> (opening <> (u <> String.◌∷◌ q behind))) (sym same))
        | inr y ↦
            rw y (ap (λ u. before <> (opening <> (resolve specifier <> u))) (quote_append q behind))
      ]

  resolve_pattern-Rewritten :
      (line opening : String) (q : Char)
      → Rewritten resolve opening q line
          (resolve_pattern resolve line (opening, String.◌∷◌ q String.[]))
  resolve_pattern-Rewritten line opening q =
      let quote = String.◌∷◌ q String.[] in
      elim (Option-cases (cut opening line)) [
        | inl n ↦
            no_opening (cut-none-occurs opening line n)
              (ap (resolve_behind resolve line (opening, quote)) n)
        | inr ((before, b), e) ↦
            let first = cut-IsFirst opening line before b e in
            let found : resolve_pattern resolve line (opening, quote)
                ≡ resolve_to_quote resolve line before opening quote (cut quote b) =
              ap (resolve_behind resolve line (opening, quote)) e in
            elim (Option-cases (cut quote b)) [
              | inl n ↦
                  no_quote before b (cut_lem opening line before b e) first (cut-none-Lacks q b n)
                    (found ∙ ap (resolve_to_quote resolve line before opening quote) n)
              | inr ((specifier, behind), f) ↦
                  let whole : line ≡ before <> (opening <> (specifier <> String.◌∷◌ q behind)) =
                    cut_lem opening line before b e
                    ∙ ap (λ u. before <> (opening <> u)) (cut_lem quote b specifier behind f)
                    ∙ ap (λ u. before <> (opening <> (specifier <> u))) (quote_append q behind) in
                  resolved before specifier behind whole first (cut_misses q b specifier behind f) (
                    found
                    ∙ ap (resolve_to_quote resolve line before opening quote) f
                    ∙ put_resolved_lem line before opening specifier q behind whole)
            ]
      ]

  -- A line goes through four searches, for `require("`, `require('`, `from "` and `from '`, in this
  -- order. Each leaves all of its line but what stands between the first occurrence of the opening and
  -- the next quote of its kind, and replaces that by what it resolves to; the line is as it was where
  -- there is no opening, or no such quote behind it.
  pub resolve_import_line-Rewritten :
      (line : String)
      → (one : String) × (two : String) × (three : String) × Rewritten resolve "require(\"" "\""
          line one
        × Rewritten resolve "require('" "'" one two
        × Rewritten resolve "from \"" "\"" two three
        × Rewritten resolve "from '" "'" three (resolve_import_line resolve line)
  unfolding resolve_import_line
  resolve_import_line-Rewritten line =
      let one = resolve_pattern resolve line ("require(\"", "\"") in
      let two = resolve_pattern resolve one ("require('", "'") in
      let three = resolve_pattern resolve two ("from \"", "\"") in
      (
        one,
        two,
        three,
        resolve_pattern-Rewritten line "require(\"" "\"",
        resolve_pattern-Rewritten one "require('" "'",
        resolve_pattern-Rewritten two "from \"" "\"",
        resolve_pattern-Rewritten three "from '" "'",
      )

-- ===== src/Pathalias/Patterns.antt =====
-- internal/pathalias/pathalias.go: the aliases with a star that fit a specifier, said without the code's
-- tests.
use Prim.Native.Char.{code}
use text.Mathlib.TextEquality.{Char-path}
use text.Mathlib.TextLemmas.{cons-append, nil-append, append_assoc}
use tsgonest.Common.{
  ℕ, zero, suc, ◌+◌, ◌-◌, String, true, some, ◌≡◌, inl, inr, refl, sym, ap, ◌∙◌, arith, nat_eq,
  eq_iff,
}
use tsgonest.Common.Tests.{Bool-cases, Option-cases}
use tsgonest.Common.Texts.{◌<>◌, has_prefix, Lacks}
use tsgonest.Pathalias.{text_length, drop_text, take_text, has_suffix, split_star, fits, wildcard}

-- A pattern is what stands around its star.
pub split_star_key : (key p s : String) → split_star key ≡ some (p, s) → key ≡ p <> ("*" <> s)
unfolding split_star
split_star_key String.[] p s e = absurd (ground (arith, e))
split_star_key (String.◌∷◌ c k) p s e = elim (Bool-cases (nat_eq (code c) 42)) [
  | inl y ↦
      let star : c ≡ "*" = Char-path c "*" (ground (arith, y)) in
      let front : p ≡ String.[] = ground (arith, e, y) in
      let behind : s ≡ k = ground (arith, e, y) in
      rw (front, behind, star, nil-append, cons-append "*" String.[] k, nil-append) refl
  | inr y ↦ elim (Option-cases (split_star k)) [
    | inl n ↦ absurd (ground (arith, e, y, n))
    | inr ((q, t), n) ↦
        let front : p ≡ String.◌∷◌ c q = ground (arith, e, y, n) in
        let behind : s ≡ t = ground (arith, e, y, n) in
        rw (front, behind)
          (ap (λ u. String.◌∷◌ c u) (split_star_key k q t n) ∙ sym (cons-append c q ("*" <> t)))
  ]
]

pub wildcard_split :
    (specifier key p s : String)
    → wildcard specifier key ≡ some (p, s)
    → (split_star key ≡ some (p, s)) × (fits specifier (p, s) ≡ true)
unfolding wildcard
wildcard_split specifier key p s e = elim (Option-cases (split_star key)) [
  | inl n ↦ absurd (ground (arith, e, n))
  | inr ((q, t), n) ↦ elim (Bool-cases (fits specifier (q, t))) [
    | inl y ↦
        let front : q ≡ p = ground (arith, e, n, y) in
        let behind : t ≡ s = ground (arith, e, n, y) in
        (rw (← front, ← behind) n, rw (← front, ← behind) y)
    | inr y ↦ absurd (ground (arith, e, n, y))
  ]
]

-- The key is the two texts around its first star, and the specifier begins with the one and ends in the
-- other, which do not overlap.
pub Fits : String → String → String → String → Type 0
Fits specifier key p s =
    Lacks 42 p × (key ≡ p <> ("*" <> s)) × ((w : String) × (specifier ≡ p <> (w <> s)))

split_star-Lacks : (key p s : String) → split_star key ≡ some (p, s) → Lacks 42 p
unfolding split_star
split_star-Lacks String.[] p s e = absurd (ground (arith, e))
split_star-Lacks (String.◌∷◌ c k) p s e = elim (Bool-cases (nat_eq (code c) 42)) [
  | inl y ↦ let front : p ≡ String.[] = ground (arith, e, y) in rw front tt
  | inr y ↦ elim (Option-cases (split_star k)) [
    | inl n ↦ absurd (ground (arith, e, y, n))
    | inr ((q, t), n) ↦
        let front : p ≡ String.◌∷◌ c q = ground (arith, e, y, n) in
        rw front (y, split_star-Lacks k q t n)
  ]
]

split_star-around : (p s : String) → Lacks 42 p → split_star (p <> ("*" <> s)) ≡ some (p, s)
unfolding split_star
split_star-around String.[] s l = rw (nil-append, cons-append "*" String.[] s, nil-append) refl
split_star-around (String.◌∷◌ c p) s (n, l) = rw (cons-append, n, split_star-around p s l) refl

pub prefix_drop : (p s : String) → has_prefix p s ≡ true → s ≡ p <> drop_text (text_length p) s
unfolding has_prefix drop_text text_length
prefix_drop String.[] s h = sym (nil-append s)
prefix_drop (String.◌∷◌ c p) String.[] h = absurd (ground (arith, h))
prefix_drop (String.◌∷◌ c p) (String.◌∷◌ d s) h =
    let head : c ≡ d = Char-path c d (ground (arith, h)) in
    rw head (
      ap (λ t. String.◌∷◌ d t) (prefix_drop p s (ground (arith, h)))
      ∙ sym (cons-append d p (drop_text (text_length p) s)))

take-drop : (n : ℕ) (s : String) → s ≡ take_text n s <> drop_text n s
unfolding take_text drop_text
take-drop zero s = sym (nil-append s)
take-drop (suc n) String.[] = sym (nil-append "")
take-drop (suc n) (String.◌∷◌ c s) =
    ap (λ t. String.◌∷◌ c t) (take-drop n s) ∙ sym (cons-append c (take_text n s) (drop_text n s))

pub drop-empty : (n : ℕ) → drop_text n String.[] ≡ String.[]
unfolding drop_text
drop-empty zero = refl
drop-empty (suc n) = refl

drop-drop : (m n : ℕ) (s : String) → drop_text m (drop_text n s) ≡ drop_text (n + m) s
unfolding drop_text
drop-drop m zero s = let same : m ≡ zero + m = omega arith in ap (λ k. drop_text k s) same
drop-drop m (suc n) String.[] = drop-empty m ∙ sym (drop-empty (suc n + m))
drop-drop m (suc n) (String.◌∷◌ c s) =
    let same : suc (n + m) ≡ suc n + m = omega arith in
    drop-drop m n s ∙ ap (λ k. drop_text k (String.◌∷◌ c s)) same

length-drop : (n : ℕ) (s : String) → text_length (drop_text n s) ≡ text_length s - n
unfolding drop_text text_length
length-drop zero s = ground arith
length-drop (suc n) String.[] = ground arith
length-drop (suc n) (String.◌∷◌ c s) = ground (arith, length-drop n s)

length-append : (s t : String) → text_length (s <> t) ≡ text_length s + text_length t
unfolding text_length
length-append String.[] t = rw nil-append (omega arith)
length-append (String.◌∷◌ c s) t = rw cons-append (ground (arith, length-append s t))

drop-append : (s t : String) → drop_text (text_length s) (s <> t) ≡ t
unfolding drop_text text_length
drop-append String.[] t = nil-append t
drop-append (String.◌∷◌ c s) t = rw cons-append (drop-append s t)

pub has_prefix-append : (p s : String) → has_prefix p (p <> s) ≡ true
unfolding has_prefix
has_prefix-append String.[] s = refl
has_prefix-append (String.◌∷◌ c p) s = rw cons-append (ground (arith, has_prefix-append p s))

fits_around : (p w s : String) → fits (p <> (w <> s)) (p, s) ≡ true
unfolding fits has_suffix
fits_around p w s =
    let whole = p <> (w <> s) in
    let long : text_length whole ≡ text_length p + (text_length w + text_length s) =
      length-append p (w <> s) ∙ ap (λ n. text_length p + n) (length-append w s) in
    let place : text_length whole - text_length s ≡ text_length (p <> w) =
      ground (arith, long, length-append p w) in
    let back : drop_text (text_length whole - text_length s) whole ≡ s =
      ap (λ n. drop_text n whole) place
      ∙ ap (λ t. drop_text (text_length (p <> w)) t) (sym (append_assoc p w s))
      ∙ drop-append (p <> w) s in
    let same = (eq_iff (drop_text (text_length whole - text_length s) whole) s).1 back in
    ground (arith, has_prefix-append p (w <> s), long, same)

around_fits :
    (specifier p s : String)
    → fits specifier (p, s) ≡ true
    → (w : String) × (specifier ≡ p <> (w <> s))
unfolding fits has_suffix
around_fits specifier p s e =
    let y = drop_text (text_length p) specifier in
    let n = text_length y - text_length s in
    let front = prefix_drop p specifier (ground (arith, e)) in
    let long = length-drop (text_length p) specifier in
    let place : text_length p + n ≡ text_length specifier - text_length s =
      ground (arith, e, long) in
    let back : drop_text n y ≡ s =
      drop-drop n (text_length p) specifier
      ∙ ap (λ k. drop_text k specifier) place
      ∙ (eq_iff (drop_text (text_length specifier - text_length s) specifier) s).0
          (ground (arith, e)) in
    (take_text n y, front ∙ ap (λ t. p <> t) (take-drop n y ∙ ap (λ t. take_text n y <> t) back))

pub wildcard-Fits :
    (specifier key p s : String) → wildcard specifier key ≡ some (p, s) → Fits specifier key p s
unfolding Fits
wildcard-Fits specifier key p s e =
    let (split, fit) = wildcard_split specifier key p s e in
    (split_star-Lacks key p s split, split_star_key key p s split, around_fits specifier p s fit)

pub Fits-wildcard :
    (specifier key p s : String) → Fits specifier key p s → wildcard specifier key ≡ some (p, s)
unfolding Fits wildcard
Fits-wildcard specifier key p s (l, k, (w, e)) =
    rw (k, split_star-around p s l, e, fits_around p w s) refl

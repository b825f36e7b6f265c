-- ===== src/Pathalias/Choice.antt =====
-- internal/pathalias/pathalias.go: the alias that is chosen, whatever order the map is walked in.
use mathlib.Core.Path.{subst}
use tsgonest.Common.{
  ℕ, ◌<◌, ◌≤◌, ltb, String, true, false, Option, none, some, List, [], ◌∷◌, ◌==◌, ◌≡◌, ◌⊎◌, inl,
  inr, refl, sym, ap, arith, eq_iff,
}
use tsgonest.Common.Tests.{Bool-cases, Option-cases}
use tsgonest.Common.Maps.{Map, lookup, Distinct}
use tsgonest.Pathalias.Patterns.{Fits, wildcard-Fits, Fits-wildcard}
use tsgonest.Pathalias.{text_length, Match, wildcard, longer, beats, improve, best_match}

-- The map has the key with these targets.
abbrev pub In : String → List String → Map (List String) → Type 0
In k t [] = ⊥
In k t ((j, w) ∷ more) = ((k ≡ j) × (t ≡ w)) ⊎ In k t more

pub In-lookup :
    (k : String) (t : List String) (m : Map (List String))
    → Distinct m
    → In k t m
    → lookup k m ≡ some t
unfolding lookup
In-lookup k t [] d i = elim i [ ]
In-lookup k t ((j, w) ∷ m) (n, d) (inl (e, p)) =
    let same : (j == k) ≡ true = (eq_iff j k).1 (sym e) in rw same (ap some (sym p))
In-lookup k t ((j, w) ∷ m) (n, d) (inr i) =
    let found = In-lookup k t m d i in
    let other : (j == k) ≡ false = ground (arith, n, found, eq_iff j k) in rw other found

pub lookup-In :
    (k : String) (t : List String) (m : Map (List String)) → lookup k m ≡ some t → In k t m
unfolding lookup
lookup-In k t [] e = absurd (ground (arith, e))
lookup-In k t ((j, w) ∷ m) e = elim (Bool-cases (j == k)) [
  | inl y ↦ inl (sym ((eq_iff j k).0 y), ground (arith, e, y))
  | inr y ↦ inr (lookup-In k t m (ground (arith, e, y)))
]

-- How long a match is.
abbrev pub rank : Match → ℕ × ℕ
rank m = (text_length m.prefix, text_length m.suffix)

-- The first has the longer prefix, or one of the same length and no shorter suffix.
pub data NotBelow (r m : ℕ × ℕ) : Type 0 where
  longer_prefix : m.0 < r.0 → NotBelow r m
  same_prefix : r.0 ≡ m.0 → m.1 ≤ r.1 → NotBelow r m

NotBelow-trans : {r m n : ℕ × ℕ} → NotBelow r m → NotBelow m n → NotBelow r n
NotBelow-trans (longer_prefix p) (longer_prefix q) = longer_prefix (ground (arith, p, q))
NotBelow-trans (longer_prefix p) (same_prefix q l) = longer_prefix (ground (arith, p, q))
NotBelow-trans (same_prefix p k) (longer_prefix q) = longer_prefix (ground (arith, p, q))
NotBelow-trans (same_prefix p k) (same_prefix q l) =
    same_prefix (ground (arith, p, q)) (ground (arith, k, l))

pub NotBelow-antisym : {r m : ℕ × ℕ} → NotBelow r m → NotBelow m r → (r.0 ≡ m.0) × (r.1 ≡ m.1)
NotBelow-antisym (longer_prefix p) (longer_prefix q) = absurd (ground (arith, p, q))
NotBelow-antisym (longer_prefix p) (same_prefix q l) = absurd (ground (arith, p, q))
NotBelow-antisym (same_prefix p k) (longer_prefix q) = absurd (ground (arith, p, q))
NotBelow-antisym (same_prefix p k) (same_prefix q l) = (p, ground (arith, k, l))

NotBelow-self : (r : ℕ × ℕ) → NotBelow r r
NotBelow-self r = same_prefix refl (ground arith)

longer_below : (r m : ℕ × ℕ) → longer r.0 r.1 m.0 m.1 ≡ true → NotBelow r m
longer_below r m e = elim (Bool-cases (ltb m.0 r.0)) [
  | inl y ↦ longer_prefix (ground (arith, y))
  | inr n ↦ same_prefix (ground (arith, e, n)) (ground (arith, e, n))
]

not_below : (r m : ℕ × ℕ) → longer m.0 m.1 r.0 r.1 ≡ false → NotBelow r m
not_below r m e = elim (Bool-cases (ltb m.0 r.0)) [
  | inl y ↦ longer_prefix (ground (arith, y))
  | inr n ↦ same_prefix (ground (arith, e, n)) (ground (arith, e, n))
]

abbrev pub rank_of : String → String → ℕ × ℕ
rank_of p s = (text_length p, text_length s)

module _ (specifier : String) where
  improve_keeps :
      (w : Option (String × String)) (t : List String) (m : Match)
      → (n : Match) × (improve w t (some m) ≡ some n) × NotBelow (rank n) (rank m)
  improve_keeps none t m = (m, refl, NotBelow-self (rank m))
  improve_keeps (some (p, s)) t m = elim (Bool-cases (beats (p, s) (some m))) [
    | inl e ↦ (
      record { prefix = p; suffix = s; targets = t },
      rw e refl,
      longer_below (rank_of p s) (rank m) e,
    )
    | inr e ↦ (m, rw e refl, NotBelow-self (rank m))
  ]

  improve_takes :
      (p s : String) (t : List String) (best : Option Match)
      → (n : Match) × (improve (some (p, s)) t best ≡ some n) × NotBelow (rank n) (rank_of p s)
  improve_takes p s t none =
      (record { prefix = p; suffix = s; targets = t }, refl, NotBelow-self (rank_of p s))
  improve_takes p s t (some m) = elim (Bool-cases (beats (p, s) (some m))) [
    | inl e ↦
        (record { prefix = p; suffix = s; targets = t }, rw e refl, NotBelow-self (rank_of p s))
    | inr e ↦ (m, rw e refl, not_below (rank m) (rank_of p s) e)
  ]

  best_keeps :
      (m : Match) (xs : Map (List String))
      → (n : Match) × (best_match specifier (some m) xs ≡ some n) × NotBelow (rank n) (rank m)
  unfolding best_match
  best_keeps m [] = (m, refl, NotBelow-self (rank m))
  best_keeps m ((k, t) ∷ xs) =
      let (n, e, b) = improve_keeps (wildcard specifier k) t m in
      let (r, f, c) = best_keeps n xs in (r, rw e f, NotBelow-trans c b)

  pub best_dominates :
      (k : String) (t : List String) (p s : String) (best : Option Match) (xs : Map (List String))
      → In k t xs
      → wildcard specifier k ≡ some (p, s)
      → (n : Match) × (best_match specifier best xs ≡ some n) × NotBelow (rank n) (rank_of p s)
  unfolding best_match
  best_dominates k t p s best [] i e = elim i [ ]
  best_dominates k t p s best ((j, w) ∷ xs) (inl (same, _)) e =
      let (n, f, b) = improve_takes p s w best in
      let (r, g, c) = best_keeps n xs in (r, rw (← same, e, f) g, NotBelow-trans c b)
  best_dominates k t p s best ((j, w) ∷ xs) (inr i) e =
      best_dominates k t p s (improve (wildcard specifier j) w best) xs i e

  abbrev pub Comes : Match → Map (List String) → Type 0
  Comes m xs = (k : String) × In k m.targets xs × (wildcard specifier k ≡ some (m.prefix, m.suffix))

  improve_comes :
      (w : Option (String × String)) (t : List String) (best : Option Match) (m : Match)
      → improve w t best ≡ some m
      → (best ≡ some m) ⊎ ((w ≡ some (m.prefix, m.suffix)) × (t ≡ m.targets))
  improve_comes none t best m e = inl e
  improve_comes (some (p, s)) t best m e = elim (Bool-cases (beats (p, s) best)) [
    | inl y ↦ inr (ground (arith, e, y), ground (arith, e, y))
    | inr y ↦ inl (ground (arith, e, y))
  ]

  pub best-Comes :
      (best : Option Match) (xs : Map (List String)) (m : Match)
      → best_match specifier best xs ≡ some m
      → (best ≡ some m) ⊎ Comes m xs
  unfolding best_match
  best-Comes best [] m e = inl e
  best-Comes best ((k, t) ∷ xs) m e =
      elim (best-Comes (improve (wildcard specifier k) t best) xs m e) [
        | inr (j, i, w) ↦ inr (j, inr i, w)
        | inl f ↦ elim (improve_comes (wildcard specifier k) t best m f) [
          | inl g ↦ inl g
          | inr (w, same) ↦ inr (k, inl (refl, sym same), w)
        ]
      ]

  -- A match of an alias of the map that fits, and no alias that fits beats it.
  abbrev pub IsLongest : Map (List String) → Option Match → Type 0
  IsLongest xs none = (k p s : String) (t : List String) → In k t xs → Fits specifier k p s → ⊥
  IsLongest xs (some m) =
      ((k : String) × In k m.targets xs × Fits specifier k m.prefix m.suffix)
      × ((k p s : String) (t : List String)
          → In k t xs
          → Fits specifier k p s
          → NotBelow (rank m) (rank_of p s))

  -- The match that is chosen is that of an alias of the map that fits, and no alias of the map that
  -- fits has a longer prefix, or a prefix of the same length and a longer suffix; none is chosen only
  -- where none fits.
  pub best_match-IsLongest : (xs : Map (List String)) → IsLongest xs (best_match specifier none xs)
  best_match-IsLongest xs = elim (Option-cases (best_match specifier none xs)) [
    | inl e ↦ rw e (λ k p s t i f.
        let (m, g, _) = best_dominates k t p s none xs i (Fits-wildcard specifier k p s f) in
        absurd (ground (arith, e, g)))
    | inr (m, e) ↦ elim (best-Comes none xs m e) [
      | inl n ↦ absurd (ground (arith, n))
      | inr (k, i, w) ↦ rw e (
        (k, i, wildcard-Fits specifier k m.prefix m.suffix w),
        λ k p s t i f.
            let (n, g, b) = best_dominates k t p s none xs i (Fits-wildcard specifier k p s f) in
            let same : n ≡ m = ground (arith, e, g) in
            subst (λ z. NotBelow (rank z) (rank_of p s)) same b,
      )
    ]
  ]

-- ===== src/Pathalias/Order.antt =====
-- internal/pathalias/pathalias.go: the order in which Go walks the map of the aliases, which it does
-- not promise.
use Prim.Native.Char.{code}
use text.Mathlib.TextEquality.{Char-path}
use mathlib.Core.Path.{subst}
use tsgonest.Common.{
  ◌-◌, String, true, false, not, ◌&&◌, Option, none, some, List, [], ◌∷◌, ◌==◌, ◌≡◌, inl, inr, refl,
  sym, ap, ◌∙◌, arith, if◌then◌else◌, eq_iff,
}
use tsgonest.Common.Tests.{Bool-cases, Option-cases}
use tsgonest.Common.Maps.{Map, lookup, has, Distinct}
use tsgonest.Common.Texts.{has_prefix}
use tsgonest.Pathalias.{
  text_length, drop_text, has_suffix, split_star, Match, fits, wildcard, best_match, exact,
  exact_target, is_plain, match_and_resolve,
}
use tsgonest.Pathalias.Patterns.{split_star_key, wildcard_split}
use tsgonest.Pathalias.Choice.{
  In, In-lookup, lookup-In, rank, NotBelow, NotBelow-antisym, best_dominates, best-Comes, Comes,
}

prefix_same :
    (p q s : String)
    → has_prefix p s ≡ true
    → has_prefix q s ≡ true
    → text_length p ≡ text_length q
    → p ≡ q
unfolding has_prefix text_length
prefix_same String.[] String.[] s h k e = refl
prefix_same String.[] (String.◌∷◌ d q) s h k e = absurd (ground (arith, e))
prefix_same (String.◌∷◌ c p) String.[] s h k e = absurd (ground (arith, e))
prefix_same (String.◌∷◌ c p) (String.◌∷◌ d q) String.[] h k e = absurd (ground (arith, h))
prefix_same (String.◌∷◌ c p) (String.◌∷◌ d q) (String.◌∷◌ x s) h k e =
    let head : code c ≡ code d = ground (arith, h, k) in
    let tail = prefix_same p q s (ground (arith, h)) (ground (arith, k)) (ground (arith, e)) in
    cc (Char-path c d head, tail)

suffix_drop :
    (p s : String) → has_suffix p s ≡ true → drop_text (text_length s - text_length p) s ≡ p
unfolding has_suffix
suffix_drop p s h = (eq_iff (drop_text (text_length s - text_length p) s) p).0 (ground (arith, h))

suffix_same :
    (p q s : String)
    → has_suffix p s ≡ true
    → has_suffix q s ≡ true
    → text_length p ≡ text_length q
    → p ≡ q
suffix_same p q s h k e =
    sym (suffix_drop p s h) ∙ ap (λ n. drop_text (text_length s - n) s) e ∙ suffix_drop q s k

-- Two patterns that fit and are equally long are the same pattern.
same_key :
    (specifier j k : String) (m n : Match)
    → wildcard specifier j ≡ some (m.prefix, m.suffix)
    → wildcard specifier k ≡ some (n.prefix, n.suffix)
    → text_length m.prefix ≡ text_length n.prefix
    → text_length m.suffix ≡ text_length n.suffix
    → (j ≡ k) × (m.prefix ≡ n.prefix) × (m.suffix ≡ n.suffix)
unfolding fits
same_key specifier j k m n f g a b =
    let (u, x) = wildcard_split specifier j m.prefix m.suffix f in
    let (v, y) = wildcard_split specifier k n.prefix n.suffix g in
    let front : m.prefix ≡ n.prefix =
      prefix_same m.prefix n.prefix specifier (ground (arith, x)) (ground (arith, y)) a in
    let behind : m.suffix ≡ n.suffix =
      suffix_same m.suffix n.suffix specifier (ground (arith, x)) (ground (arith, y)) b in
    let left = split_star_key j m.prefix m.suffix u in
    let right = split_star_key k n.prefix n.suffix v in
    (rw (left, right, front, behind) refl, front, behind)

-- The same entries, in any order.
pub data Reordered (xs ys : Map (List String)) : Type 0 where
  reordered : ((k : String) → lookup k xs ≡ lookup k ys) → Reordered xs ys

Reordered-back : {xs ys : Map (List String)} → Reordered xs ys → Reordered ys xs
Reordered-back (reordered f) = reordered (λ k. sym (f k))

In-Reordered :
    (xs ys : Map (List String)) (k : String) (t : List String)
    → Distinct xs
    → Reordered xs ys
    → In k t xs
    → In k t ys
In-Reordered xs ys k t d (reordered f) i = lookup-In k t ys (sym (f k) ∙ In-lookup k t xs d i)

comes :
    (specifier : String) (xs : Map (List String)) (m : Match)
    → best_match specifier none xs ≡ some m
    → Comes specifier m xs
comes specifier xs m e = elim (best-Comes specifier none xs m e) [
  | inl n ↦ absurd (ground (arith, n))
  | inr c ↦ c
]

-- A match in one order has a match in the other that it does not beat.
answered :
    (specifier : String) (xs ys : Map (List String)) (m : Match)
    → Distinct xs
    → Reordered xs ys
    → best_match specifier none xs ≡ some m
    → (n : Match) × (best_match specifier none ys ≡ some n) × NotBelow (rank n) (rank m)
answered specifier xs ys m d r e =
    let (k, i, w) = comes specifier xs m e in
    best_dominates specifier k m.targets m.prefix m.suffix none ys
      (In-Reordered xs ys k m.targets d r i) w

same_match :
    (specifier : String) (xs : Map (List String)) (m n : Match)
    → Distinct xs
    → Comes specifier m xs
    → Comes specifier n xs
    → NotBelow (rank n) (rank m)
    → NotBelow (rank m) (rank n)
    → m ≡ n
same_match specifier xs m n d (j, i, w) (k, l, v) b c =
    let (x, y) = NotBelow-antisym c b in
    let (same, front, behind) = same_key specifier j k m n w v x y in
    let targets : m.targets ≡ n.targets =
      ground (arith, In-lookup j m.targets xs d i, In-lookup k n.targets xs d l, same) in
    λ u. record { prefix = front u; suffix = behind u; targets = targets u }

-- Two maps with the same entries choose the same alias.
best_match-Reordered :
    (specifier : String) (xs ys : Map (List String))
    → Distinct xs
    → Distinct ys
    → Reordered xs ys
    → best_match specifier none xs ≡ best_match specifier none ys
best_match-Reordered specifier xs ys d d' r = elim (Option-cases (best_match specifier none xs)) [
  | inl e ↦ elim (Option-cases (best_match specifier none ys)) [
    | inl f ↦ e ∙ sym f
    | inr (n, f) ↦
        let (m, g, _) = answered specifier ys xs n d' (Reordered-back r) f in
        absurd (ground (arith, e, g))
  ]
  | inr (m, e) ↦
      let (n, f, b) = answered specifier xs ys m d r e in
      let (m', g, c) = answered specifier ys xs n d' (Reordered-back r) f in
      let back : m' ≡ m = ground (arith, e, g) in
      let c' = subst (λ z. NotBelow (rank z) (rank n)) back c in
      let (k, i, w) = comes specifier ys n f in
      let there : Comes specifier n xs =
        (k, In-Reordered ys xs k n.targets d' (Reordered-back r) i, w) in
      e
      ∙ ap (λ z. some z) (same_match specifier xs m n d (comes specifier xs m e) there b c')
      ∙ sym f
]

module _ (resolve : String → String) where
  exact_of : String → Option (List String) → String
  exact_of specifier none = ""
  exact_of specifier (some targets) =
      let found = exact_target resolve targets in
      if is_plain (split_star specifier) && not (found == "") then found else ""

  exact-lookup :
      (specifier : String) (xs : Map (List String))
      → Distinct xs
      → exact resolve specifier xs ≡ exact_of specifier (lookup specifier xs)
  unfolding exact lookup exact_of
  exact-lookup specifier [] d = refl
  exact-lookup specifier ((key, targets) ∷ more) (n, d) =
      let rest = exact-lookup specifier more d in
      elim (Bool-cases (key == specifier)) [
        | inr y ↦ rw y rest
        | inl y ↦
            let same = (eq_iff key specifier).0 y in
            let absent : lookup specifier more ≡ none =
              ground (arith, subst (λ k. has k more ≡ false) same n) in
            let rest' : exact resolve specifier more ≡ "" =
              rest ∙ ap (λ found. exact_of specifier found) absent in
            rw (y, same, rest') refl
      ]

  -- An import resolves to the same text in whatever order Go walks the aliases: two maps whose keys
  -- are distinct and that give the same targets for each key answer alike.
  pub match_and_resolve-Reordered :
      (specifier : String) (xs ys : Map (List String))
      → Distinct xs
      → Distinct ys
      → Reordered xs ys
      → match_and_resolve resolve xs specifier ≡ match_and_resolve resolve ys specifier
  unfolding match_and_resolve
  match_and_resolve-Reordered specifier xs ys d d' (reordered same) =
      let alias : exact resolve specifier xs ≡ exact resolve specifier ys =
        exact-lookup specifier xs d
        ∙ ap (λ found. exact_of specifier found) (same specifier)
        ∙ sym (exact-lookup specifier ys d') in
      rw (alias, best_match-Reordered specifier xs ys d d' (reordered same)) refl

-- ===== src/Openapi/SchemaGen/Ends.antt =====
-- The total correctness of actions of internal/openapi/schema.go: what an action ends with, and one
-- rule for each way to build an action.
use tsgonest.Common.{
  ℕ, ◌≤◌, String, ◌≡◌, Bool, true, false, Option, none, some, List, [], ◌∷◌, inl, inr, refl, arith,
  Bool-cases, if◌then◌else◌,
}
use tsgonest.Common.Lists.{All}
use tsgonest.Common.Maps.{has, insert, has-insert_self}
use tsgonest.Openapi.Schema.{Schema, leaf, no_keywords, reference}
use tsgonest.Openapi.SchemaGen.Action.{
  Gen, M, pure, ◌>>=◌, sequence, build_named, register, register_now,
}
use tsgonest.Openapi.SchemaGen.Resolved.{
  Resolved, Resolved-mono, Has, Closed, Grows, Grows-insert, Closed-insert,
}
use tsgonest.Openapi.SchemaGen.Names.{missing, missing-Grows}

-- The action returned, the components are still closed and none was lost, and `Q` holds of the
-- result in the new state.
abbrev pub Ends : {A : Type 0} → (Gen → A → Type 0) → Gen → Option (A × Gen) → Type 0
Ends Q g none = ⊥
Ends Q g (some (a, g')) = Closed g' × Grows g g' × Q g' a

Ends-trans :
    {A : Type 0} (Q : Gen → A → Type 0) (g g' : Gen) (r : Option (A × Gen))
    → Grows g g'
    → Ends Q g' r
    → Ends Q g r
Ends-trans Q g g' none h e = e
Ends-trans Q g g' (some (a, g'')) h (c, k, q) = (c, λ n p. k n (h n p), q)

abbrev pub IsResolved : Gen → Schema → Type 0
IsResolved g s = Resolved (Has g) s

abbrev pub AllResolved : Gen → List Schema → Type 0
AllResolved g ss = All (IsResolved g) ss

pub IsResolved-Grows : (g g' : Gen) (s : Schema) → Grows g g' → IsResolved g s → IsResolved g' s
IsResolved-Grows g g' s h r = Resolved-mono (Has g) (Has g') h s r

reference-IsResolved : (name : String) (g : Gen) → Has g name → IsResolved g (reference name)
unfolding Resolved
reference-IsResolved name g h = (inr (name, refl, refl, h), tt, tt, tt, tt, tt, tt, tt, tt)

leaf-IsResolved : (P : String → Type 0) → Resolved P (leaf no_keywords)
unfolding Resolved
leaf-IsResolved P = (inl refl, tt, tt, tt, tt, tt, tt, tt, tt)

pub Ends-if :
    {A : Type 0} (Q : Gen → A → Type 0) (g : Gen) (b : Bool) (c d : M A)
    → (b ≡ true → Ends Q g (c g))
    → (b ≡ false → Ends Q g (d g))
    → Ends Q g ((if b then c else d) g)
Ends-if Q g true c d hc hd = hc refl
Ends-if Q g false c d hc hd = hd refl

module _ (names : List String) (fuel : ℕ) where
  -- From a closed state with at most `fuel` names to come.
  abbrev pub Good : {A : Type 0} → (Gen → A → Type 0) → M A → Type 0
  Good Q c = (g : Gen) → Closed g → missing names g ≤ fuel → Ends Q g (c g)

  pub Ends-bind :
      {A B : Type 0} (Q : Gen → A → Type 0) (R : Gen → B → Type 0) (f : A → M B) (g : Gen)
      (r : Option (A × Gen))
      → missing names g ≤ fuel
      → ((a : A) (g' : Gen)
          → Closed g'
          → missing names g' ≤ fuel
          → Grows g g'
          → Q g' a
          → Ends R g' (f a g'))
      → Ends Q g r
      → Ends R g (elim r [ none ↦ none | some (a, g') ↦ f a g' ])
  Ends-bind Q R f g none m k e = absurd e
  Ends-bind Q R f g (some (a, g')) m k (c, h, q) =
      Ends-trans R g g' (f a g') h (k a g' c (omega (arith, missing-Grows names g g' h)) h q)

  pub Good-if :
      {A : Type 0} (Q : Gen → A → Type 0) (b : Bool) (c d : M A)
      → Good Q c
      → Good Q d
      → Good Q (if b then c else d)
  Good-if Q true c d hc hd = hc
  Good-if Q false c d hc hd = hd

  -- A pure step on the result.
  pub Good-map :
      {A B : Type 0} (Q : Gen → A → Type 0) (R : Gen → B → Type 0) (h : A → B) (c : M A)
      → ((g : Gen) (a : A) → Q g a → R g (h a))
      → Good Q c
      → Good R (c >>= λ a. pure (h a))
  Good-map Q R h c step good g closed m =
      Ends-bind Q R (λ a. pure (h a)) g (c g) m (λ a g' c' _ _ q. (c', λ n p. p, step g' a q))
        (good g closed m)

  pub Good-sequence :
      (cs : List (M Schema)) → All (Good IsResolved) cs → Good AllResolved (sequence cs)
  unfolding sequence
  Good-sequence [] h g closed m = (closed, λ n p. p, tt)
  Good-sequence (c ∷ cs) (h, hs) g closed m =
      Ends-bind IsResolved AllResolved _ g (c g) m
        (λ s g₁ c₁ m₁ _ r₁.
          Ends-bind AllResolved AllResolved _ g₁ (sequence cs g₁) m₁
            (λ ss g₂ c₂ _ h₂ r₂. (c₂, λ n p. p, (IsResolved-Grows g₁ g₂ s h₂ r₁, r₂)))
            (Good-sequence cs hs g₁ c₁ m₁))
        (h g closed m)

  -- The placeholder is a state like any other, and what is built takes its place.
  build_named_end :
      (name : String) (g g₀ : Gen) (r : Option (Schema × Gen))
      → Grows g g₀
      → Ends IsResolved g₀ r
      → Ends IsResolved g
          (elim r [ none ↦ none | some (s, g') ↦ some (reference name, insert name s g') ])
  build_named_end name g g₀ none h e = absurd e
  build_named_end name g g₀ (some (s, g')) h (c, k, r) = (
    Closed-insert name s g' (IsResolved-Grows g' (insert name s g') s (Grows-insert name s g') r) c,
    λ n p. Grows-insert name s g' n (k n (h n p)),
    reference-IsResolved name (insert name s g') (has-insert_self name s g'),
  )

  pub Ends-build_named :
      (name : String) (build : M Schema) (g : Gen)
      → Closed g
      → ((g₀ : Gen)
          → Closed g₀
          → g₀ ≡ insert name (leaf no_keywords) g
          → Ends IsResolved g₀ (build g₀))
      → Ends IsResolved g (build_named name build g)
  unfolding build_named
  Ends-build_named name build g c h =
      let g₀ = insert name (leaf no_keywords) g in
      build_named_end name g g₀ (build g₀) (Grows-insert name (leaf no_keywords) g)
        (h g₀ (Closed-insert name (leaf no_keywords) g (leaf-IsResolved (Has g₀)) c) refl)

  pub Ends-register :
      (name : String) (build : M Schema) (g : Gen)
      → Closed g
      → (has name g ≡ false → Ends IsResolved g (build_named name build g))
      → Ends IsResolved g (register name build g)
  unfolding register
  Ends-register name build g c h = elim (Bool-cases (has name g)) [
    | inl old ↦ rw old (c, λ n p. p, reference-IsResolved name g old)
    | inr new ↦ rw new (h new)
  ]

  -- Under the same fuel.
  pub Good-register :
      (name : String) (build : M Schema)
      → Good IsResolved build
      → Good IsResolved (register name build)
  Good-register name build good g c m = Ends-register name build g c λ _.
      Ends-build_named name build g c λ g₀ c₀ e. good g₀ c₀ (
        rw e (
          omega (
            arith,
            missing-Grows names g (insert name (leaf no_keywords) g)
                (Grows-insert name (leaf no_keywords) g),
          )))

  pub Good-register_now :
      (name : String) (s : Schema)
      → ((P : String → Type 0) → Resolved P s)
      → Good IsResolved (register_now name s)
  unfolding register_now
  Good-register_now name s r g c m = elim (Bool-cases (has name g)) [
    | inl old ↦ rw old (c, λ n p. p, reference-IsResolved name g old)
    | inr new ↦ rw new (
      Closed-insert name s g (r (Has (insert name s g))) c,
      Grows-insert name s g,
      reference-IsResolved name (insert name s g) (has-insert_self name s g),
    )
  ]

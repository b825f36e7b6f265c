-- ===== src/Pathalias/RootDir.antt =====
-- internal/pathalias/pathalias.go: InferRootDir. `dir` stands for filepath.Dir. The inner loop runs on
-- fuel, as many steps as the directory is long.
use mathlib.Core.Path.{subst}
use tsgonest.Common.{
  ℕ, zero, suc, ◌≤◌, ◌<◌, String, Bool, true, ◌||◌, Option, none, some, List, [], ◌∷◌, ◌==◌, ◌≡◌,
  ◌⊎◌, inl, inr, refl, sym, arith, if◌then◌else◌,
}
use tsgonest.Common.Tests.{Bool-cases}
use tsgonest.Common.Lists.{All}
use tsgonest.Common.Texts.{has_prefix}
use tsgonest.Pathalias.{text_length}

abbrev pub is_root : String → Bool
is_root common = common == "." || common == "/"

abbrev pub unless_root : Option String → (String → Option String) → Option String
unless_root none go = none
unless_root (some common) go = let rest = go common in if is_root common then some "" else rest

module _ (dir : String → String) where
  -- The inner loop: up until the file's directory begins with it.
  unfoldable pub climb : ℕ → String → String → Option String
  unfolding has_prefix
  climb zero file_dir common =
      if has_prefix common file_dir || is_root common then some common else none
  climb (suc fuel) file_dir common =
      let rest = climb fuel file_dir (dir common) in
      if has_prefix common file_dir || is_root common then some common else rest

  -- The outer loop, over the files that are left.
  unfoldable pub infer_files : ℕ → String → List String → Option String
  unfolding climb
  infer_files fuel common [] = some common
  infer_files fuel common (f ∷ fs) =
      unless_root (climb fuel (dir f) common) (λ c. infer_files fuel c fs)

  -- `InferRootDir`.
  unfoldable pub infer_root_dir : List String → Option String
  unfolding infer_files text_length
  infer_root_dir [] = some ""
  infer_root_dir (f ∷ fs) =
      let rest = infer_files (text_length (dir f)) (dir f) fs in
      if dir f == "." then some "" else rest

-- The directory's text begins the directory of each file.
abbrev pub Under : (String → String) → String → List String → Type 0
Under dir c fs = All (λ f. has_prefix c (dir f) ≡ true) fs

has_prefix_trans :
    (p q s : String) → has_prefix p q ≡ true → has_prefix q s ≡ true → has_prefix p s ≡ true
unfolding has_prefix
has_prefix_trans String.[] q s h k = refl
has_prefix_trans (String.◌∷◌ c p) String.[] s h k = absurd (ground (arith, h))
has_prefix_trans (String.◌∷◌ c p) (String.◌∷◌ d q) String.[] h k = absurd (ground (arith, k))
has_prefix_trans (String.◌∷◌ c p) (String.◌∷◌ d q) (String.◌∷◌ x s) h k =
    let tail = has_prefix_trans p q s (ground (arith, h)) (ground (arith, k)) in
    ground (arith, h, k, tail)

has_prefix_self : (s : String) → has_prefix s s ≡ true
unfolding has_prefix
has_prefix_self String.[] = refl
has_prefix_self (String.◌∷◌ c s) = ground (arith, has_prefix_self s)

empty_prefix : (p s : String) → text_length p ≤ 0 → has_prefix p s ≡ true
unfolding text_length has_prefix
empty_prefix String.[] s h = refl
empty_prefix (String.◌∷◌ c p) s h = absurd (ground (arith, h))

-- The directory above a directory is a root or a shorter beginning of its text.
pub data IsAbove (above below : String) : Type 0 where
  at_root : is_root above ≡ true → IsAbove above below
  shorter :
      has_prefix above below ≡ true → text_length above < text_length below → IsAbove above below

module _ (dir : String → String) (above : (p : String) → IsAbove (dir (dir p)) (dir p)) where
  climb_root : (fuel : ℕ) (d c : String) → is_root c ≡ true → climb dir fuel d c ≡ some c
  unfolding climb
  climb_root zero d c e = ground (arith, e)
  climb_root (suc fuel) d c e = ground (arith, e)

  -- A root, or a directory that begins both.
  data Climbed (fuel : ℕ) (d common c : String) : Type 0 where
    root : is_root c ≡ true → Climbed fuel d common c
    within :
        (q : String)
        → c ≡ dir q
        → has_prefix c d ≡ true
        → has_prefix c common ≡ true
        → text_length c ≤ fuel
        → Climbed fuel d common c

  Climbed-up :
      (fuel : ℕ) (d a b c : String)
      → has_prefix a b ≡ true
      → Climbed fuel d a c
      → Climbed (suc fuel) d b c
  Climbed-up fuel d a b c h (root e) = root e
  Climbed-up fuel d a b c h (within q e p r l) =
      within q e p (has_prefix_trans c a b r h) (ground (arith, l))

  climb_ends :
      (fuel : ℕ) (d p : String)
      → text_length (dir p) ≤ fuel
      → (c : String) × (climb dir fuel d (dir p) ≡ some c) × Climbed fuel d (dir p) c
  unfolding climb
  climb_ends zero d p l =
      let h = empty_prefix (dir p) d l in
      (dir p, ground (arith, h), within p refl h (has_prefix_self (dir p)) l)
  climb_ends (suc fuel) d p l = elim (Bool-cases (has_prefix (dir p) d)) [
    | inl y ↦ (dir p, rw y refl, within p refl y (has_prefix_self (dir p)) l)
    | inr n ↦ elim (Bool-cases (is_root (dir p))) [
      | inl y ↦ (dir p, rw (n, y) refl, root y)
      | inr m ↦ elim (above p) [
        | at_root e ↦ (dir (dir p), rw (n, m) (climb_root fuel d (dir (dir p)) e), root e)
        | shorter h k ↦
            let (c, e, w) = climb_ends fuel d (dir p) (ground (arith, k, l)) in
            (c, rw (n, m) e, Climbed-up fuel d (dir (dir p)) (dir p) c h w)
      ]
    ]
  ]

  infer_files_ends :
      (fuel : ℕ) (p : String) (fs : List String)
      → text_length (dir p) ≤ fuel
      → (c : String) × (infer_files dir fuel (dir p) fs ≡ some c)
        × ((c ≡ "") ⊎ ((has_prefix c (dir p) ≡ true) × Under dir c fs))
  unfolding infer_files
  infer_files_ends fuel p [] l = (dir p, refl, inr (has_prefix_self (dir p), tt))
  infer_files_ends fuel p (f ∷ fs) l =
      let (c, e, w) = climb_ends fuel (dir f) p l in
      elim (Bool-cases (is_root c)) [
        | inl y ↦ ("", rw (e, y) refl, inl refl)
        | inr n ↦ elim w [
          | root y ↦ absurd (ground (arith, n, y))
          | within q same h k m ↦
              let (r, g, v) =
                infer_files_ends fuel q fs (subst (λ t. text_length t ≤ fuel) same m) in
              let ended : unless_root (climb dir fuel (dir f) (dir p))
                    (λ c. infer_files dir fuel c fs)
                  ≡ some r =
                rw (e, n, same) g in
              elim v [
                | inl x ↦ (r, ended, inl x)
                | inr (x, under) ↦
                    let x' = subst (λ t. has_prefix r t ≡ true) (sym same) x in
                    (
                      r,
                      ended,
                      inr (
                        has_prefix_trans r c (dir p) x' k,
                        (has_prefix_trans r c (dir f) x' h, under),
                      ),
                    )
              ]
        ]
      ]

  -- InferRootDir ends, and what it finds is empty or begins the text of the directory of each file, if
  -- the directory above a directory is `.`, `/` or a shorter beginning of its text.
  pub infer_root_dir_ends :
      (files : List String)
      → (c : String) × (infer_root_dir dir files ≡ some c) × ((c ≡ "") ⊎ Under dir c files)
  unfolding infer_root_dir
  infer_root_dir_ends [] = ("", refl, inl refl)
  infer_root_dir_ends (f ∷ fs) = elim (Bool-cases (dir f == ".")) [
    | inl y ↦ ("", rw y refl, inl refl)
    | inr n ↦
        let (c, e, w) = infer_files_ends (text_length (dir f)) f fs (ground arith) in (c, rw n e, w)
  ]

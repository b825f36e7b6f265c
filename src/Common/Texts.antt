-- ===== src/Common/Texts.antt =====
-- What the program uses of Go's package strings. A text is the list of its code points: where the
-- source counts bytes, the separators in it are ASCII.
use Prim.Native.Nat.{ℕ}
use Prim.Native.Char.{Char, code}
use Prim.Native.String
use Prim.Native.String.{String, [], ◌∷◌}
use mathlib.Core.Path.{◌≡◌}
use mathlib.Core.Logic.{inl, inr}
use mathlib.Core.Bool.{Bool, true, false, ◌&&◌}
use mathlib.Core.List.{List}
use tsgonest.Common.Tests.{nat_eq, if◌then◌else◌, Bool-cases}
use tsgonest.Common.Lists.{All}

infixr 66 ◌<>◌
abbrev pub ◌<>◌ : String → String → String
s <> t = String.◌++◌ s t

-- `strings.HasPrefix(s, p)`, with the prefix first.
unfoldable pub has_prefix : String → String → Bool
has_prefix [] s = true
has_prefix (p ∷ ps) [] = false
has_prefix (p ∷ ps) (c ∷ s) = nat_eq (code p) (code c) && has_prefix ps s

-- A character in front of the first of several texts.
abbrev pub onto_first : Char → List String → List String
onto_first c List.[] = List.◌∷◌ (c ∷ []) List.[]
onto_first c (List.◌∷◌ w ws) = List.◌∷◌ (c ∷ w) ws

-- `strings.Split` at a separator of one character.
unfoldable pub split : ℕ → String → List String
split sep [] = List.◌∷◌ [] List.[]
split sep (c ∷ s) =
    if nat_eq (code c) sep then List.◌∷◌ [] (split sep s) else onto_first c (split sep s)

-- `strings.Join`.
unfoldable pub join : String → List String → String
join sep List.[] = []
join sep (List.◌∷◌ w List.[]) = w
join sep (List.◌∷◌ w (List.◌∷◌ v ws)) = w <> sep <> join sep (List.◌∷◌ v ws)

-- `strings.TrimLeft` and `strings.TrimRight` of one character.
unfoldable pub trim_left : ℕ → String → String
trim_left x [] = []
trim_left x (c ∷ s) = if nat_eq (code c) x then trim_left x s else c ∷ s

abbrev pub onto_trimmed : ℕ → Char → String → String
onto_trimmed x c [] = if nat_eq (code c) x then [] else c ∷ []
onto_trimmed x c (d ∷ t) = c ∷ d ∷ t

unfoldable pub trim_right : ℕ → String → String
trim_right x [] = []
trim_right x (c ∷ s) = onto_trimmed x c (trim_right x s)

-- `strings.Trim`.
unfoldable pub trim : ℕ → String → String
unfolding trim_left trim_right
trim x s = trim_right x (trim_left x s)

-- No character of the text is this one.
abbrev pub Lacks : ℕ → String → Type 0
Lacks x [] = Unit
Lacks x (c ∷ s) = (nat_eq (code c) x ≡ false) × Lacks x s

onto_first-Lacks :
    (x : ℕ) (c : Char) (ws : List String)
    → nat_eq (code c) x ≡ false
    → All (Lacks x) ws
    → All (Lacks x) (onto_first c ws)
onto_first-Lacks x c List.[] e h = ((e, tt), tt)
onto_first-Lacks x c (List.◌∷◌ w ws) e (l, h) = ((e, l), h)

-- A text that lacks a character is split into texts that lack it, whatever the separator.
pub Lacks-split : (x sep : ℕ) (s : String) → Lacks x s → All (Lacks x) (split sep s)
unfolding split
Lacks-split x sep [] h = (tt, tt)
Lacks-split x sep (c ∷ s) (e, h) = elim (Bool-cases (nat_eq (code c) sep)) [
  | inl q ↦ rw q (tt, Lacks-split x sep s h)
  | inr q ↦ rw q (onto_first-Lacks x c (split sep s) e (Lacks-split x sep s h))
]

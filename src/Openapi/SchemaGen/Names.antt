-- ===== src/Openapi/SchemaGen/Names.antt =====
-- How many of the component names that references may ask for are still missing. It is
-- the measure of the schema generator's steps into referenced types.
use tsgonest.Common.{
  ℕ, ◌+◌, ◌≤◌, ◌<◌, String, ◌≡◌, Bool, true, false, List, [], ◌∷◌, ◌==◌, eq_iff, arith,
  if◌then◌else◌,
}
use tsgonest.Common.Lists.{any, length}
use tsgonest.Common.Maps.{has, insert, has-insert, has-insert_mono}
use tsgonest.Openapi.Schema.{Schema}
use tsgonest.Openapi.SchemaGen.Action.{Gen}
use tsgonest.Openapi.SchemaGen.Resolved.{Grows}

unfoldable pub missing : List String → Gen → ℕ
missing [] g = 0
missing (n ∷ ns) g = (if has n g then 0 else 1) + missing ns g

abbrev pub contains : String → List String → Bool
contains name ns = any (λ n. n == name) ns

pub missing-le-length : (ns : List String) (g : Gen) → missing ns g ≤ length ns
unfolding missing
missing-le-length [] g = omega arith
missing-le-length (n ∷ ns) g = ground (arith, missing-le-length ns g)

pub missing-Grows : (ns : List String) (g g' : Gen) → Grows g g' → missing ns g' ≤ missing ns g
unfolding missing
missing-Grows [] g g' h = omega arith
missing-Grows (n ∷ ns) g g' h = ground (arith, missing-Grows ns g g' h, h n)

-- A new name among them is one less to come.
pub missing-insert :
    (ns : List String) (name : String) (s : Schema) (g : Gen)
    → contains name ns ≡ true
    → has name g ≡ false
    → missing ns (insert name s g) < missing ns g
unfolding missing
missing-insert [] name s g c h = absurd (ground arith)
missing-insert (n ∷ ns) name s g c h = ground (
  arith,
  missing-insert ns name s g,
  missing-Grows ns g (insert name s g) (λ j. has-insert_mono name j s g),
  has-insert name n s g,
  eq_iff n name,
  eq_iff name n,
)

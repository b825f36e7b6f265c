-- ===== src/Buildcache/Examples.antt =====
-- Small runs of internal/buildcache/cache.go.
use tsgonest.Common.{
  String, ◌≡◌, refl, true, false, Option, none, some, List, [], ◌∷◌, if◌then◌else◌,
}
use tsgonest.Common.Lists.{All}
use tsgonest.Common.Maps.{has, lookup, insert, is_some}
use tsgonest.Buildcache.{
  Cache, bytes, Disk, written, failed, Faults, parse, load, save, is_valid, new_cache,
}
use tsgonest.Buildcache.Saving.{load-save, is_valid-save}

-- No other bytes are a cache.
abbrev decode : String → Option Cache
decode s = none

abbrev no_faults : Faults
no_faults = record {
  mkdir_fails = false;
  write = written;
  rename_fails = false;
  remove_fails = false;
}

abbrev half_written : Faults
half_written = record no_faults { write = failed (some "{") }

abbrev outputs : List String
outputs = "dist/openapi.json" ∷ []

abbrev built : Disk
built = ("dist/openapi.json", bytes "{}") ∷ []

abbrev hash : String
hash = "h"

abbrev path : String
path = "dist/.tsgonest-cache"

half_written_miss : load decode path (save path (new_cache "h" outputs) half_written built).1 ≡ none
unfolding parse save lookup insert
half_written_miss = refl

load-save_example : load decode path (save path (new_cache "h" outputs) half_written built).1 ≡ (
    if is_some (save path (new_cache "h" outputs) half_written built).0
    then load decode path built
    else some (new_cache "h" outputs))
load-save_example = load-save decode path (new_cache "h" outputs) half_written built

is_valid-save_example :
    (is_valid
          (load decode path (save path (new_cache "h" outputs) no_faults built).1)
          "h"
          (λ p. has p built)
        ≡ true
      → (hash ≡ hash) × All (λ output. has output built ≡ true) outputs)
    × (hash ≡ hash
        → All (λ output. has output built ≡ true) outputs
        → is_valid
            (load decode path (save path (new_cache "h" outputs) no_faults built).1)
            "h"
            (λ p. has p built)
          ≡ true)
unfolding save
is_valid-save_example =
    is_valid-save decode path "h" "h" outputs no_faults built (λ p. has p built) refl

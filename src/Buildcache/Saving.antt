-- ===== src/Buildcache/Saving.antt =====
-- internal/buildcache/cache.go: what Load and IsValid make of a disk after Save.
use text.Mathlib.TextLemmas.{cons-append, cons≢nil, tail-eq_of_cons-eq}
use tsgonest.Common.{
  String, ◌≡◌, ◌∙◌, refl, sym, ap, true, false, Bool, arith, [], ◌∷◌, ◌&&◌, Option, none, some,
  List, ◌==◌, eq_iff, inl, inr, if_cases, Bool-cases, if◌then◌else◌,
}
use tsgonest.Common.Lists.{All}
use tsgonest.Common.Maps.{
  lookup, insert, delete, is_some, lookup-insert, lookup-insert_self, lookup-delete,
}
use tsgonest.Buildcache.{
  Cache, Content, saved, bytes, Disk, Write, written, failed, Faults, SaveError, parse, load, temp,
  rename_into, write_temp, save, all_exist, is_valid, new_cache,
}

temp-longer : (s : String) → temp s ≡ s → ⊥
temp-longer String.[] h = cons≢nil h
temp-longer (String.◌∷◌ c s) h =
    temp-longer s (tail-eq_of_cons-eq (sym (cons-append c s ".tmp") ∙ h))

-- The temporary file is another than the cache.
temp-differs : (path : String) → (temp path == path) ≡ false
temp-differs path = elim (Bool-cases (temp path == path)) [
  | inl e ↦ absurd (temp-longer path ((eq_iff (temp path) path).0 e))
  | inr e ↦ e
]

lookup-insert-temp :
    (path : String) (x : Content) (disk : Disk)
    → lookup path (insert (temp path) x disk) ≡ lookup path disk
lookup-insert-temp path x disk = lookup-insert (temp path) path x disk ∙ rw (temp-differs path) refl

lookup-delete-temp :
    (path : String) (disk : Disk) → lookup path (delete (temp path) disk) ≡ lookup path disk
lookup-delete-temp path disk = lookup-delete (temp path) path disk ∙ rw (temp-differs path) refl

-- What Load reads after a Save.
module _ (decode : String → Option Cache) (path : String) (cache : Cache) (faults : Faults) where
  abbrev Atomic : Disk → Option SaveError × Disk → Type 0
  Atomic disk r = load decode path r.1 ≡ (if is_some r.0 then load decode path disk else some cache)

  rename_into-Atomic :
      (disk : Disk)
      → Atomic disk (rename_into path cache faults (insert (temp path) (saved cache) disk))
  unfolding rename_into parse
  rename_into-Atomic disk =
      let kept = lookup-insert-temp path (saved cache) disk in
      let dropped = lookup-delete-temp path (insert (temp path) (saved cache) disk) in
      if_cases (Atomic disk) faults.rename_fails _ _
        (λ _.
          if_cases (λ d. load decode path d ≡ load decode path disk) faults.remove_fails _ _
            (λ _. ap (parse decode) kept) (λ _. ap (parse decode) (dropped ∙ kept)))
        (λ _. ap (parse decode) (lookup-insert_self path (saved cache) _))

  write_temp-Atomic : (w : Write) (disk : Disk) → Atomic disk (write_temp path cache faults w disk)
  unfolding write_temp
  write_temp-Atomic (failed none) disk = refl
  write_temp-Atomic (failed (some part)) disk =
      ap (parse decode) (lookup-insert-temp path (bytes part) disk)
  write_temp-Atomic written disk = rename_into-Atomic disk

  -- Wherever Save fails, Load reads what it read before; where it returns no error, Load reads the
  -- cache that was saved.
  pub load-save :
      (disk : Disk)
      → load decode path (save path cache faults disk).1
        ≡ (if is_some (save path cache faults disk).0 then load decode path disk else some cache)
  unfolding save
  load-save disk =
      if_cases (Atomic disk) faults.mkdir_fails _ _ (λ _. refl)
        (λ _. write_temp-Atomic faults.write disk)

all_exist-All :
    (paths : List String) (found : String → Bool)
    → (all_exist paths found ≡ true → All (λ path. found path ≡ true) paths)
      × (All (λ path. found path ≡ true) paths → all_exist paths found ≡ true)
unfolding all_exist
all_exist-All [] found = ((λ e. tt), (λ a. refl))
all_exist-All (path ∷ paths) found =
    let (to, from) = all_exist-All paths found in
    ((λ e. (ground (arith, e), to (ground (arith, e)))), λ a. rw (a.0) (from a.1))

is_valid-load :
    (decode : String → Option Cache) (path config_hash current : String) (outputs : List String)
    (faults : Faults) (disk : Disk) (found : String → Bool)
    → (save path (new_cache config_hash outputs) faults disk).0 ≡ none
    → is_valid
        (load decode path (save path (new_cache config_hash outputs) faults disk).1)
        current
        found
      ≡ (config_hash == current && all_exist outputs found)
unfolding is_valid
is_valid-load decode path config_hash current outputs faults disk found h =
    rw (load-save decode path (new_cache config_hash outputs) faults disk, h) refl

-- A cache that New made and Save wrote without an error is valid later, when it is loaded, just when
-- the configuration has the same hash and each output, with no exception, can be found.
pub is_valid-save :
    (decode : String → Option Cache) (path config_hash current : String) (outputs : List String)
    (faults : Faults) (disk : Disk) (found : String → Bool)
    → (save path (new_cache config_hash outputs) faults disk).0 ≡ none
    → (is_valid
            (load decode path (save path (new_cache config_hash outputs) faults disk).1)
            current
            found
          ≡ true
        → (config_hash ≡ current) × All (λ output. found output ≡ true) outputs)
      × (config_hash ≡ current
          → All (λ output. found output ≡ true) outputs
          → is_valid
              (load decode path (save path (new_cache config_hash outputs) faults disk).1)
              current
              found
            ≡ true)
is_valid-save decode path config_hash current outputs faults disk found h =
    let valid = is_valid-load decode path config_hash current outputs faults disk found h in
    let (to, from) = all_exist-All outputs found in
    (
      λ e. (
        (eq_iff config_hash current).0 (ground (arith, e, valid)),
        to (ground (arith, e, valid)),
      ),
      λ same a. valid ∙ ground (arith, (eq_iff config_hash current).1 same, from a),
    )

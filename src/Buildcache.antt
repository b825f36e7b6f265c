-- ===== src/Buildcache.antt =====
-- internal/buildcache/cache.go: the cache of post-processing, on a disk. A file's content is the JSON
-- of a cache, as json.MarshalIndent writes it, or other bytes, which `decode` reads as json.Unmarshal
-- does, into a cache or an error. A file that cannot be read counts as absent.
pub mod Saving
mod Examples
use tsgonest.Common.{
  ℕ, String, Bool, true, false, ◌&&◌, Option, none, some, List, [], ◌∷◌, ◌==◌, nat_eq,
  if◌then◌else◌,
}
use tsgonest.Common.Maps.{Map, lookup, insert, delete, has}
use tsgonest.Common.Texts.{◌<>◌}
use tsgonest.Metadata.{ℤ, pos, negsuc}

pub record Cache : Type 0 where
  pub v : ℤ
  pub config_hash : String
  pub outputs : List String

pub data Content : Type 0 where
  saved : Cache → Content
  bytes : String → Content

abbrev pub Disk : Type 0
Disk = Map Content

-- How os.WriteFile ends: with an error it may leave a part of the content.
pub data Write : Type 0 where
  written : Write
  failed : Option String → Write

-- What the file system does in a call of Save.
pub record Faults : Type 0 where
  pub mkdir_fails : Bool
  pub write : Write
  pub rename_fails : Bool
  pub remove_fails : Bool

-- The errors of Save. The marshalling of a Cache has none.
pub data SaveError : Type 0 where
  creating_directory writing_temp renaming : SaveError

-- `Load`.
unfoldable pub parse : (String → Option Cache) → Option Content → Option Cache
parse decode none = none
parse decode (some (saved c)) = some c
parse decode (some (bytes s)) = decode s

abbrev pub load : (String → Option Cache) → String → Disk → Option Cache
load decode path disk = parse decode (lookup path disk)

abbrev pub temp : String → String
temp path = path <> ".tmp"

abbrev pub left_behind : Option String → String → Disk → Disk
left_behind none tmp disk = disk
left_behind (some part) tmp disk = insert tmp (bytes part) disk

-- `os.Rename`, or the removal of the temporary file where it fails.
unfoldable pub rename_into : String → Cache → Faults → Disk → Option SaveError × Disk
rename_into path cache faults disk =
    if faults.rename_fails
    then (some SaveError.renaming, (if faults.remove_fails then disk else delete (temp path) disk))
    else (none, insert path (saved cache) (delete (temp path) disk))

unfoldable pub write_temp : String → Cache → Faults → Write → Disk → Option SaveError × Disk
unfolding rename_into
write_temp path cache faults (failed part) disk =
    (some SaveError.writing_temp, left_behind part (temp path) disk)
write_temp path cache faults written disk =
    rename_into path cache faults (insert (temp path) (saved cache) disk)

-- `Save`.
unfoldable pub save : String → Cache → Faults → Disk → Option SaveError × Disk
unfolding write_temp
save path cache faults disk =
    if faults.mkdir_fails
    then (some SaveError.creating_directory, disk)
    else write_temp path cache faults faults.write disk

-- `Delete`.
abbrev pub delete_cache : String → Disk → Disk
delete_cache path disk = delete path disk

-- `c.V == SchemaVersion`.
abbrev pub is_schema_version : ℤ → Bool
is_schema_version (pos n) = nat_eq n 1
is_schema_version (negsuc n) = false

-- `found` stands for an os.Stat without an error.
unfoldable pub all_exist : List String → (String → Bool) → Bool
all_exist [] found = true
all_exist (path ∷ paths) found = found path && all_exist paths found

-- `IsValid`, of a nil cache too.
unfoldable pub is_valid : Option Cache → String → (String → Bool) → Bool
unfolding all_exist
is_valid none current found = false
is_valid (some c) current found =
    is_schema_version c.v && (c.config_hash == current && all_exist c.outputs found)

-- `New`.
abbrev pub new_cache : String → List String → Cache
new_cache config_hash outputs = record { v = pos 1; config_hash = config_hash; outputs = outputs }

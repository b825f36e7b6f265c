-- ===== src/Watcher/Examples.antt =====
-- Small runs of internal/watcher/watcher.go.
use tsgonest.Common.{String, ◌≡◌, refl, Bool, true, false, List, [], ◌∷◌, ◌++◌, ◌==◌, if◌then◌else◌}
use tsgonest.Common.Maps.{lookup, has}
use tsgonest.Watcher.{
  Event, FileInfo, Snapshot, Visit, State, start, poll, expire, take, diff, event, build_snapshot,
  ext,
}
use tsgonest.Watcher.Snapshots.{has-build_snapshot}
use tsgonest.Watcher.Delivery.{
  Reached, TimerSteps, started, polled, expired, taken, held, count, count_all, Reached-held,
  Reached-drains,
}

abbrev info : FileInfo
info = record { mod_time = 1; size = 10 }

abbrev later : FileInfo
later = record { mod_time = 2; size = 10 }

abbrev before : Snapshot
before = ("a.ts", info) ∷ ("b.ts", info) ∷ ("c.ts", info) ∷ []

abbrev now : Snapshot
now = ("a.ts", info) ∷ ("b.ts", later) ∷ ("d.ts", info) ∷ []

abbrev changes : List Event
changes = event "b.ts" "write" ∷ event "d.ts" "create" ∷ event "c.ts" "remove" ∷ []

diff-changes : diff before now ≡ changes
unfolding diff lookup
diff-changes = refl

ext_last : ext "src/app.module.ts" ≡ ".ts"
unfolding ext
ext_last = refl

ext_dir : ext "a.b/c" ≡ ""
unfolding ext
ext_dir = refl

abbrev visit : String → Bool → Visit
visit path is_dir = record { path = path; failed = false; is_dir = is_dir; info = info }

abbrev walk : String → List Visit
walk dir =
    if dir == "src"
    then visit "src" true ∷ visit "src/a.ts" false ∷ visit "src/a.js" false ∷ []
    else []

has-build_snapshot_example : has "src/a.ts" (build_snapshot walk ("src" ∷ []) (".ts" ∷ [])) ≡ true
unfolding build_snapshot ext
has-build_snapshot_example = has-build_snapshot walk ("src" ∷ []) (".ts" ∷ []) "src/a.ts"

-- A change is found, the timer fires, a second change is found before the function takes the lock.
abbrev after_run : State
after_run = take (poll before (expire (poll now (start before))))

run : Reached before (([] ++ diff before now) ++ diff now before) after_run
unfolding poll expire diff lookup
run = taken (polled before (expired (polled now started refl)) refl)

abbrev is_write : Event → Bool
is_write e = e.op == "write"

Reached-held_example :
    held is_write after_run ≡ count is_write (([] ++ diff before now) ++ diff now before)
Reached-held_example =
    Reached-held is_write before (([] ++ diff before now) ++ diff now before) after_run run

Reached-drains_example :
    (s' : State) × TimerSteps after_run s'
    × ((p : Event → Bool)
        → count_all p s'.delivered ≡ count p (([] ++ diff before now) ++ diff now before))
Reached-drains_example =
    Reached-drains before (([] ++ diff before now) ++ diff now before) after_run run

-- ===== src/Watcher.antt =====
-- internal/watcher/watcher.go: polling for file changes, and the debounced delivery of the events.
-- The file system is a parameter: `walk dir` lists what filepath.Walk visits under a directory. A
-- modification time is a number that only equality is asked of.
pub mod Snapshots
pub mod Diff
pub mod Delivery
mod Examples
use Prim.Native.Char.{code}
use Prim.Native.String.{String, [], ◌∷◌}
use mathlib.Core.List.{List, ◌++◌}
use tsgonest.Common.{
  ℕ, zero, suc, ◌≡◌, Bool, true, false, not, ◌&&◌, ◌||◌, Option, none, some, ◌==◌, nat_eq,
  if◌then◌else◌,
}
use tsgonest.Common.Lists.{any, is_empty}
use tsgonest.Common.Maps.{Map, lookup, insert, has}

pub record Event : Type 0 where
  pub path : String
  pub op : String

pub record FileInfo : Type 0 where
  pub mod_time : ℕ
  pub size : ℕ

abbrev pub Snapshot : Type 0
Snapshot = Map FileInfo

-- A call of the function that is given to filepath.Walk.
pub record Visit : Type 0 where
  pub path : String
  pub failed : Bool
  pub is_dir : Bool
  pub info : FileInfo

has_slash : String → Bool
has_slash [] = false
has_slash (c ∷ s) = nat_eq (code c) b'/' || has_slash s

-- `filepath.Ext`: from the last dot of the last element on.
unfoldable pub ext : String → String
unfolding has_slash
ext [] = ""
ext (c ∷ s) =
    let rest = ext s in
    if nat_eq (code c) b'.' && (rest == "" && not (has_slash s)) then c ∷ s else rest

-- What the visit puts into the snapshot.
unfoldable pub is_watched : List String → Visit → Bool
is_watched extensions v = not (v.failed || v.is_dir) && any (λ e. ext v.path == e) extensions

unfoldable pub add_visits : List String → List Visit → Snapshot → Snapshot
add_visits extensions List.[] snap = snap
add_visits extensions (List.◌∷◌ v vs) snap =
    if is_watched extensions v
    then add_visits extensions vs (insert v.path v.info snap)
    else add_visits extensions vs snap

unfoldable pub add_dirs : (String → List Visit) → List String → List String → Snapshot → Snapshot
add_dirs walk extensions List.[] snap = snap
add_dirs walk extensions (List.◌∷◌ dir dirs) snap =
    add_dirs walk extensions dirs (add_visits extensions (walk dir) snap)

-- `buildSnapshot`.
unfoldable pub build_snapshot : (String → List Visit) → List String → List String → Snapshot
unfolding add_dirs add_visits is_watched
build_snapshot walk dirs extensions = add_dirs walk extensions dirs List.[]

abbrev pub is_changed : FileInfo → FileInfo → Bool
is_changed old new = not (nat_eq new.mod_time old.mod_time) || not (nat_eq new.size old.size)

abbrev pub event : String → String → Event
event path op = record { path = path; op = op }

-- The body of the loop over the new snapshot, where the old one has `old_info` for the path.
unfoldable pub new_event : String → Option FileInfo → FileInfo → List Event
new_event path none new_info = List.◌∷◌ (event path "create") List.[]
new_event path (some old_info) new_info =
    if is_changed old_info new_info then List.◌∷◌ (event path "write") List.[] else List.[]

unfoldable pub new_events : Snapshot → Snapshot → List Event
unfolding new_event
new_events old List.[] = List.[]
new_events old (List.◌∷◌ (path, info) more) =
    new_event path (lookup path old) info ++ new_events old more

unfoldable pub removed_events : Snapshot → Snapshot → List Event
removed_events new List.[] = List.[]
removed_events new (List.◌∷◌ (path, info) more) =
    let rest = removed_events new more in
    if has path new then rest else List.◌∷◌ (event path "remove") rest

-- `diff`.
unfoldable pub diff : Snapshot → Snapshot → List Event
unfolding new_events removed_events
diff old new = new_events old new ++ removed_events new old

-- The state of a running Watcher. `watching`: the stop channel is open. `looping`: Watch has not
-- returned. `armed`: the timer is set. `waiting`: how many timer functions
-- run and have not taken the lock yet; Stop of the timer does not reach them. `in_flight`: what such
-- functions took and are about to hand to onChange. `delivered`: the calls of onChange so far.
pub record State : Type 0 where
  pub watching : Bool
  pub looping : Bool
  pub snapshot : Snapshot
  pub pending : List Event
  pub armed : Bool
  pub waiting : ℕ
  pub in_flight : List (List Event)
  pub delivered : List (List Event)

abbrev pub start : Snapshot → State
start snapshot = record {
  watching = true;
  looping = true;
  snapshot = snapshot;
  pending = List.[];
  armed = false;
  waiting = zero;
  in_flight = List.[];
  delivered = List.[];
}

-- A tick of the poll: the timer is stopped, if it was set, and set again.
unfoldable pub poll : Snapshot → State → State
unfolding diff
poll new s =
    let events = diff s.snapshot new in
    if is_empty events
    then record s { snapshot = new }
    else record s { snapshot = new; pending = s.pending ++ events; armed = true }

-- The timer fires: its function starts.
unfoldable pub expire : State → State
expire s = if s.armed then record s { armed = false; waiting = suc s.waiting } else s

-- A timer function has the lock, one of so many that wait: it takes what is pending.
unfoldable pub take_one : ℕ → State → State
take_one zero s = s
take_one (suc n) s =
    if is_empty s.pending
    then record s { waiting = n }
    else record s { waiting = n; pending = List.[]; in_flight = List.◌∷◌ s.pending s.in_flight }

unfoldable pub take : State → State
unfolding take_one
take s = take_one s.waiting s

-- `Stop`; a tick that is ready may still be taken before Watch returns.
abbrev pub stop : State → State
stop s = record s { watching = false }

-- The stop case of the loop.
unfoldable pub finish : State → State
finish s = if s.watching then s else record s { looping = false }

-- ===== src/Watcher/Diff.antt =====
-- internal/watcher/watcher.go, diff: the events between two snapshots.
use tsgonest.Common.{String, Bool, false, ◌&&◌, Option, none, some, ◌==◌}
use tsgonest.Watcher.{Event, FileInfo, is_changed}

abbrev pub is_event : String → String → Event → Bool
is_event path op e = e.path == path && e.op == op

-- The operation that leads from what was known of a path to what is.
abbrev pub explains : String → Option FileInfo → Option FileInfo → Bool
explains op none none = false
explains op none (some new) = "create" == op
explains op (some old) none = "remove" == op
explains op (some old) (some new) = is_changed old new && "write" == op

new_side : String → Option FileInfo → Option FileInfo → Bool
new_side op old none = false
new_side op old (some new) = explains op old (some new)

old_side : String → Option FileInfo → Option FileInfo → Bool
old_side op (some old) none = "remove" == op
old_side op _ _ = false

-- ===== src/Watcher/Snapshots.antt =====
-- internal/watcher/watcher.go, buildSnapshot: which files a snapshot holds.
use tsgonest.Common.{
  String, ◌≡◌, Bool, not, inl, inr, eq_iff, Bool-cases, ◌&&◌, ◌||◌, List, [], ◌∷◌, ◌==◌, arith,
}
use tsgonest.Common.Lists.{any}
use tsgonest.Common.Maps.{lookup, has, insert, has-insert}
use tsgonest.Watcher.{Snapshot, Visit, ext, is_watched, add_visits, add_dirs, build_snapshot}

-- A visit of this path as a file, without an error, with one of the extensions.
abbrev pub watches : List String → String → Visit → Bool
watches extensions path v =
    v.path == path && not v.failed && not v.is_dir && any (λ e. ext path == e) extensions

is_watched-watches :
    (extensions : List String) (path : String) (v : Visit)
    → watches extensions path v ≡ (is_watched extensions v && v.path == path)
unfolding is_watched
is_watched-watches extensions path v = elim (Bool-cases (v.path == path)) [
  | inl e ↦ rw (← (eq_iff v.path path).0 e) (ground arith)
  | inr e ↦ rw e (ground arith)
]

abbrev pub watched_under : (String → List Visit) → List String → String → String → Bool
watched_under walk extensions path dir = any (watches extensions path) (walk dir)

has-add_visits :
    (extensions : List String) (path : String) (vs : List Visit) (snap : Snapshot)
    → has path (add_visits extensions vs snap) ≡ (has path snap || any (watches extensions path) vs)
unfolding add_visits
has-add_visits extensions path [] snap = ground arith
has-add_visits extensions path (v ∷ vs) snap =
    let skipped = has-add_visits extensions path vs snap in
    let added = has-add_visits extensions path vs (insert v.path v.info snap) in
    let written = has-insert v.path path v.info snap in
    let counted = is_watched-watches extensions path v in
    ground (arith, skipped, added, written, counted)

has-add_dirs :
    (walk : String → List Visit) (extensions : List String) (path : String) (dirs : List String)
    (snap : Snapshot)
    → has path (add_dirs walk extensions dirs snap)
      ≡ (has path snap || any (watched_under walk extensions path) dirs)
unfolding add_dirs
has-add_dirs walk extensions path [] snap = ground arith
has-add_dirs walk extensions path (dir ∷ dirs) snap =
    let rest = has-add_dirs walk extensions path dirs (add_visits extensions (walk dir) snap) in
    let first = has-add_visits extensions path (walk dir) snap in ground (arith, rest, first)

-- A path is in the snapshot just when some directory's walk visits it as a file, without an error,
-- and its extension is one of those that are watched.
pub has-build_snapshot :
    (walk : String → List Visit) (dirs extensions : List String) (path : String)
    → has path (build_snapshot walk dirs extensions) ≡ any (watched_under walk extensions path) dirs
unfolding build_snapshot lookup
has-build_snapshot walk dirs extensions path = has-add_dirs walk extensions path dirs []

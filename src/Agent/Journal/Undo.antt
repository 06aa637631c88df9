-- ===== src/Agent/Journal/Undo.antt =====
-- agent/file_journal.rs: restoring files from snapshots.
use piscis_engine.Prelude.{
  Bool, true, false, not, ◌&&◌, Option, none, some, List, [], ◌∷◌, any, keep, map, if◌then◌else◌,
  Text, text_eq,
}
use piscis_engine.Agent.Journal.{
  Snapshot, Journal, Disk, with_rows, with_undone, update_rows, is_live_in, is_reviewed_in,
}

abbrev pub with_bytes : Disk → Text → Option Text → Disk
with_bytes disk file bytes = record {
  bytes = λ f. if text_eq file f then bytes else disk.bytes f;
  readable = disk.readable;
  writable = disk.writable;
}

-- `std::fs::write`: no disk if it fails.
unfoldable pub write_file : Disk → Text → Text → Option Disk
write_file disk file bytes =
    if disk.writable file then some (with_bytes disk file (some bytes)) else none

-- `std::fs::remove_file`, whose failure is ignored.
unfoldable pub remove_file : Disk → Text → Disk
remove_file disk file = if disk.writable file then with_bytes disk file none else disk

-- The rows of a turn, or of a review, that an undo reads.
abbrev pub is_undoable_in : Text → Text → Snapshot → Bool
is_undoable_in session turn r = is_live_in session r && text_eq r.turn_id turn

-- The first row of each path.
unfoldable pub firsts : List Text → List Snapshot → List Snapshot
firsts seen [] = []
firsts seen (r ∷ rows) =
    let later = firsts (r.rel_path ∷ seen) rows in
    let same = firsts seen rows in if any (text_eq r.rel_path) seen then same else r ∷ later

abbrev pub is_wanted : Option (List Text) → Snapshot → Bool
is_wanted none r = true
is_wanted (some paths) r = any (text_eq r.rel_path) paths

-- What an undo leaves; without an answer, a restore has failed and no row is marked.
pub record Undone : Type 0 where
  pub restored : Option (List Text)
  pub journal : Journal
  pub disk : Disk

-- An earlier state of the file; no disk if the write fails.
unfoldable pub restore_file : (existed : Bool) → (before : Option Text) → Text → Disk → Option Disk
unfolding write_file remove_file
restore_file true none file disk = some disk
restore_file true (some bytes) file disk = write_file disk file bytes
restore_file false before file disk = some (remove_file disk file)

module _ (absolute : Text → Text) where
  unfoldable pub restore : Snapshot → Disk → Option Disk
  unfolding restore_file
  restore r disk = restore_file r.existed r.before (absolute r.rel_path) disk

  -- The loop of restores: the disk that it leaves, and whether it came to its end.
  unfoldable pub restore_all : List Snapshot → Disk → Bool × Disk
  restore_all [] disk = (true, disk)
  restore_all (r ∷ rows) disk = elim (restore r disk) [
    | none ↦ (false, disk)
    | some disk' ↦ restore_all rows disk'
  ]

  abbrev pub undone_by : Bool × Disk → List Text → List Snapshot → Journal → Undone
  undone_by (true, disk) paths marked j = record {
    restored = some paths;
    journal = with_rows j marked;
    disk = disk;
  }
  undone_by (false, disk) paths marked j = record { restored = none; journal = j; disk = disk }

  abbrev pub paths_of : List Snapshot → List Text
  paths_of = map (λ r. r.rel_path)

  unfoldable pub undo_turn : Text → Text → Journal → Disk → Undone
  unfolding firsts restore_all
  undo_turn session turn j disk =
      let targets = firsts [] (keep (is_undoable_in session turn) j.rows) in
      undone_by (restore_all targets disk) (paths_of targets)
        (update_rows (λ r. text_eq r.session_id session && (text_eq r.turn_id turn && r.applied))
          with_undone j.rows)
        j

  unfoldable pub undo_paths : Text → Option (List Text) → Journal → Disk → Undone
  unfolding firsts restore_all
  undo_paths session paths j disk =
      let targets = firsts [] (keep (λ r. is_reviewed_in session r && is_wanted paths r) j.rows) in
      undone_by (restore_all targets disk) (paths_of targets)
        (update_rows
          (λ r.
            text_eq r.session_id session
            && (any (text_eq r.rel_path) (paths_of targets) && (r.applied && not r.kept)))
          with_undone j.rows)
        j

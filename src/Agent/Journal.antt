-- ===== src/Agent/Journal.antt =====
-- agent/file_journal.rs: the snapshots that are taken before a tool edits a file, and the undo of a
-- turn or of the changes under review.
pub mod Paths
pub mod Undo
pub mod Turns
pub mod Restored
use piscis_engine.Prelude.{
  ℕ, suc, ◌+◌, Bool, true, false, not, ◌&&◌, ◌||◌, Option, none, some, List, [], ◌∷◌, ◌++◌, ◌==◌,
  any, keep, map, find, count, if◌then◌else◌, Text, text, text_eq, is_some_text,
}

-- A row of `file_snapshots`.
pub record Snapshot : Type 0 where
  pub id : ℕ
  pub session_id : Text
  pub turn_id : Text
  pub tool_use_id : Text
  pub tool_name : Text
  pub rel_path : Text
  pub existed : Bool
  pub before : Option Text
  pub applied : Bool
  pub undone : Bool
  pub kept : Bool

-- `FileJournal`, with its rows in the order of their ids.
pub record Journal : Type 0 where
  pub rows : List Snapshot
  pub next_id : ℕ
  pub current_turn : Option Text

-- The files: the bytes of those that exist, which can be read, and where a write succeeds.
pub record Disk : Type 0 where
  pub bytes : Text → Option Text
  pub readable : Text → Bool
  pub writable : Text → Bool

-- `std::fs::read`, which fails on a file that is not there and on one that cannot be read.
unfoldable pub read_file : Disk → Text → Option Text
read_file disk file = if disk.readable file then disk.bytes file else none

-- `ToolHookEvent`, with the input's `path`.
pub record ToolEvent : Type 0 where
  pub tool_use_id : Text
  pub tool_name : Text
  pub path : Option Text

unfoldable pub is_snapshot_tool : Text → Bool
is_snapshot_tool name = text_eq name (text "file_write") || text_eq name (text "file_edit")

unfoldable pub begin_turn : Text → Journal → Journal
begin_turn turn j = record { rows = j.rows; next_id = j.next_id; current_turn = some turn }

abbrev pub is_file : Option Text → Bool
is_file none = false
is_file (some b) = true

abbrev pub with_rows : Journal → List Snapshot → Journal
with_rows j rows = record { rows = rows; next_id = j.next_id; current_turn = j.current_turn }

abbrev pub with_applied : Snapshot → Snapshot
with_applied r = record {
  id = r.id;
  session_id = r.session_id;
  turn_id = r.turn_id;
  tool_use_id = r.tool_use_id;
  tool_name = r.tool_name;
  rel_path = r.rel_path;
  existed = r.existed;
  before = r.before;
  applied = true;
  undone = r.undone;
  kept = r.kept;
}

abbrev pub with_undone : Snapshot → Snapshot
with_undone r = record {
  id = r.id;
  session_id = r.session_id;
  turn_id = r.turn_id;
  tool_use_id = r.tool_use_id;
  tool_name = r.tool_name;
  rel_path = r.rel_path;
  existed = r.existed;
  before = r.before;
  applied = r.applied;
  undone = true;
  kept = r.kept;
}

abbrev pub with_kept : Snapshot → Snapshot
with_kept r = record {
  id = r.id;
  session_id = r.session_id;
  turn_id = r.turn_id;
  tool_use_id = r.tool_use_id;
  tool_name = r.tool_name;
  rel_path = r.rel_path;
  existed = r.existed;
  before = r.before;
  applied = r.applied;
  undone = r.undone;
  kept = true;
}

-- `tool_use_id = ?1 AND applied = 0`.
abbrev pub is_pending_for : Text → Snapshot → Bool
is_pending_for tool_use r = text_eq r.tool_use_id tool_use && not r.applied

-- The effect of a row-wise `UPDATE`.
abbrev pub update_rows : (Snapshot → Bool) → (Snapshot → Snapshot) → List Snapshot → List Snapshot
update_rows p f = map (λ r. if p r then f r else r)

unfoldable pub finalize : ToolEvent → Bool → Journal → Journal
finalize ev ok j = with_rows j (
    if ok
    then update_rows (is_pending_for ev.tool_use_id) with_applied j.rows
    else keep (λ r. not (is_pending_for ev.tool_use_id r)) j.rows)

-- `applied = 1 AND undone = 0`, in a session.
abbrev pub is_live_in : Text → Snapshot → Bool
is_live_in session r = text_eq r.session_id session && (r.applied && not r.undone)

-- The last such row's turn.
abbrev pub last_turn : List Snapshot → Option Text
last_turn [] = none
last_turn (r ∷ []) = some r.turn_id
last_turn (r ∷ s ∷ rows) = last_turn (s ∷ rows)

unfoldable pub latest_turn_with_changes : Text → Journal → Option Text
latest_turn_with_changes session j = last_turn (keep (is_live_in session) j.rows)

-- `applied = 1 AND undone = 0 AND kept = 0`, in a session.
abbrev pub is_reviewed_in : Text → Snapshot → Bool
is_reviewed_in session r = is_live_in session r && not r.kept

unfoldable pub keep_path : Text → Text → List Snapshot → List Snapshot
keep_path session path =
    update_rows (λ r. is_reviewed_in session r && text_eq r.rel_path path) with_kept

-- The loop over the paths, with the number of rows that it keeps.
unfoldable pub keep_each : Text → List Text → List Snapshot → ℕ × List Snapshot
unfolding keep_path
keep_each session [] rows = (0, rows)
keep_each session (path ∷ paths) rows =
    let n = count (λ r. is_reviewed_in session r && text_eq r.rel_path path) rows in
    let (m, kept) = keep_each session paths (keep_path session path rows) in (n + m, kept)

unfoldable pub keep_paths : Text → Option (List Text) → Journal → ℕ × Journal
unfolding keep_each
keep_paths session none j = (
  count (is_reviewed_in session) j.rows,
  with_rows j (update_rows (is_reviewed_in session) with_kept j.rows),
)
keep_paths session (some paths) j =
    let (n, rows) = keep_each session paths j.rows in (n, with_rows j rows)

-- `relative` is `rel_path` with the workspace's root, and `absolute` is the file that the operating
-- system finds at `abs_path`.
module _ (relative absolute : Text → Text) where
  -- The row of an event, from what can be read at its path.
  abbrev pub new_snapshot : ℕ → Text → Text → ToolEvent → Text → Option Text → Snapshot
  new_snapshot id session turn ev rel before = record {
    id = id;
    session_id = session;
    turn_id = turn;
    tool_use_id = ev.tool_use_id;
    tool_name = ev.tool_name;
    rel_path = rel;
    existed = is_file before;
    before = before;
    applied = false;
    undone = false;
    kept = false;
  }

  unfoldable pub insert_snapshot : Text → Text → Text → ToolEvent → Disk → Journal → Journal
  unfolding read_file
  insert_snapshot session turn raw ev disk j = record {
    rows =
        j.rows
        ++ new_snapshot j.next_id session turn ev (relative raw)
            (read_file disk (absolute (relative raw)))
          ∷ [];
    next_id = suc j.next_id;
    current_turn = j.current_turn;
  }

  -- Without a turn, or without a path, nothing is recorded.
  unfoldable pub snapshot_in :
      Option Text → Option Text → Text → ToolEvent → Disk → Journal → Journal
  unfolding insert_snapshot
  snapshot_in none path session ev disk j = j
  snapshot_in (some turn) none session ev disk j = j
  snapshot_in (some turn) (some raw) session ev disk j = insert_snapshot session turn raw ev disk j

  unfoldable pub snapshot_before : Text → ToolEvent → Disk → Journal → Journal
  unfolding snapshot_in
  snapshot_before session ev disk j = snapshot_in j.current_turn ev.path session ev disk j

  unfoldable pub before_tool : Text → ToolEvent → Disk → Journal → Journal
  unfolding is_snapshot_tool snapshot_before
  before_tool session ev disk j =
      if is_snapshot_tool ev.tool_name then snapshot_before session ev disk j else j

unfoldable pub after_tool : ToolEvent → Bool → Journal → Journal
unfolding is_snapshot_tool finalize
after_tool ev ok j = if is_snapshot_tool ev.tool_name then finalize ev ok j else j

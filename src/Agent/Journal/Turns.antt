-- ===== src/Agent/Journal/Turns.antt =====
-- A turn of edits under the hooks of agent/file_journal.rs.
pub mod Kept
use mathlib.Core.Option.{some-injective, none-ne-some}
use piscis_engine.Prelude.{
  ◌≡◌, refl, ap, ◌∙◌, inl, inr, Bool-cases, ℕ, Bool, true, false, not, ◌&&◌, Option, none, some,
  List, [], ◌∷◌, ◌++◌, all, find, keep, if◌then◌else◌, Text, text_eq, text_eq_refl, text_eq_sound,
  arith,
}
use piscis_engine.Agent.Journal.{
  Snapshot, Journal, Disk, ToolEvent, read_file, is_file, with_applied, is_pending_for, update_rows,
  finalize, is_snapshot_tool, new_snapshot, insert_snapshot, snapshot_before, snapshot_in,
  before_tool, after_tool,
}
use piscis_engine.Agent.Journal.Undo.{with_bytes}
use piscis_engine.Agent.Journal.Paths.{is_plain}

-- A call of a tool that edits a file, in the session of the turn: the event, and the file's new
-- content if the tool succeeds; a tool that fails changes no file.
pub record Edit : Type 0 where
  pub event : ToolEvent
  pub content : Option Text

-- `target` is the file at the path that the tool uses.
module _ (relative absolute target : Text → Text) where
  abbrev pub edited : Edit → Disk → Disk
  edited e disk = elim e.content [
    | none ↦ disk
    | some bytes ↦ elim e.event.path [
      | none ↦ disk
      | some raw ↦ with_bytes disk (target raw) (some bytes)
    ]
  ]

  -- The hook before the tool, the tool, and the hook after it.
  unfoldable pub run_edit : Text → Edit → Journal × Disk → Journal × Disk
  run_edit session e (j, disk) = (
    after_tool e.event (is_file e.content) (before_tool relative absolute session e.event disk j),
    edited e disk,
  )

  unfoldable pub run_edits : Text → List Edit → Journal × Disk → Journal × Disk
  unfolding run_edit
  run_edits session [] s = s
  run_edits session (e ∷ edits) s = run_edits session edits (run_edit session e s)

-- Whether a row is of the turn.
abbrev pub is_of : Text → Text → Snapshot → Bool
is_of session turn r = text_eq r.session_id session && text_eq r.turn_id turn

abbrev pub before_or : Option Snapshot → Option Text → Option Text
before_or none now = now
before_or (some r) now = r.before

-- Whether the snapshot of a path is of the file that the tool uses, under a plain path.
abbrev pub is_followed : (relative absolute target : Text → Text) → Text → Bool
is_followed relative absolute target raw =
    text_eq (target raw) (absolute (relative raw)) && is_plain (relative raw)

abbrev pub path_followed : (relative absolute target : Text → Text) → Option Text → Bool
path_followed relative absolute target none = true
path_followed relative absolute target (some raw) = is_followed relative absolute target raw

-- What the turn's rows say of a file: the first one's content, or else the content that it has now.
abbrev pub original : List Snapshot → (Text → Text) → Disk → Text → Option Text
original rows absolute disk f =
    before_or (find (λ r. text_eq (absolute r.rel_path) f) rows) (disk.bytes f)

-- A row that can be undone to what it says.
abbrev pub is_sound : Snapshot → Bool
is_sound r =
    (r.applied && not r.undone)
    && ((if r.existed then is_file r.before else not (is_file r.before)) && is_plain r.rel_path)

module _ (session turn : Text) where
  abbrev pub rows_of : List Snapshot → List Snapshot
  rows_of = keep (is_of session turn)

  -- Marking or dropping the rows that wait for a tool changes no row that is applied.
  applied_rows_of :
      (u : Text) (rows : List Snapshot)
      → all is_sound (rows_of rows) ≡ true
      → rows_of (update_rows (is_pending_for u) with_applied rows) ≡ rows_of rows
  applied_rows_of u [] h = refl
  applied_rows_of u (r ∷ rows) h = ground (arith, applied_rows_of u rows)

  dropped_rows_of :
      (u : Text) (rows : List Snapshot)
      → all is_sound (rows_of rows) ≡ true
      → rows_of (keep (λ r. not (is_pending_for u r)) rows) ≡ rows_of rows
  dropped_rows_of u [] h = refl
  dropped_rows_of u (r ∷ rows) h = ground (arith, dropped_rows_of u rows)

  applied_new_row :
      (rows : List Snapshot) (r : Snapshot)
      → all is_sound (rows_of rows) ≡ true
      → is_of session turn r ≡ true
      → r.applied ≡ false
      → rows_of (update_rows (is_pending_for r.tool_use_id) with_applied (rows ++ r ∷ []))
        ≡ rows_of rows ++ with_applied r ∷ []
  applied_new_row [] r h o a = ground (arith, text_eq_refl r.tool_use_id)
  applied_new_row (x ∷ rows) r h o a = ground (arith, applied_new_row rows r)

  dropped_new_row :
      (rows : List Snapshot) (r : Snapshot)
      → all is_sound (rows_of rows) ≡ true
      → r.applied ≡ false
      → rows_of (keep (λ x. not (is_pending_for r.tool_use_id x)) (rows ++ r ∷ [])) ≡ rows_of rows
  dropped_new_row [] r h a = ground (arith, text_eq_refl r.tool_use_id)
  dropped_new_row (x ∷ rows) r h a = ground (arith, dropped_new_row rows r)

-- A first edit of a file is undone to its content before the edit.
original-append :
    (rows : List Snapshot) (r : Snapshot) (absolute : Text → Text) (disk : Disk) (b : Option Text)
    (f : Text)
    → r.before ≡ disk.bytes (absolute r.rel_path)
    → original (rows ++ r ∷ []) absolute (with_bytes disk (absolute r.rel_path) b) f
      ≡ original rows absolute disk f
original-append [] r absolute disk b f e = elim (Bool-cases (text_eq (absolute r.rel_path) f)) [
  | inl c ↦ rw c (e ∙ ap disk.bytes (text_eq_sound (absolute r.rel_path) f c))
  | inr c ↦ rw c refl
]
original-append (x ∷ rows) r absolute disk b f e =
    elim (Bool-cases (text_eq (absolute x.rel_path) f)) [
      | inl c ↦ rw c refl
      | inr c ↦ rw c (original-append rows r absolute disk b f e)
    ]

-- What the edits of a turn keep, from a disk on which any file can be read and written.
pub record IsTurn (session turn : Text) (absolute : Text → Text) (start : Disk) (j : Journal)
    (disk : Disk) : Type 0 where
  pub current : j.current_turn ≡ some turn
  pub sound : all is_sound (rows_of session turn j.rows) ≡ true
  pub origin : (f : Text) → original (rows_of session turn j.rows) absolute disk f ≡ start.bytes f
  pub reads : (f : Text) → disk.readable f ≡ true
  pub writes : (f : Text) → disk.writable f ≡ true

append_sound :
    (rows : List Snapshot) (r : Snapshot)
    → all is_sound rows ≡ true
    → is_sound r ≡ true
    → all is_sound (rows ++ r ∷ []) ≡ true
append_sound [] r h e = ground (arith, e)
append_sound (x ∷ rows) r h e = ground (arith, append_sound rows r)

new_sound :
    (id : ℕ) (session turn : Text) (ev : ToolEvent) (rel : Text) (before : Option Text)
    (relative absolute : Text → Text)
    → is_plain rel ≡ true
    → is_sound (with_applied (new_snapshot relative absolute id session turn ev rel before)) ≡ true
new_sound id session turn ev rel none relative absolute plain = plain
new_sound id session turn ev rel (some b) relative absolute plain = plain

-- ===== src/Agent/Journal/Turns/Kept.antt =====
-- What each call of a turn of agent/file_journal.rs keeps.
use mathlib.Core.Option.{some-injective, none-ne-some}
use piscis_engine.Prelude.{
  ◌≡◌, refl, ◌∙◌, Bool, true, false, Option, none, some, List, [], ◌∷◌, all, Text, text_eq_refl,
  text_eq_sound, arith,
}
use piscis_engine.Agent.Journal.{
  Snapshot, Journal, Disk, ToolEvent, read_file, is_file, with_applied, finalize, is_snapshot_tool,
  new_snapshot, insert_snapshot, snapshot_before, snapshot_in, before_tool, after_tool,
}
use piscis_engine.Agent.Journal.Undo.{with_bytes}
use piscis_engine.Agent.Journal.Turns.{
  Edit, run_edit, run_edits, is_of, is_followed, path_followed, rows_of, applied_rows_of,
  dropped_rows_of, applied_new_row, dropped_new_row, original-append, IsTurn, append_sound,
  new_sound,
}

module _ (session turn : Text) (relative absolute target : Text → Text) (start : Disk) where
  own_row : (r : Snapshot) → r.session_id ≡ session → r.turn_id ≡ turn → is_of session turn r ≡ true
  own_row r e h = rw (e, h) (ground (arith, text_eq_refl session, text_eq_refl turn))

  -- An edit with a path that succeeds: the row that it adds is the turn's, and is applied.
  success-IsTurn :
      (ev : ToolEvent) (raw b : Text) (j : Journal) (disk : Disk)
      → is_followed relative absolute target raw ≡ true
      → IsTurn session turn absolute start j disk
      → IsTurn session turn absolute start
          (finalize ev true (insert_snapshot relative absolute session turn raw ev disk j))
          (with_bytes disk (target raw) (some b))
  unfolding finalize insert_snapshot read_file
  success-IsTurn ev raw b j disk follows h =
      let there : target raw ≡ absolute (relative raw) =
        text_eq_sound (target raw) (absolute (relative raw)) (ground (arith, follows)) in
      let rel = relative raw in
      let new =
        new_snapshot relative absolute j.next_id session turn ev rel
          (read_file disk (absolute rel)) in
      let same = applied_new_row session turn j.rows new h.sound (own_row new refl refl) refl in
      rw there (record {
        current = h.current;
        sound = rw same (
            append_sound (rows_of session turn j.rows) (with_applied new) h.sound (
              new_sound j.next_id session turn ev rel (read_file disk (absolute rel)) relative
                absolute (ground (arith, follows))));
        origin = λ f. rw same (
            original-append (rows_of session turn j.rows) (with_applied new) absolute disk (some b)
              f (rw (h.reads (absolute rel)) refl)
            ∙ h.origin f);
        reads = h.reads;
        writes = h.writes;
      })

  -- One that fails: its row is dropped again.
  failure-IsTurn :
      (ev : ToolEvent) (raw : Text) (j : Journal) (disk : Disk)
      → IsTurn session turn absolute start j disk
      → IsTurn session turn absolute start
          (finalize ev false (insert_snapshot relative absolute session turn raw ev disk j))
          disk
  unfolding finalize insert_snapshot
  failure-IsTurn ev raw j disk h =
      let rel = relative raw in
      let new =
        new_snapshot relative absolute j.next_id session turn ev rel
          (read_file disk (absolute rel)) in
      let same = dropped_new_row session turn j.rows new h.sound refl in
      record {
        current = h.current;
        sound = rw same h.sound;
        origin = λ f. rw same (h.origin f);
        reads = h.reads;
        writes = h.writes;
      }

  -- One without a path adds no row.
  pathless-IsTurn :
      (ev : ToolEvent) (ok : Bool) (j : Journal) (disk : Disk)
      → IsTurn session turn absolute start j disk
      → IsTurn session turn absolute start (finalize ev ok j) disk
  unfolding finalize
  pathless-IsTurn ev true j disk h =
      let same = applied_rows_of session turn ev.tool_use_id j.rows h.sound in
      record {
        current = h.current;
        sound = rw same h.sound;
        origin = λ f. rw same (h.origin f);
        reads = h.reads;
        writes = h.writes;
      }
  pathless-IsTurn ev false j disk h =
      let same = dropped_rows_of session turn ev.tool_use_id j.rows h.sound in
      record {
        current = h.current;
        sound = rw same h.sound;
        origin = λ f. rw same (h.origin f);
        reads = h.reads;
        writes = h.writes;
      }

  snapshot-IsTurn :
      (ev : ToolEvent) (content path current : Option Text) (j : Journal) (disk : Disk)
      → current ≡ some turn
      → path_followed relative absolute target path ≡ true
      → IsTurn session turn absolute start j disk
      → IsTurn session turn absolute start
          (finalize ev
            (is_file content)
            (snapshot_in relative absolute current path session ev disk j))
          (elim content [
            | none ↦ disk
            | some bytes ↦ elim path [
              | none ↦ disk
              | some raw ↦ with_bytes disk (target raw) (some bytes)
            ]
          ])
  unfolding snapshot_in
  snapshot-IsTurn ev content path none j disk c follows h = absurd (none-ne-some turn c)
  snapshot-IsTurn ev none none (some t) j disk c follows h = pathless-IsTurn ev false j disk h
  snapshot-IsTurn ev none (some raw) (some t) j disk c follows h =
      rw (some-injective t turn c) (failure-IsTurn ev raw j disk h)
  snapshot-IsTurn ev (some b) none (some t) j disk c follows h = pathless-IsTurn ev true j disk h
  snapshot-IsTurn ev (some b) (some raw) (some t) j disk c follows h =
      rw (some-injective t turn c) (success-IsTurn ev raw b j disk follows h)

  run_edit-IsTurn :
      (e : Edit) (j : Journal) (disk : Disk)
      → is_snapshot_tool e.event.tool_name ≡ true
      → path_followed relative absolute target e.event.path ≡ true
      → IsTurn session turn absolute start j disk
      → IsTurn session turn absolute start
          (run_edit relative absolute target session e (j, disk)).0
          (run_edit relative absolute target session e (j, disk)).1
  unfolding run_edit before_tool after_tool snapshot_before
  run_edit-IsTurn e j disk t follows h =
      rw t
        (snapshot-IsTurn e.event e.content e.event.path j.current_turn j disk h.current follows h)

  pub run_edits-IsTurn :
      (edits : List Edit) (s : Journal × Disk)
      → all (λ e. is_snapshot_tool e.event.tool_name) edits ≡ true
      → all (λ e. path_followed relative absolute target e.event.path) edits ≡ true
      → IsTurn session turn absolute start s.0 s.1
      → IsTurn session turn absolute start
          (run_edits relative absolute target session edits s).0
          (run_edits relative absolute target session edits s).1
  unfolding run_edits
  run_edits-IsTurn [] s t follows h = h
  run_edits-IsTurn (e ∷ edits) s t follows h =
      run_edits-IsTurn edits (run_edit relative absolute target session e s) (ground (arith, t))
        (ground (arith, follows))
        (run_edit-IsTurn e s.0 s.1 (ground (arith, t)) (ground (arith, follows)) h)

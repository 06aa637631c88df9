-- ===== src/Agent/Journal/Restored.antt =====
-- What the undo of agent/file_journal.rs restores.
use mathlib.Core.Path.{fun_ext}
use piscis_engine.Prelude.{
  ◌≡◌, refl, ◌∙◌, inl, inr, Bool-cases, Bool, true, false, not, ◌&&◌, Option, none, some, List, [],
  ◌∷◌, all, any, keep, if◌then◌else◌, Text, text_eq, text_eq_refl, text_eq_sound, arith,
}
use piscis_engine.Agent.Journal.{
  Snapshot, Journal, Disk, is_file, is_snapshot_tool, with_undone, update_rows,
}
use piscis_engine.Agent.Journal.Paths.{rel_path, abs_path, tool_path, is_plain}
use piscis_engine.Agent.Journal.Undo.{
  with_bytes, write_file, remove_file, restore_file, is_undoable_in, firsts, Undone, restore,
  restore_all, undone_by, paths_of, undo_turn,
}
use piscis_engine.Agent.Journal.Turns.Kept.{run_edits-IsTurn}
use piscis_engine.Agent.Journal.Turns.{Edit, run_edits, path_followed, original, is_sound, rows_of}

-- Whether the file is that of one of the paths.
abbrev is_among : (Text → Text) → List Text → Text → Bool
is_among absolute paths f = any (λ p. text_eq (absolute p) f) paths

restore_file_sound :
    (existed : Bool) (before : Option Text) (file : Text) (disk : Disk)
    → (if existed then is_file before else not (is_file before)) ≡ true
    → disk.writable file ≡ true
    → restore_file existed before file disk ≡ some (with_bytes disk file before)
unfolding restore_file write_file remove_file
restore_file_sound true none file disk h w = ground (arith, h)
restore_file_sound true (some b) file disk h w = rw w refl
restore_file_sound false none file disk h w = rw w refl
restore_file_sound false (some b) file disk h w = ground (arith, h)

restore_sound :
    (absolute : Text → Text) (r : Snapshot) (disk : Disk)
    → is_sound r ≡ true
    → disk.writable (absolute r.rel_path) ≡ true
    → restore absolute r disk ≡ some (with_bytes disk (absolute r.rel_path) r.before)
unfolding restore
restore_sound absolute r disk h w =
    restore_file_sound r.existed r.before (absolute r.rel_path) disk (ground (arith, h)) w

restore_all-cons :
    (absolute : Text → Text) (r : Snapshot) (rows : List Snapshot) (disk : Disk) {disk' : Disk}
    → restore absolute r disk ≡ some disk'
    → restore_all absolute (r ∷ rows) disk ≡ restore_all absolute rows disk'
unfolding restore_all
restore_all-cons absolute r rows disk {disk'} e = rw (e, restore_all) refl

-- The files of the paths seen are left, and every other has the content that the rows give it.
record IsRestored (absolute : Text → Text) (seen : List Text) (rows : List Snapshot) (disk : Disk)
    (result : Bool × Disk) : Type 0 where
  pub ended : result.0 ≡ true
  pub content :
      (f : Text)
      → result.1.bytes f
        ≡ (if is_among absolute seen f then disk.bytes f else original rows absolute disk f)

-- Different plain paths are different files.
abbrev IsDistinct : (Text → Text) → Type 0
IsDistinct absolute =
    (p q : Text) → is_plain p ≡ true → is_plain q ≡ true → absolute p ≡ absolute q → p ≡ q

module _ (absolute : Text → Text) (injective : IsDistinct absolute) where
  seen_path :
      (p : Text) (seen : List Text)
      → is_plain p ≡ true
      → all is_plain seen ≡ true
      → is_among absolute seen (absolute p) ≡ true
      → any (text_eq p) seen ≡ true
  seen_path p [] plain plains h = h
  seen_path p (q ∷ seen) plain plains h = ground (
    arith,
    h,
    plain,
    plains,
    seen_path p seen,
    text_eq_sound (absolute q) (absolute p),
    injective q p,
    text_eq_refl p,
  )

  path_seen :
      (p : Text) (seen : List Text)
      → any (text_eq p) seen ≡ true
      → is_among absolute seen (absolute p) ≡ true
  path_seen p [] h = h
  path_seen p (q ∷ seen) h =
      ground (arith, h, path_seen p seen, text_eq_sound p q, text_eq_refl (absolute p))

  -- A row whose path was restored before says nothing more.
  passed_content :
      (seen : List Text) (r : Snapshot) (rows : List Snapshot) (disk : Disk) (f : Text)
      → any (text_eq r.rel_path) seen ≡ true
      → (if is_among absolute seen f then disk.bytes f else original rows absolute disk f)
        ≡ (if is_among absolute seen f then disk.bytes f else original (r ∷ rows) absolute disk f)
  passed_content seen r rows disk f e = elim (Bool-cases (is_among absolute seen f)) [
    | inl i ↦ rw i refl
    | inr o ↦ elim (Bool-cases (text_eq (absolute r.rel_path) f)) [
      | inl c ↦
          ground (arith, o, c, e, path_seen r.rel_path seen, text_eq_sound (absolute r.rel_path) f)
      | inr c ↦ rw (o, c) refl
    ]
  ]

  unseen :
      (seen : List Text) (r : Snapshot) (f : Text)
      → is_plain r.rel_path ≡ true
      → all is_plain seen ≡ true
      → any (text_eq r.rel_path) seen ≡ false
      → text_eq (absolute r.rel_path) f ≡ true
      → is_among absolute seen f ≡ false
  unseen seen r f plain plains e c =
      ground
        (arith, e, c, seen_path r.rel_path seen plain plains, text_eq_sound (absolute r.rel_path) f)

  first_content :
      (seen : List Text) (r : Snapshot) (rows : List Snapshot) (disk : Disk) (f : Text)
      → is_plain r.rel_path ≡ true
      → all is_plain seen ≡ true
      → any (text_eq r.rel_path) seen ≡ false
      → (if is_among absolute (r.rel_path ∷ seen) f
          then (with_bytes disk (absolute r.rel_path) r.before).bytes f
          else original rows absolute (with_bytes disk (absolute r.rel_path) r.before) f)
        ≡ (if is_among absolute seen f then disk.bytes f else original (r ∷ rows) absolute disk f)
  first_content seen r rows disk f plain plains e =
      elim (Bool-cases (text_eq (absolute r.rel_path) f)) [
        | inl c ↦ rw (c, unseen seen r f plain plains e c) refl
        | inr c ↦ rw c refl
      ]

  restore_all-IsRestored :
      (seen : List Text) (rows : List Snapshot) (disk : Disk)
      → all is_sound rows ≡ true
      → all is_plain seen ≡ true
      → ((f : Text) → disk.writable f ≡ true)
      → IsRestored absolute seen rows disk (restore_all absolute (firsts seen rows) disk)
  unfolding restore_all firsts
  restore_all-IsRestored seen [] disk h plains w = record {
    ended = refl;
    content = λ f. ground arith;
  }
  restore_all-IsRestored seen (r ∷ rows) disk h plains w =
      elim (Bool-cases (any (text_eq r.rel_path) seen)) [
        | inl e ↦
            let rest = restore_all-IsRestored seen rows disk (ground (arith, h)) plains w in
            rw e (record {
              ended = rest.ended;
              content = λ f. rest.content f ∙ passed_content seen r rows disk f e;
            })
        | inr e ↦
            let disk' = with_bytes disk (absolute r.rel_path) r.before in
            let plain : is_plain r.rel_path ≡ true = ground (arith, h) in
            let rest =
              restore_all-IsRestored (r.rel_path ∷ seen) rows disk' (ground (arith, h))
                (ground (arith, plain, plains)) w in
            rw
              (
                e,
                restore_all-cons absolute r (firsts (r.rel_path ∷ seen) rows) disk
                    (restore_sound absolute r disk (ground (arith, h)) (w (absolute r.rel_path))),
              )
              (record {
                ended = rest.ended;
                content = λ f. rest.content f ∙ first_content seen r rows disk f plain plains e;
              })
      ]

undoable_rows :
    (session turn : Text) (rows : List Snapshot)
    → all is_sound (rows_of session turn rows) ≡ true
    → keep (is_undoable_in session turn) rows ≡ rows_of session turn rows
undoable_rows session turn [] h = refl
undoable_rows session turn (r ∷ rows) h = ground (arith, undoable_rows session turn rows)

undone_rows :
    (session turn : Text) (rows : List Snapshot)
    → keep (is_undoable_in session turn) (
        update_rows
          (λ r. text_eq r.session_id session && (text_eq r.turn_id turn && r.applied))
          with_undone
          rows)
      ≡ []
undone_rows session turn [] = refl
undone_rows session turn (r ∷ rows) = ground (arith, undone_rows session turn rows)

-- An undo that came to an end, left the files of `start`, and has nothing more to restore.
pub record IsUndone (absolute : Text → Text) (session turn : Text) (start : Disk) (u : Undone)
    : Type 0 where
  pub paths : (ps : List Text) × (u.restored ≡ some ps)
  pub files : u.disk.bytes ≡ start.bytes
  pub again : (undo_turn absolute session turn u.journal u.disk).restored ≡ some []

ended-IsUndone :
    (absolute : Text → Text) (session turn : Text) (start : Disk) (j : Journal)
    (result : Bool × Disk) (paths : List Text) (marked : List Snapshot)
    → result.0 ≡ true
    → ((f : Text) → result.1.bytes f ≡ start.bytes f)
    → keep (is_undoable_in session turn) marked ≡ []
    → IsUndone absolute session turn start (undone_by absolute result paths marked j)
unfolding undo_turn firsts restore_all
ended-IsUndone absolute session turn start j (true, disk) paths marked e b m = record {
  paths = (paths, refl);
  files = fun_ext b;
  again = rw m refl;
}
ended-IsUndone absolute session turn start j (false, disk) paths marked e b m = ground (arith, e)

-- Below a workspace's root, where the operating system finds different files at different plain paths,
-- and on a disk that can be read and written: after any calls of the two tools in a turn that has no
-- rows yet, each on a file whose snapshot is of that file and under a plain path, the undo of the turn
-- comes to its end, every file has the content that it had before the turn, and a second undo restores
-- nothing.
pub undo_turn-run_edits :
    (root : Text) (resolve : Text → Text) (session turn : Text) (edits : List Edit) (j : Journal)
    (disk : Disk)
    → ((p q : Text)
        → is_plain p ≡ true
        → is_plain q ≡ true
        → resolve (abs_path root p) ≡ resolve (abs_path root q)
        → p ≡ q)
    → ((f : Text) → disk.readable f ≡ true)
    → ((f : Text) → disk.writable f ≡ true)
    → j.current_turn ≡ some turn
    → rows_of session turn j.rows ≡ []
    → all (λ e. is_snapshot_tool e.event.tool_name) edits ≡ true
    → all
        (λ e.
          path_followed
            (rel_path root)
            (λ p. resolve (abs_path root p))
            (λ p. resolve (tool_path root p))
            e.event.path)
        edits
      ≡ true
    → (let s =
          run_edits
            (rel_path root)
            (λ p. resolve (abs_path root p))
            (λ p. resolve (tool_path root p))
            session
            edits
            (j, disk) in
        IsUndone
          (λ p. resolve (abs_path root p))
          session
          turn
          disk
          (undo_turn (λ p. resolve (abs_path root p)) session turn s.0 s.1))
unfolding undo_turn
undo_turn-run_edits root resolve session turn edits j disk inj rd w c n t follows =
    let absolute : Text → Text = λ p. resolve (abs_path root p) in
    let target : Text → Text = λ p. resolve (tool_path root p) in
    let s = run_edits (rel_path root) absolute target session edits (j, disk) in
    let h =
      run_edits-IsTurn session turn (rel_path root) absolute target disk edits (j, disk) t follows
        (record {
          current = c;
          sound = rw n refl;
          origin = λ f. rw n refl;
          reads = rd;
          writes = w;
        }) in
    let rows = rows_of session turn s.0.rows in
    let done = restore_all-IsRestored absolute inj [] rows s.1 h.sound refl h.writes in
    rw (undoable_rows session turn s.0.rows h.sound) (
      ended-IsUndone absolute session turn disk s.0 (restore_all absolute (firsts [] rows) s.1)
        (paths_of absolute (firsts [] rows)) _ done.ended (λ f. done.content f ∙ h.origin f)
        (undone_rows session turn s.0.rows))

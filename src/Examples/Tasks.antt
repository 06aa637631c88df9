-- ===== src/Examples/Tasks.antt =====
-- Plans, completions, budgets and repairs at concrete inputs.
use piscis_engine.Prelude.{
  ap, sym, ◌∙◌, ◌++◌, drop, ◌≡◌, refl, ◌⊎◌, ℕ, ◌≤◌, ◌<◌, ◌^◌, Bool, true, false, Option, none, some,
  List, [], ◌∷◌, Text, text, text_eq, if◌then◌else◌, length, arith,
}
use piscis_engine.Agent.Plan.{PlanTodoItem, valid, validate_todos, merge_todos}
use piscis_engine.Agent.Plan.Valid.{IsPlan, ids_of, validate_todos_iff}
use piscis_engine.Agent.Plan.Merging.{item_of, replayed, Extends, merge_todos_refines}
use piscis_engine.Agent.Plan.Tool.{ToolContext, PlanInput, plan_of}
use piscis_engine.Agent.Plan.Stored.{
  Step, locks, emits, run_steps, no_plans, IsAnnounced, stored_plans,
}
use piscis_engine.Agent.Completion.{complete}
use piscis_engine.Agent.Completion.Attempt.{
  Event, start, report, cancel, Attempt, new_attempt, steps, drain,
}
use piscis_engine.Agent.Completion.Drained.{IsDrained, drain-complete}
use piscis_engine.Agent.Budget.{LayeredBudget, with_total, with_tier_percents, classify}
use piscis_engine.Agent.Budget.Tiers.{IsTiered, tier_rank, with_tier_percents_lem}
use piscis_engine.Agent.Journal.{Journal, Disk, ToolEvent}
use piscis_engine.Agent.Journal.Undo.{Undone, undo_turn}
use piscis_engine.Agent.Journal.Paths.{
  split_slash, is_absolute, rel_path, join, ends_in_slash, abs_path, tool_path, is_plain,
}
use piscis_engine.Agent.Journal.Turns.{Edit, run_edits}
use piscis_engine.Agent.Journal.Restored.{IsUndone, undo_turn-run_edits}

abbrev item : Text → Text → Text → PlanTodoItem
item id content status = record { id = id; content = content; status = status }

abbrev two_items : List PlanTodoItem
two_items =
    item (text "a") (text "first") (text "in_progress")
    ∷ item (text " b ") (text "second") (text "pending")
    ∷ []

abbrev two_updates : List PlanTodoItem
two_updates =
    item (text "a") (text "first") (text "completed")
    ∷ item (text "c") (text "third") (text "in_progress")
    ∷ []

validate_todos_iff_example :
    ((validate_todos two_items ≡ valid tt) → IsPlan two_items)
    × (IsPlan two_items → (validate_todos two_items ≡ valid tt))
validate_todos_iff_example = validate_todos_iff two_items

merge_todos_refines_example :
    (item_of (merge_todos two_items two_updates) ≡ replayed (item_of two_items) two_updates)
    × Extends (ids_of two_items) (ids_of (merge_todos two_items two_updates))
merge_todos_refines_example = merge_todos_refines two_items two_updates

abbrev first_call : Step
first_call =
    locks (record { session_id = text "s"; pool_session_id = none })
      (record { merge = none; todos = some two_items })

abbrev second_call : Step
second_call =
    locks (record { session_id = text "s"; pool_session_id = some (text "p") })
      (record { merge = some true; todos = some two_updates })

-- The event of the first call goes to the sink after that of the second.
abbrev calls : List Step
calls = first_call ∷ second_call ∷ emits 0 ∷ emits 0 ∷ []

stored_plans_example :
    IsPlan (merge_todos two_items two_updates)
    × IsAnnounced (run_steps calls no_plans) (text "s") (merge_todos two_items two_updates)
unfolding plan_of run_steps piscis_engine.Agent.Plan.Tool.emit_session
    piscis_engine.Agent.Plan.Tool.lock_plan_todo validate_todos piscis_engine.Prelude.trim text_eq
    merge_todos
stored_plans_example = stored_plans calls (text "s") refl

-- The plan that was shown last is then not the stored one.
shown_last : plan_of (run_steps calls no_plans).sent (text "s") ≡ some two_items
unfolding plan_of run_steps piscis_engine.Agent.Plan.Tool.emit_session
    piscis_engine.Agent.Plan.Tool.lock_plan_todo validate_todos piscis_engine.Prelude.trim text_eq
    merge_todos
shown_last = refl

-- Two workers report before and while the attempt is drained; a third is refused.
abbrev before : List Event
before = start ∷ start ∷ report true ∷ []

abbrev rounds : List (List Event × Bool)
rounds = (start ∷ [], false) ∷ (report true ∷ [], false) ∷ []

abbrev drained : Attempt
drained = (drain rounds (steps before new_attempt)).1

drain-complete_example :
    IsDrained drained × ((steps (start ∷ cancel ∷ []) drained).started ≡ drained.started)
unfolding drain steps piscis_engine.Agent.Completion.register
    piscis_engine.Agent.Completion.complete_receipt piscis_engine.Agent.Completion.ends_drain
    piscis_engine.Agent.Completion.drain_status piscis_engine.Agent.Completion.seal
drain-complete_example = drain-complete before rounds (start ∷ cancel ∷ []) refl

with_tier_percents_lem_example :
    IsTiered (with_total 100000)
    × (((with_tier_percents (with_total 100000) 99 99 100 ≡ none) × (99 ≤ 99))
        ⊎ ((b : LayeredBudget) × (with_tier_percents (with_total 100000) 99 99 100 ≡ some b)
            × IsTiered b
            × (tier_rank (classify b 1000) ≤ tier_rank (classify b 90000))
            × (99 < 99)))
unfolding with_total
with_tier_percents_lem_example =
    with_tier_percents_lem (with_total 100000) 99 99 100 (omega arith) (omega arith)

-- A file is edited twice, and another is created, in a turn.
abbrev write_event : Text → Text → ToolEvent
write_event call path = record {
  tool_use_id = call;
  tool_name = text "file_write";
  path = some path;
}

-- The second file is named by an absolute path.
abbrev edits : List Edit
edits =
    record { event = write_event (text "1") (text "a"); content = some (text "x") }
    ∷ record { event = write_event (text "2") (text "b"); content = none }
    ∷ record { event = write_event (text "3") (text "a"); content = some (text "y") }
    ∷ record { event = write_event (text "4") (text "/w/b"); content = some (text "z") }
    ∷ []

abbrev journal : Journal
journal = record { rows = []; next_id = 1; current_turn = some (text "t") }

abbrev disk : Disk
disk = record {
  bytes = λ f. if text_eq f (text "/w/a") then some (text "old") else none;
  readable = λ f. true;
  writable = λ f. true;
}

abbrev root : Text
root = text "/w"

abbrev same_path : Text → Text
same_path p = p

plain-relative : (p : Text) → is_plain p ≡ true → is_absolute p ≡ false
unfolding is_plain is_absolute split_slash
plain-relative [] h = refl
plain-relative (c ∷ p) h = ground arith

abs_path-plain : (p : Text) → is_plain p ≡ true → abs_path root p ≡ text "/w/" ++ p
unfolding join ends_in_slash
abs_path-plain p h = rw (plain-relative p h) refl

distinct_files :
    (p q : Text) → is_plain p ≡ true → is_plain q ≡ true → abs_path root p ≡ abs_path root q → p ≡ q
distinct_files p q h k e = ap (drop 3) (sym (abs_path-plain p h) ∙ e ∙ abs_path-plain q k)

-- A turn of calls, and its undo.
abbrev after_calls : List Edit → Disk → Journal × Disk
after_calls es d =
    run_edits (rel_path root) (abs_path root) (tool_path root) (text "s") es (journal, d)

abbrev after_undo : List Edit → Disk → Undone
after_undo es d =
    undo_turn (abs_path root) (text "s") (text "t") (after_calls es d).0 (after_calls es d).1

undo_turn-run_edits_example :
    IsUndone (abs_path root) (text "s") (text "t") disk (after_undo edits disk)
unfolding piscis_engine.Agent.Journal.is_snapshot_tool text_eq tool_path rel_path is_plain
undo_turn-run_edits_example =
    undo_turn-run_edits root same_path (text "s") (text "t") edits journal disk distinct_files
      (λ f. refl) (λ f. refl) refl refl refl refl

-- The snapshot of a file outside of the workspace is of another file, and the undo misses the file.
outside_missed :
    (after_undo
        (record { event = write_event (text "1") (text "/x"); content = some (text "new") } ∷ [])
        disk).disk.bytes
      (text "/x")
    ≡ some (text "new")
unfolding undo_turn run_edits piscis_engine.Agent.Journal.after_tool text_eq
    piscis_engine.Agent.Journal.before_tool piscis_engine.Agent.Journal.Undo.restore join rel_path
    tool_path
outside_missed = refl

-- A file that cannot be read, but can be written, is deleted by the undo.
unreadable_deleted :
    (after_undo
        (record { event = write_event (text "1") (text "a"); content = some (text "new") } ∷ [])
        (record disk { readable = λ f. false })).disk.bytes
      (text "/w/a")
    ≡ none
unfolding undo_turn run_edits piscis_engine.Agent.Journal.after_tool text_eq
    piscis_engine.Agent.Journal.before_tool piscis_engine.Agent.Journal.Undo.restore join rel_path
unreadable_deleted = refl

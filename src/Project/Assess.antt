-- ===== src/Project/Assess.antt =====
-- project_state.rs, the assessment of a project from its messages and todos.
-- The summary text of an assessment is left out, and a reason is a constructor with the numbers
-- that its text shows.
use piscis_engine.Prelude.{
  ℕ, max, Bool, true, false, not, ◌&&◌, ◌||◌, Option, none, some, List, [], ◌∷◌, ◌++◌, Text,
  text_eq, count, keep, map, length, is_empty, ltb, ◌==◌, if◌then◌else◌,
}
use piscis_engine.Model.{
  KoiTodo, PoolMessage, EventType, CoordinationSignalKind, read_stamp, is_todo, is_in_progress,
  is_blocked, is_needs_review,
}
use piscis_engine.Integration.{count_integration_ready, count_dependency_blocked}
use piscis_engine.Project.Signals.{SenderState, extract_sender_state}

pub data ProjectDecision : Type 0 where
  continue ready_for_piscis_review supervisor_decision_required escalate_to_human : ProjectDecision

pub data Reason : Type 0 where
  unfinished blocked reviews : ℕ → Reason
  failures : ℕ → Bool → Reason
  unresolved_failure : Reason
  follow_ups ready_without_handoff unmerged waiting_upstream : ℕ → Reason
  exhausted : Reason

-- The numbers that an assessment reports.
pub record Counts : Type 0 where
  pub active_todos : ℕ
  pub unfinished_work : ℕ
  pub blocked_todos : ℕ
  pub needs_review : ℕ
  pub task_failed : ℕ
  pub task_failed_still_blocks : Bool
  pub follow_up_signals : ℕ
  pub ready_signals : ℕ
  pub explicit_piscis_handoffs : ℕ
  pub integration_ready : ℕ
  pub dependency_blocked : ℕ

pub record ProjectAssessment : Type 0 where
  pub decision : ProjectDecision
  pub counts : Counts
  pub attention_reasons : List Reason

abbrev pub push_if : Bool → Reason → List Reason
push_if true r = r ∷ []
push_if false r = []

-- `n > 0`.
abbrev pub positive : ℕ → Bool
positive n = ltb 0 n

unfoldable pub build_attention_reasons : Counts → List Reason
build_attention_reasons c =
    push_if (positive c.unfinished_work) (Reason.unfinished c.unfinished_work)
    ++ push_if (positive c.blocked_todos) (Reason.blocked c.blocked_todos)
    ++ push_if (positive c.needs_review) (Reason.reviews c.needs_review)
    ++ push_if (positive c.task_failed) (Reason.failures c.task_failed c.task_failed_still_blocks)
    ++ push_if c.task_failed_still_blocks Reason.unresolved_failure
    ++ push_if (positive c.follow_up_signals) (Reason.follow_ups c.follow_up_signals)
    ++ push_if (positive c.ready_signals && (c.explicit_piscis_handoffs == 0))
        (Reason.ready_without_handoff c.ready_signals)
    ++ push_if (positive c.integration_ready) (Reason.unmerged c.integration_ready)
    ++ push_if (positive c.dependency_blocked) (Reason.waiting_upstream c.dependency_blocked)
    ++ push_if
        ((c.unfinished_work == 0)
          && (c.blocked_todos == 0)
          && (c.needs_review == 0)
          && not c.task_failed_still_blocks
          && (c.follow_up_signals == 0)
          && (c.explicit_piscis_handoffs == 0)
          && (c.integration_ready == 0))
        Reason.exhausted

-- `sort_by` on the time and then the id, which keeps the order of equal entries.
abbrev pub comes_before : PoolMessage → PoolMessage → Bool
comes_before a b =
    ltb a.created_at b.created_at || ((a.created_at == b.created_at) && ltb a.id b.id)

unfoldable pub insert_message : PoolMessage → List PoolMessage → List PoolMessage
insert_message m [] = m ∷ []
insert_message m (x ∷ xs) =
    let rest = insert_message m xs in if comes_before x m then x ∷ rest else m ∷ x ∷ xs

unfoldable pub sort_messages : List PoolMessage → List PoolMessage
unfolding insert_message
sort_messages [] = []
sort_messages (m ∷ ms) = insert_message m (sort_messages ms)

-- The two maps by sender, as one: a sender's latest state and its time.
pub record Latest : Type 0 where
  pub sender : Text
  pub state : SenderState
  pub time : ℕ

unfoldable pub insert_latest : Latest → List Latest → List Latest
insert_latest l [] = l ∷ []
insert_latest l (x ∷ xs) =
    let rest = insert_latest l xs in if text_eq x.sender l.sender then l ∷ xs else x ∷ rest

abbrev pub note_state : PoolMessage → Option SenderState → List Latest → List Latest
note_state m none ls = ls
note_state m (some s) ls =
    insert_latest (record { sender = m.sender_id; state = s; time = m.created_at }) ls

-- The loop over the ordered messages.
unfoldable pub latest_signals : (Text → Text) → List PoolMessage → List Latest → List Latest
unfolding insert_latest
latest_signals lower [] ls = ls
latest_signals lower (m ∷ ms) ls =
    latest_signals lower ms (note_state m (extract_sender_state lower m) ls)

abbrev pub asks_follow_up : Latest → Bool
asks_follow_up l = elim l.state.signal [
  | CoordinationSignalKind.ready_for_piscis_review ↦ false
  | _ ↦ true
]

abbrev pub is_handoff : Latest → Bool
is_handoff l = not (asks_follow_up l) && l.state.mentions_piscis

-- `iter().max()`.
abbrev pub later : ℕ → Option ℕ → Option ℕ
later n none = some n
later n (some m) = some (max n m)

unfoldable pub latest_of : List ℕ → Option ℕ
latest_of [] = none
latest_of (n ∷ ns) = later n (latest_of ns)

abbrev pub is_task_failed : Option EventType → Bool
is_task_failed (some EventType.task_failed) = true
is_task_failed _ = false

-- `map(|h| h > failed_at).unwrap_or(false)`.
abbrev pub is_after : Option ℕ → ℕ → Bool
is_after none t = false
is_after (some h) t = ltb t h

abbrev pub still_blocks : Option ℕ → Option ℕ → Option ℕ → Bool
still_blocks none handoff review = false
still_blocks (some failed) handoff review = not (is_after handoff failed || is_after review failed)

abbrev pub is_unfinished : KoiTodo → Bool
is_unfinished t = is_todo t.status || is_in_progress t.status || is_blocked t.status

-- `now` is the reading that a stored time gets that does not parse.
unfoldable pub project_counts : (Text → Text) → ℕ → List PoolMessage → List KoiTodo → Counts
unfolding sort_messages latest_signals latest_of
project_counts lower now messages todos =
    let signals = latest_signals lower (sort_messages messages) [] in
    let failed = keep (λ m. is_task_failed m.event_type) messages in
    let reviews = keep (λ t. is_needs_review t.status) todos in
    record {
      active_todos = count (λ t. is_unfinished t || is_needs_review t.status) todos;
      unfinished_work = count is_unfinished todos;
      blocked_todos = count (λ t. is_blocked t.status) todos;
      needs_review = length reviews;
      task_failed = length failed;
      task_failed_still_blocks =
          still_blocks (latest_of (map (λ m. m.created_at) failed))
            (latest_of (map (λ l. l.time) (keep is_handoff signals)))
            (latest_of (map (λ t. read_stamp now t.updated_at) reviews));
      follow_up_signals = count asks_follow_up signals;
      ready_signals = count (λ l. not (asks_follow_up l)) signals;
      explicit_piscis_handoffs = count is_handoff signals;
      integration_ready = count_integration_ready todos;
      dependency_blocked = count_dependency_blocked todos;
    }

-- The chain of early returns.
unfoldable pub decide : Counts → ProjectDecision
decide c =
    if positive c.unfinished_work
    then ProjectDecision.continue
    else if c.task_failed_still_blocks
    then ProjectDecision.escalate_to_human
    else if positive c.needs_review
    then ProjectDecision.ready_for_piscis_review
    else if positive c.explicit_piscis_handoffs
    then ProjectDecision.ready_for_piscis_review
    else if positive c.follow_up_signals
    then ProjectDecision.continue
    else if positive c.integration_ready
    then ProjectDecision.ready_for_piscis_review
    else ProjectDecision.supervisor_decision_required

abbrev pub no_counts : Counts
no_counts = record {
  active_todos = 0;
  unfinished_work = 0;
  blocked_todos = 0;
  needs_review = 0;
  task_failed = 0;
  task_failed_still_blocks = false;
  follow_up_signals = 0;
  ready_signals = 0;
  explicit_piscis_handoffs = 0;
  integration_ready = 0;
  dependency_blocked = 0;
}

unfoldable pub assess_project_state :
    (Text → Text) → ℕ → List PoolMessage → List KoiTodo → ProjectAssessment
unfolding build_attention_reasons decide
assess_project_state lower now messages todos =
    if is_empty messages && is_empty todos
    then record { decision = ProjectDecision.continue; counts = no_counts; attention_reasons = [] }
    else let c = project_counts lower now messages todos in
      record { decision = decide c; counts = c; attention_reasons = build_attention_reasons c }

-- ===== src/Project/Decisions.antt =====
-- What the assessment of a project guarantees.
use piscis_engine.Prelude.{
  Bool, not, ◌&&◌, ◌||◌, all, any, keep, map, count, ltb, leb, ℕ, ◌≡◌, ◌↔◌, refl, ap, ◌∙◌, true,
  false, Option, none, some, List, [], ◌∷◌, Text, text_eq, text_eq_sound, find, arith,
  if◌then◌else◌, Bool-cases, inl, inr,
}
use piscis_engine.Model.{KoiTodo, PoolMessage, is_needs_review, read_stamp}
use piscis_engine.Project.Signals.{SenderState, state_or, extract_sender_state}
use piscis_engine.Project.Assess.{
  ProjectDecision, Counts, decide, assess_project_state, project_counts, Latest, insert_latest,
  note_state, latest_signals, sort_messages, latest_of, later, is_after, still_blocks,
  is_task_failed, is_handoff, is_unfinished,
}

-- The state in a sender's last message that has one, or else an earlier one.
abbrev pub last_state :
    (Text → Text) → Text → List PoolMessage → Option SenderState → Option SenderState
last_state lower sender [] s = s
last_state lower sender (m ∷ ms) s =
    last_state lower sender ms
      (if text_eq m.sender_id sender then state_or (extract_sender_state lower m) s else s)

abbrev pub state_at : Option Latest → Option SenderState
state_at none = none
state_at (some l) = some l.state

abbrev pub lookup : Text → List Latest → Option SenderState
lookup sender ls = state_at (find (λ l. text_eq l.sender sender) ls)

text_eq_apart : (a b c : Text) → text_eq a c ≡ true → text_eq a b ≡ false → text_eq b c ≡ false
text_eq_apart a b c same apart = elim (Bool-cases (text_eq b c)) [
  | inl e ↦ let both : text_eq a b ≡ true = rw (text_eq_sound b c e) same in ground arith
  | inr e ↦ e
]

insert_latest-lookup :
    (sender : Text) (l : Latest) (ls : List Latest)
    → lookup sender (insert_latest l ls)
      ≡ (if text_eq l.sender sender then some l.state else lookup sender ls)
unfolding insert_latest
insert_latest-lookup sender l [] = ground arith
insert_latest-lookup sender l (x ∷ xs) = elim (Bool-cases (text_eq x.sender l.sender)) [
  | inl same ↦ rw same (elim (Bool-cases (text_eq l.sender sender)) [
    | inl e ↦ rw e refl
    | inr e ↦
        let other : text_eq x.sender sender ≡ false = rw (text_eq_sound x.sender l.sender same) e in
        rw (e, other) refl
  ])
  | inr differs ↦ rw differs (elim (Bool-cases (text_eq x.sender sender)) [
    | inl here ↦
        let other : text_eq l.sender sender ≡ false =
          text_eq_apart x.sender l.sender sender here differs in
        rw (here, other) refl
    | inr gone ↦ rw gone (insert_latest-lookup sender l xs)
  ])
]

noted :
    (sender : Text) (m : PoolMessage) (s : Option SenderState) (ls : List Latest)
    → lookup sender (note_state m s ls)
      ≡ (if text_eq m.sender_id sender then state_or s (lookup sender ls) else lookup sender ls)
noted sender m none ls = ground arith
noted sender m (some s) ls =
    insert_latest-lookup sender (record { sender = m.sender_id; state = s; time = m.created_at }) ls

-- The state that the assessment holds of a sender is the one in the last of the sender's ordered
-- messages that shows one, whatever other senders wrote in between.
pub latest_signals_last :
    (lower : Text → Text) (sender : Text) (ms : List PoolMessage) (ls : List Latest)
    → lookup sender (latest_signals lower ms ls) ≡ last_state lower sender ms (lookup sender ls)
unfolding latest_signals
latest_signals_last lower sender [] ls = refl
latest_signals_last lower sender (m ∷ ms) ls =
    latest_signals_last lower sender ms (note_state m (extract_sender_state lower m) ls)
    ∙ ap (last_state lower sender ms) (noted sender m (extract_sender_state lower m) ls)

-- A latest time is after another exactly when one of the times is.
is_after-later : (a n : ℕ) (o : Option ℕ) → is_after (later a o) n ≡ (ltb n a || is_after o n)
is_after-later a n none = ground arith
is_after-later a n (some m) = ground arith

is_after-latest_of :
    {A : Type 0} (p : A → Bool) (f : A → ℕ) (n : ℕ) (xs : List A)
    → is_after (latest_of (map f (keep p xs))) n ≡ not (all (λ x. not (p x) || leb (f x) n) xs)
unfolding latest_of
is_after-latest_of p f n [] = refl
is_after-latest_of p f n (x ∷ xs) = elim (Bool-cases (p x)) [
  | inl e ↦ rw e (
      ground (
        arith,
        is_after-later (f x) n (latest_of (map f (keep p xs))),
        is_after-latest_of p f n xs,
      ))
  | inr e ↦ rw e (is_after-latest_of p f n xs)
]

-- A failure blocks if neither a handoff nor a review is after it; the latest one blocks if any does.
still_blocks-later :
    (a : ℕ) (o handoff review : Option ℕ)
    → still_blocks (later a o) handoff review
      ≡ (not (is_after handoff a || is_after review a) || still_blocks o handoff review)
still_blocks-later a none handoff review = ground arith
still_blocks-later a (some m) none none = ground arith
still_blocks-later a (some m) none (some r) = ground arith
still_blocks-later a (some m) (some h) none = ground arith
still_blocks-later a (some m) (some h) (some r) = ground arith

still_blocks-latest_of :
    (p : PoolMessage → Bool) (ms : List PoolMessage) (handoff review : Option ℕ)
    → still_blocks (latest_of (map (λ m. m.created_at) (keep p ms))) handoff review
      ≡ any (λ m. p m && not (is_after handoff m.created_at || is_after review m.created_at)) ms
unfolding latest_of
still_blocks-latest_of p [] handoff review = refl
still_blocks-latest_of p (m ∷ ms) handoff review = elim (Bool-cases (p m)) [
  | inl e ↦ rw e (
      still_blocks-later m.created_at (latest_of (map (λ x. x.created_at) (keep p ms))) handoff
        review
      ∙ ap (λ b. not (is_after handoff m.created_at || is_after review m.created_at) || b)
          (still_blocks-latest_of p ms handoff review))
  | inr e ↦ rw e (still_blocks-latest_of p ms handoff review)
]

any_same :
    (p q : PoolMessage → Bool)
    → ((m : PoolMessage) → p m ≡ q m)
    → (ms : List PoolMessage) → any p ms ≡ any q ms
any_same p q same [] = refl
any_same p q same (m ∷ ms) = ground (arith, same m, any_same p q same ms)

no_count :
    (p : KoiTodo → Bool) (ts : List KoiTodo) → (count p ts ≡ 0) ↔ (all (λ t. not (p t)) ts ≡ true)
no_count p [] = ground arith
no_count p (t ∷ ts) = ground (arith, no_count p ts)

-- A failure that no handoff of the senders' states and no todo in review is later than.
abbrev pub is_unresolved : List Latest → ℕ → List KoiTodo → PoolMessage → Bool
is_unresolved signals now todos m =
    is_task_failed m.event_type
    && (all (λ l. not (is_handoff l) || leb l.time m.created_at) signals
        && all
            (λ t. not (is_needs_review t.status) || leb (read_stamp now t.updated_at) m.created_at)
            todos)

project_counts-still_blocks :
    (lower : Text → Text) (now : ℕ) (messages : List PoolMessage) (todos : List KoiTodo)
    → (project_counts lower now messages todos).task_failed_still_blocks
      ≡ any (is_unresolved (latest_signals lower (sort_messages messages) []) now todos) messages
unfolding project_counts
project_counts-still_blocks lower now messages todos =
    let signals = latest_signals lower (sort_messages messages) [] in
    let handoff = latest_of (map (λ l. l.time) (keep is_handoff signals)) in
    let review =
      latest_of
        (map (λ t. read_stamp now t.updated_at) (keep (λ t. is_needs_review t.status) todos)) in
    still_blocks-latest_of (λ m. is_task_failed m.event_type) messages handoff review
    ∙ any_same _ (is_unresolved signals now todos)
        (λ m. ground (
          arith,
          is_after-latest_of is_handoff (λ l. l.time) m.created_at signals,
          is_after-latest_of (λ t. is_needs_review t.status) (λ t. read_stamp now t.updated_at)
              m.created_at todos,
        ))
        messages

decide-escalates :
    (c : Counts)
    → (decide c ≡ ProjectDecision.escalate_to_human)
      ↔ ((c.unfinished_work ≡ 0) × (c.task_failed_still_blocks ≡ true))
unfolding decide
decide-escalates c = ground arith

count-escalates :
    (lower : Text → Text) (now : ℕ) (messages : List PoolMessage) (todos : List KoiTodo)
    → (decide (project_counts lower now messages todos) ≡ ProjectDecision.escalate_to_human) ↔ (
        (all (λ t. not (is_unfinished t)) todos ≡ true)
        × (any (is_unresolved (latest_signals lower (sort_messages messages) []) now todos) messages
            ≡ true))
unfolding project_counts
count-escalates lower now messages todos = ground (
  arith,
  decide-escalates (project_counts lower now messages todos),
  no_count is_unfinished todos,
  project_counts-still_blocks lower now messages todos,
)

-- An assessment hands the project to the user exactly when no todo is unfinished and some failure is
-- unresolved: no sender's latest state is a handoff to Piscis from after it, and no todo in review was
-- updated after it.
pub escalates_iff :
    (lower : Text → Text) (now : ℕ) (messages : List PoolMessage) (todos : List KoiTodo)
    → ((assess_project_state lower now messages todos).decision ≡ ProjectDecision.escalate_to_human)
      ↔ ((all (λ t. not (is_unfinished t)) todos ≡ true)
          × (any
                (is_unresolved (latest_signals lower (sort_messages messages) []) now todos)
                messages
              ≡ true))
unfolding assess_project_state
escalates_iff lower now [] [] = ground arith
escalates_iff lower now [] (t ∷ ts) = count-escalates lower now [] (t ∷ ts)
escalates_iff lower now (m ∷ ms) todos = count-escalates lower now (m ∷ ms) todos

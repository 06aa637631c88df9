-- ===== src/Project/Signals.antt =====
-- project_state.rs, the coordination signals in the text and the metadata of a message.
use piscis_engine.Prelude.{
  text_eq, lines, contains, Bool, true, false, ◌&&◌, ◌||◌, Option, none, some, [], ◌∷◌, Text, text,
  starts_with, trim, trim_start, is_whitespace, any, drop, ◌==◌, if◌then◌else◌,
}
use piscis_engine.Json.{
  Json, bool, string, object, Fields, no_fields, field, get, insert, value_get, as_str, as_bool,
  as_object,
}
use piscis_engine.Model.{CoordinationSignalKind, Metadata, PoolMessage, EventType}

abbrev pub status_follow_up : Text
status_follow_up = text "[projectstatus] follow_up_needed"

abbrev pub status_waiting : Text
status_waiting = text "[projectstatus] waiting"

abbrev pub status_ready : Text
status_ready = text "[projectstatus] ready_for_piscis_review"

unfoldable pub as_status_str : CoordinationSignalKind → Text
as_status_str CoordinationSignalKind.follow_up_needed = status_follow_up
as_status_str CoordinationSignalKind.waiting = status_waiting
as_status_str CoordinationSignalKind.ready_for_piscis_review = status_ready

-- `str::to_lowercase` is an argument: it is Unicode's table.
module _ (to_lowercase : Text → Text) where
  unfoldable pub detect_coordination_signal : Text → Option CoordinationSignalKind
  detect_coordination_signal content =
      let lower = to_lowercase (trim content) in
      if starts_with lower status_follow_up
      then some CoordinationSignalKind.follow_up_needed
      else if starts_with lower status_waiting
      then some CoordinationSignalKind.waiting
      else if starts_with lower status_ready
      then some CoordinationSignalKind.ready_for_piscis_review
      else none

-- What may follow `@!piscis`: the end, whitespace, or one of `:：-—,，.`.
unfoldable pub is_delimited : Text → Bool
is_delimited [] = true
is_delimited (c ∷ s) =
    is_whitespace c
    || (c == b':')
    || (c == 0xff1a)
    || (c == b'-')
    || (c == 0x2014)
    || (c == b',')
    || (c == 0xff0c)
    || (c == b'.')

-- The state of a sender that a message shows: its signal, and whether it mentions Piscis.
pub record SenderState : Type 0 where
  pub signal : CoordinationSignalKind
  pub mentions_piscis : Bool

abbrev pub signal_event : Option CoordinationSignalKind → Option EventType
signal_event none = none
signal_event (some s) = some EventType.coordination_signal

abbrev pub bool_or : Option Bool → Bool → Bool
bool_or none b = b
bool_or (some a) b = a

abbrev pub flag_or : Option Bool → Option Bool → Option Bool
flag_or none o = o
flag_or (some b) o = some b

-- `and_then`.
abbrev pub then_read {ℓ κ} : {A : Type ℓ} {B : Type κ} → Option A → (A → Option B) → Option B
then_read none f = none
then_read (some a) f = f a

-- The match on the stored status.
unfoldable pub signal_of_status : Text → Option CoordinationSignalKind
signal_of_status s =
    if text_eq s status_follow_up
    then some CoordinationSignalKind.follow_up_needed
    else if text_eq s status_waiting
    then some CoordinationSignalKind.waiting
    else if text_eq s status_ready
    then some CoordinationSignalKind.ready_for_piscis_review
    else none

abbrev pub state_of_coordination : Fields → Json → Option SenderState
state_of_coordination metadata coordination =
    then_read (value_get (text "signal") coordination) λ v. then_read (as_str v) λ status.
      then_read (signal_of_status status) λ signal. some (record {
        signal = signal;
        mentions_piscis =
            bool_or
              (flag_or (then_read (value_get (text "mentions_piscis") coordination) as_bool) (
                then_read (get (text "mentions") metadata)
                  λ mentions. then_read (value_get (text "piscis") mentions) as_bool))
              false;
      })

unfoldable pub coordination_signal_from_metadata : Metadata → Option SenderState
unfolding signal_of_status value_get get
coordination_signal_from_metadata m =
    then_read (get (text "coordination") m.added) (state_of_coordination m.added)

abbrev pub signal_state : Bool → Option CoordinationSignalKind → Option SenderState
signal_state mentions none = none
signal_state mentions (some s) = some (record { signal = s; mentions_piscis = mentions })

abbrev pub state_or : Option SenderState → Option SenderState → Option SenderState
state_or none o = o
state_or (some s) o = some s

-- The entries under `mentions`, or none when there is no object.
abbrev pub fields_or_none : Option Fields → Fields
fields_or_none none = no_fields
fields_or_none (some fs) = fs

unfoldable pub with_mention : Fields → Fields
unfolding insert get
with_mention metadata =
    let mentions = fields_or_none (then_read (get (text "mentions") metadata) as_object) in
    insert (text "mentions") (object (insert (text "piscis") (bool true) mentions)) metadata

-- The object that is stored under `coordination`.
unfoldable pub coordination_object : CoordinationSignalKind → Bool → Json
unfolding as_status_str
coordination_object signal mentions = object (
    field (text "protocol") (string (text "project_status_v1")) (
      field (text "signal") (string (as_status_str signal))
        (field (text "mentions_piscis") (bool mentions) no_fields)))

abbrev pub with_coordination : Bool → Option CoordinationSignalKind → Fields → Fields
with_coordination mentions none metadata = metadata
with_coordination mentions (some s) metadata =
    insert (text "coordination") (coordination_object s mentions) metadata

module _ (to_lowercase : Text → Text) where
  unfoldable pub delegates_to_piscis : Text → Bool
  delegates_to_piscis line =
      let trimmed = trim_start line in
      starts_with (to_lowercase trimmed) (text "@!piscis") && is_delimited (drop 8 trimmed)

  unfoldable pub contains_delegated_piscis_mention : Text → Bool
  unfolding delegates_to_piscis
  contains_delegated_piscis_mention content = any delegates_to_piscis (lines content)

  unfoldable pub contains_piscis_mention : Text → Bool
  unfolding contains_delegated_piscis_mention contains
  contains_piscis_mention content =
      contains_delegated_piscis_mention content || contains (to_lowercase content) (text "@piscis")

  unfoldable pub enrich_pool_message_metadata : Metadata → Text → Metadata
  unfolding contains_piscis_mention detect_coordination_signal with_mention coordination_object
  enrich_pool_message_metadata base content =
      let mentions = contains_piscis_mention content in
      let mentioned = if mentions then with_mention base.added else base.added in
      record base {
        added =
            with_coordination mentions (detect_coordination_signal to_lowercase content) mentioned;
      }

  unfoldable pub extract_sender_state : PoolMessage → Option SenderState
  unfolding coordination_signal_from_metadata
  extract_sender_state m = state_or (coordination_signal_from_metadata m.metadata) (
      signal_state (contains_piscis_mention m.content)
        (detect_coordination_signal to_lowercase m.content))

  unfoldable pub coordination_event_type_for_content : Text → Option EventType
  coordination_event_type_for_content content =
      signal_event (detect_coordination_signal to_lowercase content)

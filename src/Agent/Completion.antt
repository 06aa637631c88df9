-- ===== src/Agent/Completion.antt =====
-- agent/tool_completion.rs: the workers that an attempt has started and that have not reported yet.
-- Each method holds the state's lock from its first read to its last write, so that the methods of
-- concurrent workers are steps, in the order in which they take the lock.
pub mod Registries
pub mod Attempt
pub mod Drained
use piscis_engine.Prelude.{
  ℕ, zero, suc, ◌+◌, ◌-◌, ◌^◌, Bool, true, false, ◌||◌, Option, none, some, List, [], ◌∷◌, ◌==◌,
  ltb, leb, if◌then◌else◌, min, find, keep,
}

-- `usize::MAX` of the targets.
abbrev pub usize_max : ℕ
usize_max = 2 ^ 64 - 1

-- `OwnedCompletionRegistry`, with the flag that `cancel` points to, and whether the lock is poisoned.
pub record Registry : Type 0 where
  pub active : ℕ
  pub failures : ℕ
  pub is_sealed : Bool
  pub cancelled : Bool
  pub poisoned : Bool

pub data DrainOutcome : Type 0 where
  complete : DrainOutcome
  pending : (active : ℕ) → DrainOutcome
  failed : (active failures : ℕ) → DrainOutcome

-- `OwnedReceipt`, less the registry that it points to.
pub record OwnedReceipt : Type 0 where
  pub finished : Bool

pub data RegisterError : Type 0 where
  state_unavailable : RegisterError
  stopping : RegisterError
  count_overflow : RegisterError

pub data Registered : Type 0 where
  receipt : OwnedReceipt → Registered
  refused : RegisterError → Registered

unfoldable pub register : Registry → Registered × Registry
register r =
    if r.poisoned
    then (refused state_unavailable, r)
    else if r.is_sealed || r.cancelled
    then (refused stopping, r)
    else if leb usize_max r.active
    then (refused count_overflow, r)
    else (
      receipt (record { finished = false }),
      record {
        active = suc r.active;
        failures = r.failures;
        is_sealed = r.is_sealed;
        cancelled = r.cancelled;
        poisoned = r.poisoned;
      },
    )

abbrev pub saturating_suc : ℕ → ℕ
saturating_suc n = min (suc n) usize_max

-- The body of `if let Ok(mut state) = self.registry.state.lock()` in `finish`.
unfoldable pub count_finish : Bool → Registry → Registry
count_finish success r =
    let uncounted = if ltb 0 r.active then r.failures else saturating_suc r.failures in
    record {
      active = r.active - 1;
      failures = if success then uncounted else saturating_suc uncounted;
      is_sealed = r.is_sealed;
      cancelled = r.cancelled;
      poisoned = r.poisoned;
    }

unfoldable pub finish : Bool → OwnedReceipt → Registry → OwnedReceipt × Registry
unfolding count_finish
finish success o r =
    if o.finished
    then (o, r)
    else (record { finished = true }, (if r.poisoned then r else count_finish success r))

-- `Drop`.
unfoldable pub drop_receipt : OwnedReceipt → Registry → Registry
unfolding finish
drop_receipt o r = (finish false o r).1

-- `complete` takes the receipt: it is dropped at the end of the body.
unfoldable pub complete_receipt : Bool → OwnedReceipt → Registry → Registry
unfolding finish drop_receipt
complete_receipt success o r = let (o', r') = finish success o r in drop_receipt o' r'

unfoldable pub seal : Registry → Registry
seal r = if r.poisoned then r else record {
  active = r.active;
  failures = r.failures;
  is_sealed = true;
  cancelled = r.cancelled;
  poisoned = r.poisoned;
}

-- The status that the loop of `drain` reads.
unfoldable pub drain_status : Registry → DrainOutcome
drain_status r =
    if r.poisoned
    then failed 0 1
    else if r.active == 0
    then if r.failures == 0 then complete else failed 0 r.failures
    else if ltb 0 r.failures
    then failed r.active r.failures
    else pending r.active

-- `Complete | Failed { active: 0, .. }`.
unfoldable pub ends_drain : DrainOutcome → Bool
ends_drain complete = true
ends_drain (pending n) = false
ends_drain (failed n f) = n == 0

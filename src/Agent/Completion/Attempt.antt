-- ===== src/Agent/Completion/Attempt.antt =====
-- An attempt of agent/tool_completion.rs: the registry with the receipts that its workers hold, and
-- `drain`, which waits for them.
use piscis_engine.Prelude.{
  ℕ, zero, suc, ◌-◌, Bool, true, false, ◌||◌, Option, none, some, List, [], ◌∷◌, if◌then◌else◌,
}
use piscis_engine.Agent.Completion.{
  Registry, OwnedReceipt, DrainOutcome, failed, Registered, receipt, refused, register,
  complete_receipt, drop_receipt, seal, drain_status, ends_drain,
}

-- What the owners of a registry and of its receipts do: `cancel` is the store to the flag, and
-- `poison` the panic of a holder of the lock.
pub data Event : Type 0 where
  start : Event
  report : Bool → Event
  abandon : Event
  cancel : Event
  poison : Event

-- `held` counts the receipts of running workers. All are unfinished, since both of the ways to finish
-- one take it. `reports` has whether each worker confirmed its cleanup, the last one first.
pub record Attempt : Type 0 where
  pub registry : Registry
  pub held : ℕ
  pub started : ℕ
  pub reports : List Bool

-- The registry of `for_cancel` for a new flag.
abbrev pub new_attempt : Attempt
new_attempt = record {
  registry = record {
    active = 0;
    failures = 0;
    is_sealed = false;
    cancelled = false;
    poisoned = false;
  };
  held = 0;
  started = 0;
  reports = [];
}

abbrev pub open_receipt : OwnedReceipt
open_receipt = record { finished = false }

unfoldable pub started_by : Registered × Registry → Attempt → Attempt
started_by (receipt o, r) a = record {
  registry = r;
  held = suc a.held;
  started = suc a.started;
  reports = a.reports;
}
started_by (refused e, r) a = record {
  registry = r;
  held = a.held;
  started = a.started;
  reports = a.reports;
}

-- One receipt less, and the registry that its end leaves.
unfoldable pub released : Registry → Bool → Attempt → Attempt
released r confirmed a = record {
  registry = r;
  held = a.held - 1;
  started = a.started;
  reports = confirmed ∷ a.reports;
}

abbrev pub with_registry : Attempt → Registry → Attempt
with_registry a r = record { registry = r; held = a.held; started = a.started; reports = a.reports }

abbrev pub with_flags : Registry → Bool → Bool → Registry
with_flags r cancelled poisoned = record {
  active = r.active;
  failures = r.failures;
  is_sealed = r.is_sealed;
  cancelled = cancelled;
  poisoned = poisoned;
}

-- Without a receipt no worker can end.
abbrev pub if_held : ℕ → Attempt → Attempt → Attempt
if_held zero a b = a
if_held (suc n) a b = b

unfoldable pub step : Event → Attempt → Attempt
unfolding started_by released
step start a = started_by (register a.registry) a
step (report success) a =
    if_held a.held a (released (complete_receipt success open_receipt a.registry) success a)
step abandon a = if_held a.held a (released (drop_receipt open_receipt a.registry) false a)
step cancel a = with_registry a (with_flags a.registry true a.registry.poisoned)
step poison a = with_registry a (with_flags a.registry a.registry.cancelled true)

unfoldable pub steps : List Event → Attempt → Attempt
unfolding step
steps [] a = a
steps (e ∷ events) a = steps events (step e a)

-- The loop of `drain`: in each round, what the others do before the lock is taken, and whether the
-- timeout has passed when the status has been read. Without an outcome it still waits.
unfoldable pub drain_rounds : List (List Event × Bool) → Attempt → Option DrainOutcome × Attempt
drain_rounds [] a = (none, a)
drain_rounds ((events, late) ∷ rounds) a =
    let now = steps events a in
    let rest = drain_rounds rounds now in
    let status = drain_status now.registry in
    if ends_drain status || late then (some status, now) else rest

unfoldable pub drain : List (List Event × Bool) → Attempt → Option DrainOutcome × Attempt
unfolding drain_rounds
drain rounds a =
    let rest = drain_rounds rounds (with_registry a (seal a.registry)) in
    if a.registry.poisoned then (some (failed 0 1), a) else rest

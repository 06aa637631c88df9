-- ===== src/Agent/Completion/Drained.antt =====
-- What a drained attempt has done.
use mathlib.Core.Path.{subst}
use mathlib.Core.Option.{some-injective, none-ne-some}
use piscis_engine.Prelude.{
  ◌≡◌, ◌≢◌, refl, ap, ◌∙◌, ◌⊎◌, inl, inr, ℕ, zero, suc, ◌+◌, Bool, true, false, ◌||◌, Option, some,
  List, [], ◌∷◌, all, length, if◌then◌else◌, arith,
}
use piscis_engine.Agent.Completion.{
  Registry, DrainOutcome, complete, failed, register, finish, count_finish, complete_receipt,
  drop_receipt, seal, drain_status, ends_drain,
}
use piscis_engine.Agent.Completion.Attempt.{
  Event, start, report, abandon, cancel, poison, Attempt, new_attempt, open_receipt, started_by,
  released, if_held, with_registry, step, steps, drain_rounds, drain,
}

-- The registry counts the receipts held, and counts a failure for each cleanup not confirmed, as long
-- as its lock can be taken.
pub record IsAttempt (a : Attempt) : Type 0 where
  pub counted : a.registry.poisoned ≡ false → a.registry.active ≡ a.held
  pub confirmed :
      a.registry.poisoned ≡ false → a.registry.failures ≡ 0 → all (λ b. b) a.reports ≡ true
  pub all_started : a.started ≡ a.held + length a.reports

start-IsAttempt : (a : Attempt) → IsAttempt a → IsAttempt (started_by (register a.registry) a)
unfolding register started_by
start-IsAttempt a h = record {
  counted = ground (arith, h.counted);
  confirmed = ground (arith, h.confirmed);
  all_started = ground (arith, h.all_started);
}

released-IsAttempt :
    (b : Bool) (a : Attempt) (n : ℕ)
    → a.held ≡ suc n
    → IsAttempt a
    → IsAttempt (released (complete_receipt b open_receipt a.registry) b a)
unfolding released complete_receipt drop_receipt finish count_finish
released-IsAttempt b a n e h = record {
  counted = ground (arith, h.counted);
  confirmed = ground (arith, h.confirmed, h.counted);
  all_started = ground (arith, h.all_started);
}

-- A dropped receipt counts as a failed one.
drop_receipt-eq-complete_receipt :
    (r : Registry) → drop_receipt open_receipt r ≡ complete_receipt false open_receipt r
unfolding drop_receipt complete_receipt finish
drop_receipt-eq-complete_receipt r = refl

if_held-IsAttempt :
    (n : ℕ) (a b : Attempt)
    → IsAttempt a
    → ((m : ℕ) → n ≡ suc m → IsAttempt b)
    → IsAttempt (if_held n a b)
if_held-IsAttempt zero a b h k = h
if_held-IsAttempt (suc n) a b h k = k n refl

held-IsAttempt :
    (b : Bool) (a : Attempt)
    → IsAttempt a
    → IsAttempt (if_held a.held a (released (complete_receipt b open_receipt a.registry) b a))
held-IsAttempt b a h = if_held-IsAttempt a.held a _ h (λ m e. released-IsAttempt b a m e h)

step-IsAttempt : (e : Event) (a : Attempt) → IsAttempt a → IsAttempt (step e a)
unfolding step
step-IsAttempt start a h = start-IsAttempt a h
step-IsAttempt (report b) a h = held-IsAttempt b a h
step-IsAttempt abandon a h =
    rw (drop_receipt-eq-complete_receipt a.registry) (held-IsAttempt false a h)
step-IsAttempt cancel a h = record {
  counted = h.counted;
  confirmed = h.confirmed;
  all_started = h.all_started;
}
step-IsAttempt poison a h = record {
  counted = λ e. ground (arith, e);
  confirmed = λ e. ground (arith, e);
  all_started = h.all_started;
}

steps-IsAttempt : (events : List Event) (a : Attempt) → IsAttempt a → IsAttempt (steps events a)
unfolding steps
steps-IsAttempt [] a h = h
steps-IsAttempt (e ∷ events) a h = steps-IsAttempt events (step e a) (step-IsAttempt e a h)

new_attempt-IsAttempt : IsAttempt new_attempt
new_attempt-IsAttempt = record { counted = λ _. refl; confirmed = λ _ _. refl; all_started = refl }

seal-IsAttempt : (a : Attempt) → IsAttempt a → IsAttempt (with_registry a (seal a.registry))
unfolding seal
seal-IsAttempt a h = record {
  counted = ground (arith, h.counted);
  confirmed = ground (arith, h.confirmed);
  all_started = h.all_started;
}

-- Sealed, or with a poisoned lock, a registry stays so and starts nothing.
unfoldable pub is_stopped : Attempt → Bool
is_stopped a = a.registry.is_sealed || a.registry.poisoned

step-stopped :
    (e : Event) (a : Attempt)
    → is_stopped a ≡ true
    → (is_stopped (step e a) ≡ true) × ((step e a).started ≡ a.started)
unfolding is_stopped step register started_by released complete_receipt drop_receipt finish
    count_finish
step-stopped start a h = ground (arith, h)
step-stopped (report b) a h = ground (arith, h)
step-stopped abandon a h = ground (arith, h)
step-stopped cancel a h = (h, refl)
step-stopped poison a h = ground (arith, h)

steps-stopped :
    (events : List Event) (a : Attempt)
    → is_stopped a ≡ true
    → (is_stopped (steps events a) ≡ true) × ((steps events a).started ≡ a.started)
unfolding steps
steps-stopped [] a h = (h, refl)
steps-stopped (e ∷ events) a h =
    let (h', same) = step-stopped e a h in
    let (h'', same') = steps-stopped events (step e a) h' in (h'', same' ∙ same)

seal-stopped : (a : Attempt) → is_stopped (with_registry a (seal a.registry)) ≡ true
unfolding is_stopped seal
seal-stopped a = ground arith

-- What the attempt has done when its registry reads as complete.
pub record IsDrained (a : Attempt) : Type 0 where
  pub none_held : a.held ≡ 0
  pub all_reported : a.started ≡ length a.reports
  pub all_confirmed : all (λ b. b) a.reports ≡ true

complete-IsDrained : (a : Attempt) → IsAttempt a → drain_status a.registry ≡ complete → IsDrained a
unfolding drain_status
complete-IsDrained a h e = record {
  none_held = ground (arith, h.counted, e);
  all_reported = ground (arith, h.counted, h.all_started, e);
  all_confirmed = ground (arith, h.confirmed, e);
}

complete-ne-failed : failed 0 1 ≢ complete
complete-ne-failed e = ground (arith, e)

-- A round ends with its own status, or with the outcome of the rounds after it.
round_cases :
    (last : Bool) (status : DrainOutcome) (now : Attempt) (rest : Option DrainOutcome × Attempt)
    {b : Attempt}
    → (if last then (some status, now) else rest) ≡ (some complete, b)
    → ((status ≡ complete) × (now ≡ b)) ⊎ (rest ≡ (some complete, b))
round_cases true status now rest e =
    inl (some-injective status complete (ap (λ p. p.0) e), ap (λ p. p.1) e)
round_cases false status now rest e = inr e

-- A stopped attempt that is drained.
pub record IsOver (a : Attempt) : Type 0 where
  pub drained : IsDrained a
  pub stopped : is_stopped a ≡ true

drain_rounds_sound :
    (rounds : List (List Event × Bool)) (a : Attempt) {b : Attempt}
    → IsAttempt a
    → is_stopped a ≡ true
    → drain_rounds rounds a ≡ (some complete, b)
    → IsOver b
unfolding drain_rounds
drain_rounds_sound [] a h s e = absurd (none-ne-some complete (ap (λ p. p.0) e))
drain_rounds_sound ((events, late) ∷ rounds) a {b} h s e =
    let now = steps events a in
    let status = drain_status now.registry in
    let valid = steps-IsAttempt events a h in
    let (stopped, same) = steps-stopped events a s in
    elim (round_cases (ends_drain status || late) status now (drain_rounds rounds now) e) [
      | inl (done, eq) ↦
          subst IsOver eq
            (record { drained = complete-IsDrained now valid done; stopped = stopped })
      | inr e' ↦ drain_rounds_sound rounds now valid stopped e'
    ]

-- If `drain` returns `Complete`, after anything that the owners of a new attempt did before, and
-- whatever they did while it waited, then no receipt is held, every worker that was started has
-- reported and confirmed its cleanup, and nothing that is done later starts another.
pub drain-complete :
    (before : List Event) (rounds : List (List Event × Bool)) (later : List Event) {b : Attempt}
    → drain rounds (steps before new_attempt) ≡ (some complete, b)
    → IsDrained b × ((steps later b).started ≡ b.started)
unfolding drain
drain-complete before rounds later {b} e =
    let a = steps before new_attempt in
    let h = steps-IsAttempt before new_attempt new_attempt-IsAttempt in
    let sealed = with_registry a (seal a.registry) in
    elim (round_cases a.registry.poisoned (failed 0 1) a (drain_rounds rounds sealed) e) [
      | inl (x, y) ↦ absurd (complete-ne-failed x)
      | inr e' ↦
          let o = drain_rounds_sound rounds sealed (seal-IsAttempt a h) (seal-stopped a) e' in
          (o.drained, (steps-stopped later b o.stopped).1)
    ]

-- ===== src/Agent/Plan/Stored.antt =====
-- What the store of plans holds after any steps of calls of `plan_todo`.
use mathlib.Core.Path.{subst}
use mathlib.Core.Option.{some-injective, none-ne-some}
use mathlib.Core.List.{Memᴰ}
use piscis_engine.Prelude.{
  ℕ, zero, suc, Bool-cases, ◌⊎◌, none, ap, ◌≡◌, refl, sym, ◌∙◌, inl, inr, Option-cases, Option,
  some, List, [], ◌∷◌, Text, text_eq, text_eq_sound, text_eq_refl, if◌then◌else◌, arith,
}
use piscis_engine.Agent.Plan.{PlanTodoItem, Checked, valid, invalid, validate_todos}
use piscis_engine.Agent.Plan.Valid.{IsPlan, validate_todos_iff}
use piscis_engine.Agent.Plan.Tool.{
  PlanState, ToolContext, PlanInput, ToolResult, when_valid, PlanWorld, plan_of, insert_plan,
  store_plan, checked_store, update_plan, lock_plan_todo, emit_session, take_at, after_head,
  emitted,
}

-- A plan of a session whose event the sink was given, or is still to be given.
abbrev pub IsAnnounced : PlanWorld → Text → List PlanTodoItem → Type 0
IsAnnounced w id items = Memᴰ (id, items) w.pending ⊎ Memᴰ (id, items) w.sent

-- Every plan of the store is one that `validate_todos` accepts, and its event was announced.
pub record IsStored (w : PlanWorld) : Type 0 where
  pub plans :
      (id : Text) (items : List PlanTodoItem)
      → plan_of w.plans id ≡ some items
      → IsPlan items × IsAnnounced w id items

plan_of-insert_plan :
    (plans : PlanState) (k : Text) (items : List PlanTodoItem) (id : Text)
    → plan_of (insert_plan plans k items) id
      ≡ (if text_eq k id then some items else plan_of plans id)
unfolding plan_of insert_plan
plan_of-insert_plan [] k items id = refl
plan_of-insert_plan ((j, old) ∷ plans) k items id = ground (
  arith,
  plan_of-insert_plan plans k items id,
  text_eq_sound j k,
  text_eq_sound k id,
  text_eq_sound j id,
  text_eq_refl id,
)

later-IsAnnounced :
    (w : PlanWorld) (k id : Text) (next items : List PlanTodoItem)
    → IsAnnounced w id items
    → Memᴰ (id, items) ((k, next) ∷ w.pending) ⊎ Memᴰ (id, items) w.sent
later-IsAnnounced w k id next items (inl m) = inl (Memᴰ.tail m)
later-IsAnnounced w k id next items (inr m) = inr m

chosen-IsAnnounced :
    (w : PlanWorld) (k id : Text) (next items : List PlanTodoItem)
    → IsPlan next
    → IsStored w
    → (if text_eq k id then some next else plan_of w.plans id) ≡ some items
    → IsPlan items × (Memᴰ (id, items) ((k, next) ∷ w.pending) ⊎ Memᴰ (id, items) w.sent)
chosen-IsAnnounced w k id next items n h e = elim (Bool-cases (text_eq k id)) [
  | inl same ↦
      let stored : next ≡ items = some-injective next items (rw same at e) in
      let named : k ≡ id = text_eq_sound k id same in
      (subst IsPlan stored n, inl (Memᴰ.head (sym (λ i. (named i, stored i)))))
  | inr other ↦
      let (plan, announced) = h.plans id items (rw other at e) in
      (plan, later-IsAnnounced w k id next items announced)
]

store_plan-IsStored :
    (ctx : ToolContext) (next : List PlanTodoItem) (w : PlanWorld)
    → IsPlan next
    → IsStored w
    → IsStored (store_plan ctx next w).1
unfolding store_plan
store_plan-IsStored ctx next w n h = record {
  plans = λ id items e.
      chosen-IsAnnounced w ctx.session_id id next items n h
        (rw (plan_of-insert_plan w.plans ctx.session_id next id) at e);
}

when_valid-IsStored :
    (c : Checked (Unit {0})) (w : PlanWorld) (r : ToolResult × PlanWorld)
    → IsStored w
    → (c ≡ valid tt → IsStored r.1)
    → IsStored (when_valid c w r).1
unfolding when_valid
when_valid-IsStored (invalid e) w r h k = h
when_valid-IsStored (valid _) w r h k = k refl

checked_store-IsStored :
    (ctx : ToolContext) (next : List PlanTodoItem) (w : PlanWorld)
    → IsStored w
    → IsStored (checked_store ctx next w).1
unfolding checked_store
checked_store-IsStored ctx next w h =
    when_valid-IsStored (validate_todos next) w (store_plan ctx next w) h
      (λ e. store_plan-IsStored ctx next w ((validate_todos_iff next).0 e) h)

update_plan-IsStored :
    (ctx : ToolContext) (input : PlanInput) (todos : List PlanTodoItem) (w : PlanWorld)
    → IsStored w
    → IsStored (update_plan ctx input todos w).1
unfolding update_plan
update_plan-IsStored ctx input todos w h =
    when_valid-IsStored (validate_todos todos) w _ h (λ e. checked_store-IsStored ctx _ w h)

lock_plan_todo-IsStored :
    (ctx : ToolContext) (input : PlanInput) (w : PlanWorld)
    → IsStored w
    → IsStored (lock_plan_todo ctx input w).1
unfolding lock_plan_todo
lock_plan_todo-IsStored ctx input w h = elim (Option-cases input.todos) [
  | inl e ↦ rw e h
  | inr (todos, e) ↦ rw e (update_plan-IsStored ctx input todos w h)
]

-- An element is the one taken, or one of the others.
head-mem :
    {A : Type 0} {a x y : A} {xs ys : List A}
    → ◌≡◌ {A = Option (A × List A)} (some (x, xs)) (some (y, ys))
    → Memᴰ a (x ∷ xs)
    → (a ≡ y) ⊎ Memᴰ a ys
head-mem {a} {x} {y} {xs} {ys} e (Memᴰ.head p) =
    inl (p ∙ ap (λ q. q.0) (some-injective (x, xs) (y, ys) e))
head-mem {a} {x} {y} {xs} {ys} e (Memᴰ.tail m) =
    inr (subst (Memᴰ a) (ap (λ q. q.1) (some-injective (x, xs) (y, ys) e)) m)

tail-mem :
    {A : Type 0} {a x y : A} {ys : List A} (xs : List A) (o : Option (A × List A))
    → ((z : A) (zs : List A) → o ≡ some (z, zs) → Memᴰ a xs → (a ≡ z) ⊎ Memᴰ a zs)
    → after_head x o ≡ some (y, ys)
    → Memᴰ a (x ∷ xs)
    → (a ≡ y) ⊎ Memᴰ a ys
tail-mem {x} {y} {ys} xs none k e m = absurd (none-ne-some (y, ys) e)
tail-mem {a} {x} {y} {ys} xs (some (z, zs)) k e (Memᴰ.head p) =
    inr (subst (Memᴰ a) (ap (λ q. q.1) (some-injective (z, x ∷ zs) (y, ys) e)) (Memᴰ.head p))
tail-mem {a} {x} {y} {ys} xs (some (z, zs)) k e (Memᴰ.tail m) = elim (k z zs refl m) [
  | inl p ↦ inl (p ∙ ap (λ q. q.0) (some-injective (z, x ∷ zs) (y, ys) e))
  | inr l ↦
      inr (subst (Memᴰ a) (ap (λ q. q.1) (some-injective (z, x ∷ zs) (y, ys) e)) (Memᴰ.tail l))
]

taken-mem :
    {A : Type 0} {a : A} (n : ℕ) (xs : List A) (y : A) (ys : List A)
    → take_at n xs ≡ some (y, ys)
    → Memᴰ a xs
    → (a ≡ y) ⊎ Memᴰ a ys
unfolding take_at
taken-mem n [] y ys e m = absurd (none-ne-some (y, ys) e)
taken-mem zero (x ∷ xs) y ys e m = head-mem e m
taken-mem (suc n) (x ∷ xs) y ys e m = tail-mem xs (take_at n xs) (taken-mem n xs) e m

emitted-IsAnnounced :
    (w : PlanWorld) (y : Text × List PlanTodoItem) (ys : List (Text × List PlanTodoItem))
    (id : Text) (items : List PlanTodoItem)
    → (Memᴰ (id, items) w.pending → ((id, items) ≡ y) ⊎ Memᴰ (id, items) ys)
    → IsAnnounced w id items
    → Memᴰ (id, items) ys ⊎ Memᴰ (id, items) (y ∷ w.sent)
emitted-IsAnnounced w y ys id items k (inl m) = elim (k m) [
  | inl same ↦ inr (Memᴰ.head same)
  | inr other ↦ inl other
]
emitted-IsAnnounced w y ys id items k (inr m) = inr (Memᴰ.tail m)

emitted-IsStored :
    (w : PlanWorld) (o : Option ((Text × List PlanTodoItem) × List (Text × List PlanTodoItem)))
    → ((y : Text × List PlanTodoItem) (ys : List (Text × List PlanTodoItem))
        → o ≡ some (y, ys)
        → (id : Text) (items : List PlanTodoItem) → Memᴰ (id, items) w.pending
        → ((id, items) ≡ y) ⊎ Memᴰ (id, items) ys)
    → IsStored w
    → IsStored (emitted w o)
emitted-IsStored w none k h = h
emitted-IsStored w (some (y, ys)) k h = record {
  plans = λ id items f.
      let (plan, announced) = h.plans id items f in
      (plan, emitted-IsAnnounced w y ys id items (k y ys refl id items) announced);
}

emit_session-IsStored : (n : ℕ) (w : PlanWorld) → IsStored w → IsStored (emit_session n w)
unfolding emit_session
emit_session-IsStored n w h =
    emitted-IsStored w (take_at n w.pending) (λ y ys e id items m. taken-mem n w.pending y ys e m) h

-- What the calls of all the sessions do, in the order in which it happens: a call takes the lock and
-- releases it, or the event of an earlier one goes to the sink.
pub data Step : Type 0 where
  locks : ToolContext → PlanInput → Step
  emits : ℕ → Step

unfoldable pub run_steps : List Step → PlanWorld → PlanWorld
run_steps [] w = w
run_steps (locks ctx input ∷ steps) w = run_steps steps (lock_plan_todo ctx input w).1
run_steps (emits n ∷ steps) w = run_steps steps (emit_session n w)

run_steps-IsStored : (steps : List Step) (w : PlanWorld) → IsStored w → IsStored (run_steps steps w)
unfolding run_steps
run_steps-IsStored [] w h = h
run_steps-IsStored (locks ctx input ∷ steps) w h =
    run_steps-IsStored steps (lock_plan_todo ctx input w).1 (lock_plan_todo-IsStored ctx input w h)
run_steps-IsStored (emits n ∷ steps) w h =
    run_steps-IsStored steps (emit_session n w) (emit_session-IsStored n w h)

abbrev pub no_plans : PlanWorld
no_plans = record { plans = []; pending = []; sent = [] }

no_plans-IsStored : IsStored no_plans
unfolding plan_of
no_plans-IsStored = record { plans = λ id items e. ground (arith, e) }

-- After any steps of calls of the tool by any sessions, from an empty store and however the calls
-- overlap, a plan of a session that the store holds is one that `validate_todos` accepts, and its event
-- was given to the sink or waits to be given.
pub stored_plans :
    (steps : List Step) (id : Text) {items : List PlanTodoItem}
    → plan_of (run_steps steps no_plans).plans id ≡ some items
    → IsPlan items × IsAnnounced (run_steps steps no_plans) id items
stored_plans steps id {items} e =
    (run_steps-IsStored steps no_plans no_plans-IsStored).plans id items e

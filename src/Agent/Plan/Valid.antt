-- ===== src/Agent/Plan/Valid.antt =====
-- What `validate_todos` of agent/plan.rs accepts.
use piscis_engine.Prelude.{
  ◌≡◌, refl, ◌↔◌, ℕ, suc, ◌+◌, ◌≤◌, Bool, true, false, not, ◌&&◌, List, [], ◌∷◌, any, all, count,
  is_empty, Text, text_eq, is_blank, if◌then◌else◌, arith, map, inl, inr, ◌⊎◌,
}
use piscis_engine.Agent.Plan.{
  PlanTodoItem, normalized, is_status, is_running_item, PlanError, Checked, valid, invalid,
  check_items, check_in_progress, validate_todos,
}

-- An item with an id, a content and one of the four statuses.
unfoldable pub is_item : PlanTodoItem → Bool
is_item item = not (is_blank item.id) && not (is_blank item.content) && is_status item.status

unfoldable pub are_distinct : List Text → Bool
are_distinct [] = true
are_distinct (id ∷ ids) = not (any (text_eq id) ids) && are_distinct ids

abbrev pub trimmed_items : List PlanTodoItem → List PlanTodoItem
trimmed_items = map normalized

abbrev pub ids_of : List PlanTodoItem → List Text
ids_of = map (λ i. i.id)

pub record IsPlan (items : List PlanTodoItem) : Type 0 where
  pub some_item : is_empty items ≡ false
  pub complete : all is_item (trimmed_items items) ≡ true
  pub distinct : are_distinct (ids_of (trimmed_items items)) ≡ true
  pub one_in_progress : count is_running_item (trimmed_items items) ≤ 1

-- No id of the items has been seen.
unfoldable are_new : List Text → List Text → Bool
are_new [] seen = true
are_new (id ∷ ids) seen = not (any (text_eq id) seen) && are_new ids seen

unfoldable good_items : List PlanTodoItem → List Text → Bool
unfolding are_new
good_items items seen =
    all is_item (trimmed_items items)
    && (are_distinct (ids_of (trimmed_items items)) && are_new (ids_of (trimmed_items items)) seen)

text_eq_comm : (s t : Text) → text_eq s t ≡ text_eq t s
unfolding text_eq
text_eq_comm [] [] = refl
text_eq_comm [] (y ∷ t) = refl
text_eq_comm (x ∷ s) [] = refl
text_eq_comm (x ∷ s) (y ∷ t) = ground (arith, text_eq_comm s t)

are_new_cons :
    (ids : List Text) (id : Text) (seen : List Text)
    → are_new ids (id ∷ seen) ≡ (not (any (text_eq id) ids) && are_new ids seen)
unfolding are_new
are_new_cons [] id seen = refl
are_new_cons (x ∷ ids) id seen = ground (arith, are_new_cons ids id seen, text_eq_comm x id)

check_items_lem :
    (items : List PlanTodoItem) (seen : List Text) (n : ℕ)
    → (good_items items seen ≡ true)
    → check_items items seen n ≡ valid (n + count is_running_item (trimmed_items items))
unfolding good_items check_items is_item are_distinct are_new
check_items_lem [] seen n h = ground arith
check_items_lem (raw ∷ items) seen n h =
    let item = normalized raw in
    ground (
      arith,
      check_items_lem items (item.id ∷ seen) (if is_running_item item then suc n else n),
      are_new_cons (ids_of (trimmed_items items)) item.id seen,
    )

check_items_sound :
    (items : List PlanTodoItem) (seen : List Text) (n : ℕ) {m : ℕ}
    → check_items items seen n ≡ valid m
    → (good_items items seen ≡ true) × (m ≡ n + count is_running_item (trimmed_items items))
unfolding good_items check_items is_item are_distinct are_new
check_items_sound [] seen n h = ground arith
check_items_sound (raw ∷ items) seen n {m} h =
    let item = normalized raw in
    ground (
      arith,
      check_items_sound items (item.id ∷ seen) (if is_running_item item then suc n else n) {m = m},
      are_new_cons (ids_of (trimmed_items items)) item.id seen,
    )

are_new_nil : (ids : List Text) → are_new ids [] ≡ true
unfolding are_new
are_new_nil [] = refl
are_new_nil (id ∷ ids) = are_new_nil ids

checked_cases :
    {A : Type 0} (c : Checked A) → ((a : A) × (c ≡ valid a)) ⊎ ((e : PlanError) × (c ≡ invalid e))
checked_cases (valid a) = inl (a, refl)
checked_cases (invalid e) = inr (e, refl)

validate_todos_sound : (items : List PlanTodoItem) → validate_todos items ≡ valid tt → IsPlan items
unfolding validate_todos check_in_progress good_items
validate_todos_sound items h = elim (checked_cases (check_items items [] 0)) [
  | inl (n, e) ↦ record {
    some_item = ground (arith, h);
    complete = ground (arith, check_items_sound items [] 0 e);
    distinct = ground (arith, check_items_sound items [] 0 e);
    one_in_progress = ground (arith, h, e, check_items_sound items [] 0 e);
  }
  | inr (x, e) ↦ ground (arith, h, e)
]

validate_todos_complete :
    (items : List PlanTodoItem) → IsPlan items → validate_todos items ≡ valid tt
unfolding validate_todos check_in_progress good_items
validate_todos_complete items h =
    let good = check_items_lem items [] 0 in
    ground (
      arith,
      h.some_item,
      h.complete,
      h.distinct,
      h.one_in_progress,
      good,
      are_new_nil (ids_of (trimmed_items items)),
    )

-- A list of todos is accepted exactly when it has an item, every item has, once trimmed, an id,
-- a content and one of the four statuses, the trimmed ids are distinct, and at most one item is
-- in progress.
pub validate_todos_iff :
    (items : List PlanTodoItem) → (validate_todos items ≡ valid tt) ↔ IsPlan items
validate_todos_iff items = (validate_todos_sound items, validate_todos_complete items)

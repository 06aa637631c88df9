-- ===== src/Agent/Plan/Merging.antt =====
-- What `merge_todos` of agent/plan.rs does to the items, read by id.
use mathlib.Core.Path.{fun_ext, sym}
use mathlib.Core.List.{append-nil, append_assoc}
use piscis_engine.Prelude.{
  ◌≡◌, refl, ap, ◌∙◌, Bool-cases, inl, inr, Option, some, List, [], ◌∷◌, ◌++◌, find, Text, text_eq,
  text_eq_sound, text_eq_refl, if◌then◌else◌, arith,
}
use piscis_engine.Agent.Plan.{PlanTodoItem, merge_todo, merge_todos}
use piscis_engine.Agent.Plan.Valid.{ids_of}

-- A plan as a function from ids.
abbrev pub item_of : List PlanTodoItem → Text → Option PlanTodoItem
item_of items id = find (λ i. text_eq i.id id) items

abbrev pub replaced : (Text → Option PlanTodoItem) → PlanTodoItem → Text → Option PlanTodoItem
replaced f update id = if text_eq update.id id then some update else f id

-- The updates, one after the other, on such a function.
pub replayed : (Text → Option PlanTodoItem) → List PlanTodoItem → Text → Option PlanTodoItem
replayed f [] = f
replayed f (update ∷ updates) = replayed (replaced f update) updates

item_of-merge_todo :
    (items : List PlanTodoItem) (update : PlanTodoItem) (id : Text)
    → item_of (merge_todo items update) id ≡ replaced (item_of items) update id
unfolding merge_todo
item_of-merge_todo [] update id = refl
item_of-merge_todo (item ∷ items) update id = ground (
  arith,
  item_of-merge_todo items update id,
  text_eq_sound item.id update.id,
  text_eq_sound update.id id,
  text_eq_sound item.id id,
  text_eq_refl id,
)

-- The ids in place keep their order, and new ones come after them.
pub Extends : List Text → List Text → Type 0
Extends ids merged = (new : List Text) × (merged ≡ ids ++ new)

cons-Extends :
    (id : Text) (ids merged : List Text) → Extends ids merged → Extends (id ∷ ids) (id ∷ merged)
unfolding Extends
cons-Extends id ids merged (new, e) = (new, ap (id ∷◌) e)

refl-Extends : (ids : List Text) → Extends ids ids
unfolding Extends
refl-Extends ids = ([], sym (append-nil ids))

trans-Extends : (a b c : List Text) → Extends a b → Extends b c → Extends a c
unfolding Extends
trans-Extends a b c (new, e) (newer, h) = (new ++ newer, rw (h, e) (append_assoc a new newer))

merge_todo-Extends :
    (items : List PlanTodoItem) (update : PlanTodoItem)
    → Extends (ids_of items) (ids_of (merge_todo items update))
unfolding merge_todo Extends
merge_todo-Extends [] update = (update.id ∷ [], refl)
merge_todo-Extends (item ∷ items) update = elim (Bool-cases (text_eq item.id update.id)) [
  | inl e ↦
      rw (e, text_eq_sound item.id update.id e)
        (cons-Extends update.id (ids_of items) (ids_of items) (refl-Extends (ids_of items)))
  | inr e ↦ rw e (
      cons-Extends item.id (ids_of items) (ids_of (merge_todo items update))
        (merge_todo-Extends items update))
]

-- A merge is, read by id, its updates replayed one after the other: an id has the last update made
-- under it, or else the item that it had; and the ids that were in the plan keep their order, with
-- the new ones after them.
pub merge_todos_refines :
    (items updates : List PlanTodoItem)
    → (item_of (merge_todos items updates) ≡ replayed (item_of items) updates)
      × Extends (ids_of items) (ids_of (merge_todos items updates))
unfolding merge_todos replayed
merge_todos_refines items [] = (refl, refl-Extends (ids_of items))
merge_todos_refines items (update ∷ updates) =
    let (same, extends) = merge_todos_refines (merge_todo items update) updates in
    (
      same ∙ ap (λ f. replayed f updates) (fun_ext (item_of-merge_todo items update)),
      trans-Extends (ids_of items) (ids_of (merge_todo items update)) _
          (merge_todo-Extends items update) extends,
    )

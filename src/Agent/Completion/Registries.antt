-- ===== src/Agent/Completion/Registries.antt =====
-- The map of agent/tool_completion.rs from cancellation flags, by address, to registries.
use piscis_engine.Prelude.{ℕ, Bool, Option, none, some, List, ◌∷◌, ◌==◌, find, keep}

-- A flag's address and its registry's. `live` tells whether an owner still holds a registry, which
-- holds its flag, so that no other flag has the address of a live registry's.
abbrev pub Registries : Type 0
Registries = List (ℕ × ℕ)

abbrev pub live_entries : (ℕ → Bool) → Registries → Registries
live_entries live = keep (λ e. live e.1)

abbrev pub registry_at : ℕ → Registries → Option (ℕ × ℕ)
registry_at flag = find (λ e. e.0 == flag)

-- `insert`: dead entries are gone, so that an entry is inserted only where there is none.
unfoldable pub for_cancel : (ℕ → Bool) → (new : ℕ) → (flag : ℕ) → Registries → ℕ × Registries
for_cancel live new flag all_entries =
    let entries = live_entries live all_entries in
    elim (registry_at flag entries) [
      | some e ↦ (e.1, entries)
      | none ↦ (new, (flag, new) ∷ entries)
    ]

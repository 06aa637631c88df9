-- ===== src/Examples/Assignments.antt =====
-- An assignment on a concrete board.
use piscis_engine.Prelude.{refl, Option, none, some, List, [], Text, text}
use piscis_engine.Store.{Db}
use piscis_engine.Services.Base.{World}
use piscis_engine.Services.Assign.{AssignKoiArgs, Assigned, assign_koi}
use piscis_engine.Services.Assigning.{IsAssigned, assign_koi_lem}
use piscis_engine.Examples.Board.{world, env, main_agent}

abbrev assignment : AssignKoiArgs
assignment = record {
  pool_id = text "p1";
  koi_id = text "Ada";
  task = text " write the report ";
  priority = [];
  timeout_secs = 60;
  context = some (text "Drafts are in the project.");
  depends_on = none;
}

assign_koi_lem_example :
    (a : Assigned) × IsAssigned
      (world []).db
      a
      (assign_koi env main_agent assignment (world [])).1.db
unfolding assign_koi piscis_engine.Services.Base.resolve_pool piscis_engine.Prelude.trim
    piscis_engine.Prelude.text_eq piscis_engine.Store.Pools.resolve_pool_session_identifier
    piscis_engine.Store.Pools.hydrate_members piscis_engine.Store.Kois.resolve_koi_identifier
    piscis_engine.Services.Members.ensure_pool_member piscis_engine.Store.Pools.is_pool_member
    piscis_engine.Store.Todos.create_koi_todo piscis_engine.Store.Messages.insert_pool_message_ext
    piscis_engine.Prelude.byte_length
assign_koi_lem_example = (_, assign_koi_lem env main_agent assignment (world []) refl)

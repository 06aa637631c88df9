-- ===== src/Lib.antt =====
-- A model of the project pool of piscis-engine: the board of todos on which several agents, the
-- Kois, work under one main agent, Piscis, and the code that hands the todos out, runs turns on
-- them and keeps the board right; and of the parts around a single agent that have rules of their
-- own: its plan, its workers, its token budget, the journal of its edits, the policy on its tool
-- calls, and what is done with faulty answers of a language model.
--
-- The parts, and the files that model them:
--   Model         the rows and the events (piscis-core/src/models.rs, piscis-core/src/host.rs).
--   Json          the JSON values of message metadata.
--   Integration   the gate that makes a todo wait for the todo it depends on and for the merge of
--                 its branch (piscis-core/src/integration.rs).
--   Store         the tables and the SQL statements (piscis-kernel/src/store/db.rs): Todos, Claims,
--                 Kois, Pools, Messages; Rows and Lookup hold lemmas.
--   Project       coordination signals in messages, and the assessment of a project
--                 (piscis-core/src/project_state.rs): Signals, Assess; the others are proofs.
--   Services      the operations that tools and user interfaces call
--                 (piscis-kernel/src/pool/services.rs): Base, Todos, Delete, Members, Lifecycle, Wait,
--                 Assign, Send, and the message texts in Messages; the other children are proofs.
--   Coordinator   the turn of a Koi on a todo, from the dispatch fence to the outcome, resuming,
--                 replacing, mentions, the scan for pending todos, and the watchdog
--                 (piscis-kernel/src/pool/coordinator.rs): Turn, Outcome, Execute, Recovery, Activate,
--                 Mention; the other children are proofs.
--   Agent         what an agent keeps while it works (piscis-kernel/src/agent): Plan for plan.rs, with
--                 the tool of piscis-kernel/src/tools/plan_todo.rs in Plan/Tool; Completion for
--                 tool_completion.rs; Budget for harness/budget.rs and the budget of
--                 piscis-kernel/src/llm/mod.rs; Journal for file_journal.rs, with Journal/Undo,
--                 and Journal/Paths for its paths and those of piscis-kernel/src/tools/file_write.rs.
--   Llm           faulty answers (piscis-kernel/src/llm): Repair for json_repair.rs, ErrorClass for
--                 error_class.rs.
--   Policy        the decision on a tool call (piscis-kernel/src/policy/gate.rs): Decision, Gate; and the
--                 scan for injections (piscis-kernel/src/security/injection.rs): Injection.
--   Examples      concrete inputs.
-- The coordinator calls the services and the gate; the services call the store. The parts of Agent,
-- Llm and Policy are called by the loop of an agent, and not by one another.
-- A function of the source has its name here; a step of a long function has a name of its own, and
-- a comment where it is not plain which step it is.
--
-- State. A database is a record of tables, each a list of rows. A service or a turn is a
-- function from a world, the database and the log of emitted events, to a result and a world; it
-- stops at the first error and keeps what it wrote before, as `?` does. The closures that the
-- source runs under the database lock are single steps. Statements check the primary and foreign
-- keys that the schema has and fail as SQLite does; failures of SQLite itself, of the lock and
-- of the file are left out.
--
-- Parameters. The clock, fresh identifiers, Unicode lower case and the class of alphanumeric
-- characters come from a record `Env`; the subagent's turn, which may itself act on the board,
-- and the setup of a git worktree come from a record `Host`; the merge of branches from a record
-- `Git`. Regular expressions, paths, lower case and base64 of the policy come from a record
-- `Platform`; the JSON parser, the product of a number with 0.85 in floating point, and the file
-- that the operating system finds at a path of the journal are arguments. The theorems hold for
-- all of them; the one on undo takes different plain paths of the workspace to be different
-- files, which can be read and written.
--
-- Concurrency. The methods of the completion registry hold a lock from their first read to their
-- last write and are steps; a call of the plan tool is two, the update under the lock and the
-- event after it. A theorem on them holds for every order of the steps. What others do while
-- `drain` sleeps is an argument, a list of steps for each round.
--
-- Data. Texts are lists of code points. A status or event type is a data type with one
-- constructor for each word that the code names and `other` for the rest. The metadata of a
-- message is the object that its JSON text encodes: what a service put there is a data type, and
-- the entries that the enrichment adds and the assessment reads are JSON values (Json). Instants
-- are seconds. A stored `updated_at` keeps which of the two text formats it has, because the
-- recovery compares the texts.
--
-- Numbers. The counters of the completion registry stop at the greatest `usize`, and percentages
-- wrap at 32 bits, where the source says so.
--
-- Fuel. The loop of `wait_for_koi` takes the number of its rounds; each round sleeps a
-- millisecond or more, so one round more than the timeout has milliseconds, at most 1,800,001,
-- is enough. The loops of the repair of JSON take the length of their text: each iteration takes
-- a character from it. All else is structural recursion.
--
-- Not modelled: the prompts and summaries for models and users, the session identifiers of
-- turns, the tasks that the source spawns after an answer (the answer carries the arguments of
-- the turn instead), the review lists of the journal, and the rest of the engine: the loop of an
-- agent, its requests and their compaction, the clients of model providers, the tools
-- themselves, the secrets and the command line, which are calls of other systems for the most
-- part.
pub mod Prelude
pub mod Json
pub mod Model
pub mod Integration
pub mod Store
pub mod Services
pub mod Project
pub mod Coordinator
pub mod Agent
pub mod Llm
pub mod Policy
pub mod Examples

-- ===== src/Services/Wait.antt =====
-- services.rs, `wait_for_koi`. The counts of todos by status and the texts of the answer are left
-- out.
use piscis_engine.Prelude.{
  ℕ, zero, suc, ◌-◌, ◌*◌, min, max, Bool, true, false, not, ◌&&◌, ◌||◌, Option, none, some, List,
  Text, text_eq, starts_with, is_some_text, any, keep, length, leb, ◌==◌, if◌then◌else◌,
}
use piscis_engine.Model.{KoiTodo, TodoStatus, PoolSession}
use piscis_engine.Services.Base.{
  M, ◌>>=◌, ◌>>◌, pure, CallerContext, check_piscis_only, resolve_pool,
}
use piscis_engine.Store.{Db, Error, Result, ok, err}

pub record WaitForKoiArgs : Type 0 where
  pub pool_id : Text
  pub koi_id : Option Text
  pub todo_id : Option Text
  pub timeout_secs : ℕ
  pub min_wait_secs : ℕ
  pub initial_backoff_ms : ℕ
  pub max_backoff_ms : ℕ

abbrev pub todo_is_wait_terminal : TodoStatus → Bool
todo_is_wait_terminal TodoStatus.done = true
todo_is_wait_terminal TodoStatus.needs_review = true
todo_is_wait_terminal TodoStatus.blocked = true
todo_is_wait_terminal TodoStatus.cancelled = true
todo_is_wait_terminal _ = false

unfoldable pub wait_backoff_ms : ℕ → ℕ → ℕ → ℕ → ℕ
wait_backoff_ms value default low high = if value == 0 then default else max low (min value high)

-- `map(|k| id == k || id.starts_with(k)).unwrap_or(true)`.
abbrev pub matches : Option Text → Text → Bool
matches none id = true
matches (some k) id = text_eq id k || starts_with id k

unfoldable pub wait_snapshot : Text → Option Text → Option Text → Db → List KoiTodo
wait_snapshot pool koi todo db =
    keep (λ t. is_some_text t.pool_session_id pool && matches koi t.owner_id && matches todo t.id)
      db.todos

-- What one round of the loop reads: the milliseconds since the start, the board, and the flag.
pub record Poll : Type 0 where
  pub elapsed : ℕ
  pub db : Db
  pub cancelled : Bool

pub record WaitReply : Type 0 where
  pub elapsed_ms : ℕ
  pub timed_out : Bool
  pub terminal_reached : Bool
  pub matched_todo_count : ℕ
  pub terminal_todos : List KoiTodo

abbrev pub any_terminal : List KoiTodo → Bool
any_terminal todos = any (λ t. todo_is_wait_terminal t.status) todos

abbrev pub wait_reply : ℕ → ℕ → List KoiTodo → WaitReply
wait_reply timeout elapsed todos = record {
  elapsed_ms = elapsed;
  timed_out = leb timeout elapsed && not (any_terminal todos);
  terminal_reached = any_terminal todos;
  matched_todo_count = length todos;
  terminal_todos = keep (λ t. todo_is_wait_terminal t.status) todos;
}

-- `(waited_minimum && terminal) || timed_out`.
abbrev pub is_over : ℕ → ℕ → ℕ → List KoiTodo → Bool
is_over timeout min_wait elapsed todos =
    (leb min_wait elapsed && any_terminal todos) || leb timeout elapsed

unfoldable pub sleep_for : ℕ → ℕ → ℕ → ℕ
sleep_for timeout backoff elapsed = max (min backoff (timeout - elapsed)) 1

-- The length of each round's sleep is fixed by the rounds before it; `polls n` is what the round
-- with number n reads after those sleeps.
unfoldable pub wait_loop :
    ℕ → (ℕ → Poll) → (Db → List KoiTodo) → ℕ → ℕ → ℕ → Option (Result WaitReply)
wait_loop zero polls snapshot timeout min_wait n = none
wait_loop (suc fuel) polls snapshot timeout min_wait n =
    let rest = wait_loop fuel polls snapshot timeout min_wait (suc n) in
    let elapsed = (polls n).elapsed in
    let todos = snapshot (polls n).db in
    if (polls n).cancelled
    then some (err Error.user_cancelled)
    else if is_over timeout min_wait elapsed todos
    then some (ok (wait_reply timeout elapsed todos))
    else rest

-- `Duration::from_millis(wait_backoff_ms(…))` doubled after each round, up to its maximum.
unfoldable pub backoff_at : ℕ → ℕ → ℕ → ℕ
backoff_at initial highest zero = initial
backoff_at initial highest (suc n) = min (backoff_at initial highest n * 2) highest

-- The timeout in milliseconds.
abbrev pub wait_timeout : WaitForKoiArgs → ℕ
wait_timeout args = (if args.timeout_secs == 0 then 60 else min args.timeout_secs 1800) * 1000

abbrev pub least_wait : WaitForKoiArgs → ℕ
least_wait args = min args.min_wait_secs 300 * 1000

-- The sleep after a round of the call.
unfoldable pub wait_sleep : WaitForKoiArgs → (ℕ → Poll) → ℕ → ℕ
unfolding wait_backoff_ms sleep_for backoff_at
wait_sleep args polls n =
    sleep_for (wait_timeout args)
      (backoff_at (wait_backoff_ms args.initial_backoff_ms 250 25 5000)
        (wait_backoff_ms args.max_backoff_ms 2000 25 10000) n)
      (polls n).elapsed

-- The loop of the call, on the pool that the hint resolves to.
unfoldable pub wait_rounds :
    ℕ → (ℕ → Poll) → WaitForKoiArgs → PoolSession → Option (Result WaitReply)
unfolding wait_snapshot wait_loop
wait_rounds fuel polls args session =
    wait_loop fuel polls (wait_snapshot session.id args.koi_id args.todo_id) (wait_timeout args)
      (least_wait args) 0

unfoldable pub wait_for_koi :
    ℕ → (ℕ → Poll) → CallerContext → WaitForKoiArgs → M (Option (Result WaitReply))
unfolding wait_rounds
wait_for_koi fuel polls caller args = do
  check_piscis_only caller
  session ← resolve_pool caller args.pool_id
  pure (wait_rounds fuel polls args session)

-- ===== src/Services/Waiting.antt =====
-- The loop of `wait_for_koi` ends.
use piscis_engine.Prelude.{
  ℕ, zero, suc, ◌+◌, ◌≤◌, ◌<◌, ◌≡◌, refl, ap, Bool, true, false, not, some, List, arith, Bool-cases,
  inl, inr, if◌then◌else◌,
}
use piscis_engine.Model.{KoiTodo, PoolSession}
use piscis_engine.Services.Base.{World, CallerContext, is_piscis, resolve_pool}
use piscis_engine.Store.{Db, Error, Result, ok, err}
use piscis_engine.Services.Wait.{
  Poll, WaitReply, WaitForKoiArgs, wait_for_koi, wait_loop, wait_reply, wait_sleep, wait_timeout,
  is_over, wait_rounds, sleep_for, wait_snapshot, least_wait,
}

-- An answer that is an error of the user's cancellation, or else says that a todo was reached or
-- that the time is over, and not both.
abbrev pub is_answer : Result WaitReply → Bool
is_answer (err Error.user_cancelled) = true
is_answer (err e) = false
is_answer (ok r) = if r.terminal_reached then not r.timed_out else r.timed_out

-- One round, and what the rest of the loop answers if this round does not.
wait_round :
    (fuel : ℕ) (polls : ℕ → Poll) (snapshot : Db → List KoiTodo) (timeout min_wait n : ℕ)
    → (is_over timeout min_wait (polls n).elapsed (snapshot (polls n).db) ≡ false
        → (r : Result WaitReply) × (wait_loop fuel polls snapshot timeout min_wait (suc n) ≡ some r)
          × (is_answer r ≡ true))
    → (r : Result WaitReply) × (wait_loop (suc fuel) polls snapshot timeout min_wait n ≡ some r)
      × (is_answer r ≡ true)
unfolding wait_loop
wait_round fuel polls snapshot timeout min_wait n goes_on = elim (Bool-cases (polls n).cancelled) [
  | inl c ↦ (err Error.user_cancelled, rw c refl, refl)
  | inr c ↦ elim (Bool-cases (is_over timeout min_wait (polls n).elapsed (snapshot (polls n).db))) [
    | inl o ↦ (
      ok (wait_reply timeout (polls n).elapsed (snapshot (polls n).db)),
      rw (c, o) refl,
      ground arith,
    )
    | inr o ↦ let (r, e, a) = goes_on o in (r, rw (c, o) e, a)
  ]
]

wait_loop_answers :
    (fuel : ℕ) (polls : ℕ → Poll) (snapshot : Db → List KoiTodo) (timeout min_wait n : ℕ)
    → ((n : ℕ) → (polls n).elapsed < (polls (suc n)).elapsed)
    → timeout ≤ (polls n).elapsed + fuel
    → (r : Result WaitReply) × (wait_loop (suc fuel) polls snapshot timeout min_wait n ≡ some r)
      × (is_answer r ≡ true)
wait_loop_answers zero polls snapshot timeout min_wait n rises enough =
    wait_round zero polls snapshot timeout min_wait n (λ o. ground arith)
wait_loop_answers (suc fuel) polls snapshot timeout min_wait n rises enough =
    wait_round (suc fuel) polls snapshot timeout min_wait n λ o.
      wait_loop_answers fuel polls snapshot timeout min_wait (suc n) rises
        (omega (arith, rises n, enough))

wait_sleep_positive :
    (args : WaitForKoiArgs) (polls : ℕ → Poll) (n : ℕ) → 1 ≤ wait_sleep args polls n
unfolding wait_sleep sleep_for
wait_sleep_positive args polls n = omega arith

-- A call of Piscis that waits on a pool ends: when each round begins no earlier than the sleep of
-- the round before allows, one round more than the timeout has milliseconds is enough for an
-- answer, which is the user's cancellation, or says either that a todo reached an end or that the
-- time is over.
pub wait_for_koi_ends :
    (polls : ℕ → Poll) (caller : CallerContext) (args : WaitForKoiArgs) (w : World)
    {session : PoolSession}
    → is_piscis caller ≡ true
    → resolve_pool caller args.pool_id w ≡ (ok session, w)
    → ((n : ℕ) → (polls n).elapsed + wait_sleep args polls n ≤ (polls (suc n)).elapsed)
    → (r : Result WaitReply) × (wait_for_koi (suc (wait_timeout args)) polls caller args w
        ≡ (ok (some r), w))
      × (is_answer r ≡ true)
unfolding wait_for_koi wait_rounds
wait_for_koi_ends polls caller args w {session} piscis here sleeps =
    let (r, e, a) =
      wait_loop_answers (wait_timeout args) polls
        (wait_snapshot session.id args.koi_id args.todo_id) (wait_timeout args) (least_wait args) 0
        (λ n. omega (arith, sleeps n, wait_sleep_positive args polls n)) (omega arith) in
    (r, rw (piscis, here) (ap (λ x. (ok x, w)) e), a)

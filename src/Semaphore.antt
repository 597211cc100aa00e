-- ===== src/Semaphore.antt =====
-- src/em_semaphore.c: a counting semaphore is the count that it holds. A call that would wait for
-- ever (no timeout, and nothing to take) is told apart from one that returns an error.
use embedded_middle.Prelude.{
  ℕ, ◌+◌, ◌-◌, ◌<◌, ◌≡◌, arith, ℤ, ltb, if◌then◌else◌, em_no_timeout, em_success,
}
use embedded_middle.Prelude.Int.{eqb_ℤ}

-- What a wait does: it takes one unit, it returns `EM_ERROR`, or it never returns.
pub data Wait : Type 0 where
  acquired : ℕ → Wait
  refused : Wait
  blocked : Wait

-- `sem_init` of the C library accepts every value of a non-negative `int`: SEM_VALUE_MAX is
-- 2 ^ 31 - 1. A larger `uint` that is passed as an `int` would be refused and is not modelled here;
-- Semmng, which looks at the result, tests it itself.
unfoldable pub sem_init : ℕ → ℕ
sem_init value = value

unfoldable pub sem_wait : ℕ → ℤ → Wait
sem_wait sem timeout_ms =
    if eqb_ℤ timeout_ms em_no_timeout
    then (if ltb 0 sem then acquired (sem - 1) else blocked)
    else (if ltb 0 sem then acquired (sem - 1) else refused)

-- The result of the C library's call is not looked at.
unfoldable pub sem_destroy : ℕ → ℤ
sem_destroy sem = em_success

unfoldable pub sem_post : ℕ → ℤ × ℕ
sem_post sem = (em_success, sem + 1)

-- A wait that takes a unit leaves one less.
pub sem_wait-acquired :
    (sem n : ℕ) (timeout_ms : ℤ) → sem_wait sem timeout_ms ≡ acquired n → n + 1 ≡ sem
unfolding sem_wait
sem_wait-acquired sem n timeout_ms e = ground arith

pub sem_wait_pos :
    (sem : ℕ) (timeout_ms : ℤ) → 0 < sem → sem_wait sem timeout_ms ≡ acquired (sem - 1)
unfolding sem_wait
sem_wait_pos sem timeout_ms h = ground arith

pub sem_wait_zero :
    (sem : ℕ) (timeout_ms : ℤ)
    → sem ≡ 0
    → sem_wait sem timeout_ms ≡ (if eqb_ℤ timeout_ms em_no_timeout then blocked else refused)
unfolding sem_wait
sem_wait_zero sem timeout_ms h = ground arith

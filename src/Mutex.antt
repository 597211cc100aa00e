-- ===== src/Mutex.antt =====
-- src/em_mutex.c: a mutex of the C library's threads. What its calls answer is an argument, 0 for success.
use embedded_middle.Prelude.{
  ℕ, ◌==◌, Option, none, some, ℤ, pos, negsuc, if◌then◌else◌, em_success, em_error, em_no_timeout,
}
use embedded_middle.Prelude.Int.{eqb_ℤ}

unfoldable pub mutex_init : ℕ → ℤ
mutex_init answer = pos answer

unfoldable pub mutex_destroy : ℕ → ℤ
mutex_destroy answer = pos answer

-- The mutex by its address; `none` is NULL. The answer is that of pthread_mutex_lock, or with a
-- timeout of pthread_mutex_timedlock.
unfoldable pub mutex_lock : Option ℕ → ℤ → ℕ → ℤ
mutex_lock none timeout_ms answer = em_error
mutex_lock (some mutex) timeout_ms answer =
    if eqb_ℤ timeout_ms em_no_timeout
    then (if answer == 0 then em_success else negsuc 1)
    else (if answer == 0 then em_success else em_error)

unfoldable pub mutex_unlock : ℕ → ℤ
mutex_unlock answer = if answer == 0 then em_success else em_error

-- ===== src/Malloc/Tries.antt =====
-- em_trymalloc of src/em_malloc.c: attempts of em_malloc, with a wait for a call of em_free between each
-- two. What the other tasks do while it waits and what the clock shows then are arguments.
use embedded_middle.Prelude.{
  ℕ, not, if◌then◌else◌, Option, none, some, List, [], ◌∷◌, ℤ, em_success, em_no_wait,
}
use embedded_middle.Prelude.Int.{eqb_ℤ, ltb_ℤ}
use embedded_middle.Time.{Timespec, timespec_sub, calc_timespec2ms}
use embedded_middle.Malloc.{Memmng}
use embedded_middle.Malloc.Calls.{malloc, malloc_locked, free}

-- A call of another task.
pub data Other : Type 0 where
  mallocs : ℕ → Other
  frees : ℕ → Other

unfoldable pub act : Other → Memmng → Memmng
act (mallocs size) mm = (malloc mm size).1
act (frees addr) mm = free mm addr

unfoldable pub acts : List Other → Memmng → Memmng
unfolding act
acts [] mm = mm
acts (o ∷ os) mm = acts os (act o mm)

-- A return of pthread_cond_timedwait, for whatever reason, and the time after it.
pub record Wakeup : Type 0 where
  pub others : List Other
  pub now : Timespec

unfoldable pub passed_ms : Timespec → Timespec → ℤ
passed_ms start_ts now = calc_timespec2ms (timespec_sub now start_ts)

-- The rounds from `while (1)` on, one more than there are returns of the wait; `none` while it waits.
unfoldable pub try_loop : ℕ → ℤ → Timespec → List Wakeup → Memmng → Option (ℕ × Memmng)
unfolding acts passed_ms
try_loop size timeout_ms start_ts [] mm =
    let (malloc_ret, ret, mm') = malloc_locked mm size in
    if eqb_ℤ malloc_ret em_success
    then some (ret, mm')
    else (if eqb_ℤ timeout_ms em_no_wait then some (ret, mm') else none)
try_loop size timeout_ms start_ts (w ∷ ws) mm =
    let (malloc_ret, ret, mm') = malloc_locked mm size in
    let rest = try_loop size timeout_ms start_ts ws (acts w.others mm') in
    if eqb_ℤ malloc_ret em_success
    then some (ret, mm')
    else (if eqb_ℤ timeout_ms em_no_wait
        then some (ret, mm')
        else (if not (ltb_ℤ (passed_ms start_ts w.now) timeout_ms)
            then some (ret, acts w.others mm')
            else rest))

unfoldable pub trymalloc : Memmng → ℕ → ℤ → Timespec → List Wakeup → Option (ℕ × Memmng)
unfolding try_loop
trymalloc mm size timeout_ms start_ts ws = try_loop size timeout_ms start_ts ws mm

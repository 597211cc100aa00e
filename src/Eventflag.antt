-- ===== src/Eventflag.antt =====
-- src/em_eventflag.c, the event flags: a word of flags that tasks set and wait for. What the calls of
-- the C library's threads answer is an argument, 0 for success.
--
-- A call of em_eventflag_wait gives up the mutex while it waits, and once more before it resets the
-- flags it was woken by. What other tasks do to the flags in between is an argument: a list of the
-- calls of theirs that change them.
pub mod Waits
pub mod Liveness
mod Examples
use Prim.Native.Nat.{bit_and, bit_or}
use embedded_middle.Prelude.{
  ℕ, ◌&&◌, Bool, Option, none, some, List, [], ◌∷◌, ℤ, ◌==◌, if◌then◌else◌, em_success, em_error,
  em_err_timeout, em_err_param, em_err_sys, em_no_timeout,
}
use embedded_middle.Prelude.Int.{eqb_ℤ}
use embedded_middle.Prelude.Bits.{complement}

-- `em_eventflg_t`.
pub record Eventflg : Type 0 where
  pub flags : ℕ

unfoldable pub init : ℕ → ℕ → Option Eventflg → ℤ × Option Eventflg
init cond_answer mutex_answer none = (em_err_param, none)
init cond_answer mutex_answer (some ef) =
    let ef' = record ef { flags = 0 } in
    if cond_answer == 0
    then (if mutex_answer == 0 then (em_success, some ef') else (em_err_sys, some ef'))
    else (em_err_sys, some ef')

pub destroy : ℕ → ℕ → Option Eventflg → ℤ
destroy cond_answer mutex_answer none = em_err_param
destroy cond_answer mutex_answer (some ef) =
    if cond_answer == 0 then (if mutex_answer == 0 then em_success else em_err_sys) else em_err_sys

-- What the calls do under the mutex.
pub set_locked : Eventflg → ℕ → Eventflg
set_locked ef flags = record ef { flags = bit_or ef.flags flags }

pub clear_locked : Eventflg → Eventflg
clear_locked ef = record ef { flags = 0 }

-- `ef->flags &= ~flags`.
pub reset_locked : Eventflg → ℕ → Eventflg
reset_locked ef flags = record ef { flags = bit_and ef.flags (complement 32 flags) }

pub set : Option Eventflg → ℕ → ℤ × Option Eventflg
unfolding set_locked
set none flags = (em_err_param, none)
set (some ef) flags = (em_success, some (set_locked ef flags))

pub clear : Option Eventflg → ℤ × Option Eventflg
unfolding clear_locked
clear none = (em_err_param, none)
clear (some ef) = (em_success, some (clear_locked ef))

-- What another task does to the flags: a call of em_eventflag_set, one of em_eventflag_clear, or the
-- end of one of em_eventflag_wait.
pub data Other : Type 0 where
  sets : ℕ → Other
  clears : Other
  resets : ℕ → Other

pub act : Other → Eventflg → Eventflg
unfolding set_locked clear_locked reset_locked
act (sets flags) ef = set_locked ef flags
act clears ef = clear_locked ef
act (resets flags) ef = reset_locked ef flags

pub acts : List Other → Eventflg → Eventflg
unfolding act
acts [] ef = ef
acts (o ∷ os) ef = acts os (act o ef)

-- A return of pthread_cond_wait or pthread_cond_timedwait: what the other tasks did while it
-- waited, and its answer.
pub record Wakeup : Type 0 where
  pub others : List Other
  pub answer : ℕ

-- ETIMEDOUT of Linux.
abbrev pub etimedout : ℕ
etimedout = 110

-- The loop, with the returns of the wait that come; `none` when it waits for one that does not.
pub wait_loop : ℕ → ℤ → Eventflg → List Wakeup → Option (ℤ × Eventflg)
unfolding acts
wait_loop flags timeout_ms ef [] =
    if bit_and ef.flags flags == 0 then none else some (em_success, ef)
wait_loop flags timeout_ms ef (w ∷ ws) =
    let ef' = acts w.others ef in
    let rest = wait_loop flags timeout_ms ef' ws in
    if bit_and ef.flags flags == 0
    then (if eqb_ℤ timeout_ms em_no_timeout
        then (if w.answer == 0 then rest else some (em_error, ef'))
        else (if w.answer == etimedout
            then some (em_err_timeout, ef')
            else (if w.answer == 0 then rest else some (em_error, ef'))))
    else some (em_success, ef)

-- The second time under the mutex, after what the other tasks did before it.
pub wait_reset : ℕ → Bool → List Other → Option (ℤ × Eventflg) → Option (ℤ × Option Eventflg)
unfolding acts reset_locked
wait_reset flags reset_flag between none = none
wait_reset flags reset_flag between (some (ret, ef)) =
    if eqb_ℤ ret em_success && reset_flag
    then some (ret, some (reset_locked (acts between ef) flags))
    else some (ret, some ef)

-- `none` while the call has not returned.
pub wait : Option Eventflg → ℕ → ℤ → Bool → List Wakeup → List Other → Option (ℤ × Option Eventflg)
unfolding wait_loop wait_reset
wait none flags timeout_ms reset_flag wakeups between = some (em_err_param, none)
wait (some ef) flags timeout_ms reset_flag wakeups between =
    wait_reset flags reset_flag between (wait_loop flags timeout_ms ef wakeups)

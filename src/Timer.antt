-- ===== src/Timer.antt =====
-- src/em_timer.c: timers of the operating system, by number, over a memory pool. What timer_create,
-- timer_settime and timer_delete answer is an argument; the calls made to them are a result.
pub mod Numbers
mod Examples
use embedded_middle.Prelude.{
  ℕ, ◌+◌, Bool, Option, none, some, List, [], ◌∷◌, ℤ, negsuc, if◌then◌else◌, update, add32, sub32,
  em_success, em_error,
}
use embedded_middle.Prelude.Int.{eqb_ℤ}
use embedded_middle.Time.{Timespec, calc_timespec}
use embedded_middle.Mempool.{Mpool, try_alloc_block, free_at, get_dataidx, get_dataptr}
use embedded_middle.Mempool

-- `em_timersetting_t`. A function is the number of it.
pub record TimerSetting : Type 0 where
  pub interval_ms : ℤ
  pub timer_func : ℕ
  pub arg : ℕ

-- `em_timermng_t`, with the two fields of the `em_timerinfo_t` at each address.
pub record Timermng : Type 0 where
  pub mp_timerinfo : Mpool
  pub linux_timer_id : ℕ → ℕ
  pub setting : ℕ → TimerSetting

-- Of an `em_timerinfo_t` where pointers have eight bytes, and the offset of its setting.
abbrev pub sizeof_timerinfo : ℕ
sizeof_timerinfo = 32

abbrev pub setting_offset : ℕ
setting_offset = 8

-- What the operating system is asked to do: to make a timer that calls back with the address of a
-- setting, to set the time of a timer, and to delete a timer.
pub data Call : Type 0 where
  creates : ℕ → Call
  sets_time : ℕ → Timespec → Call
  deletes : ℕ → Call

unfoldable pub init : {H : Type 0} → (ℕ → H → ℕ × H) → Timermng → ℕ → H → ℤ × Timermng × H
init alloc_func tmrmng num_timer h =
    let (ret, mp, h') =
      Mempool.create alloc_func tmrmng.mp_timerinfo sizeof_timerinfo num_timer h in
    (ret, record tmrmng { mp_timerinfo = mp }, h')

pub destroy : Timermng → ℤ × List ℕ × Timermng
destroy tmrmng =
    let (ret, freed, mp) = Mempool.destroy tmrmng.mp_timerinfo in
    (ret, freed, record tmrmng { mp_timerinfo = mp })

-- The function that is called, and its argument, when a timer goes off with the address of a setting.
pub cbfunc : Timermng → ℕ → ℕ × ℕ
cbfunc tmrmng sival_ptr =
    let timersetting = tmrmng.setting sival_ptr in (timersetting.timer_func, timersetting.arg)

free_info : Timermng → ℕ → Timermng
free_info tmrmng timer_info = record tmrmng {
  mp_timerinfo = (free_at tmrmng.mp_timerinfo timer_info).1;
}

-- With the new timer of the operating system, or none where timer_create has failed.
create_timer : Timermng → ℕ → TimerSetting → Option ℕ → Bool → ℤ × Timermng × List Call
unfolding free_info
create_timer tmrmng timer_info setting none settime_ok =
    (em_error, free_info tmrmng timer_info, creates (timer_info + setting_offset) ∷ [])
create_timer tmrmng timer_info setting (some timer) settime_ok =
    let tmrmng' = record tmrmng {
      linux_timer_id = update tmrmng.linux_timer_id timer_info timer;
    } in
    let calls =
      creates (timer_info + setting_offset)
      ∷ sets_time timer (calc_timespec setting.interval_ms)
      ∷ [] in
    if settime_ok
    then (em_success, tmrmng', calls)
    else (negsuc 1, free_info tmrmng' timer_info, calls)

create_block :
    Timermng
    → TimerSetting
    → Option ℕ
    → Bool
    → Option ℕ × Mpool
    → ℤ × Option ℕ × Timermng × List Call
unfolding create_timer
create_block tmrmng setting new_timer settime_ok (none, mp) =
    (em_error, none, record tmrmng { mp_timerinfo = mp }, [])
create_block tmrmng setting new_timer settime_ok (some timer_info, mp) =
    let filled = record tmrmng {
      mp_timerinfo = mp;
      setting = update tmrmng.setting (timer_info + setting_offset) setting;
    } in
    let (ret, tmrmng', calls) = create_timer filled timer_info setting new_timer settime_ok in
    (ret, some (add32 1 (get_dataidx mp timer_info)), tmrmng', calls)

-- The result, what is written to `*timer_id` if anything is, the manager, and the calls made.
pub create : Timermng → TimerSetting → Option ℕ → Bool → ℤ × Option ℕ × Timermng × List Call
unfolding create_block
create tmrmng setting new_timer settime_ok =
    create_block tmrmng setting new_timer settime_ok (try_alloc_block tmrmng.mp_timerinfo)

pub delete : Timermng → ℕ → ℤ → ℤ × Timermng × List Call
unfolding free_info
delete tmrmng timer_id answer = elim (get_dataptr tmrmng.mp_timerinfo (sub32 timer_id 1)) [
  | none ↦ (em_error, tmrmng, [])
  | some timer_info ↦
      (answer, free_info tmrmng timer_info, deletes (tmrmng.linux_timer_id timer_info) ∷ [])
]

pub set_interval : Timermng → ℕ → ℤ → ℤ → ℤ × Timermng × List Call
unfolding free_info
set_interval tmrmng timer_id interval_ms answer =
    elim (get_dataptr tmrmng.mp_timerinfo (sub32 timer_id 1)) [
      | none ↦ (em_error, tmrmng, [])
      | some timer_info ↦
          let calls =
            sets_time (tmrmng.linux_timer_id timer_info) (calc_timespec interval_ms) ∷ [] in
          if eqb_ℤ answer em_error
          then (negsuc 1, free_info tmrmng timer_info, calls)
          else (answer, tmrmng, calls)
    ]

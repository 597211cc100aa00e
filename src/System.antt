-- ===== src/System.antt =====
-- src/em_system.c: the managers of a system, made one after another and given up together. `malloc`
-- is the function of the C library and `alloc_func` that of the setting; both act on the state `H` of
-- the heap.
pub mod Startup
pub mod Managers
mod Examples
use embedded_middle.Prelude.{
  ℕ, ◌++◌, if◌then◌else◌, Option, none, some, List, [], ◌∷◌, ℤ, em_success, em_error,
}
use embedded_middle.Prelude.Int.{eqb_ℤ}
use embedded_middle.Time.{Timemng, Timespec, tick_init}
use embedded_middle.Malloc.{Memmng}
use embedded_middle.Malloc
use embedded_middle.Timer.{Timermng}
use embedded_middle.Timer
use embedded_middle.Mtxmng.{Mtxmng}
use embedded_middle.Mtxmng
use embedded_middle.Semmng.{Semmng}
use embedded_middle.Semmng
use embedded_middle.Event.{Evtmng}
use embedded_middle.Event
use embedded_middle.Command.{Cmdmng}
use embedded_middle.Command
use embedded_middle.Task.{Taskmng}
use embedded_middle.Task
use embedded_middle.Eventflag.{Eventflg}
use embedded_middle.Eventflag

-- `em_sysmng_t`.
pub record Sysmng : Type 0 where
  pub timemng : Timemng
  pub memmng : Memmng
  pub tmrmng : Timermng
  pub mtxmng : Mtxmng
  pub semmng : Semmng
  pub evtmng : Evtmng
  pub tskmng : Taskmng
  pub cmdmng : Cmdmng
  pub ef : Eventflg

-- `em_sysmng_stg_t`, without its functions; `mem_static` is `none` for NULL.
pub record SysmngStg : Type 0 where
  pub max_num_mutex : ℕ
  pub max_num_sem : ℕ
  pub max_num_event : ℕ
  pub max_num_timer : ℕ
  pub max_num_cmd : ℕ
  pub max_num_task : ℕ
  pub size_msgdata : ℤ
  pub mem_block_size : ℕ
  pub mem_block_num : ℕ
  pub mem_alloc_num : ℕ
  pub mem_static : Option ℕ

-- A call of a manager's function, with the code that it returns. `none` is undefined behaviour.
abbrev pub Stage : Type 0 → Type 0
Stage H = Sysmng → H → Option (ℤ × Sysmng × H)

-- The calls in turn, each with its test and the return of -1.
unfoldable pub run_stages : {H : Type 0} → List (Stage H) → Stage H
run_stages [] sysmng h = some (em_success, sysmng, h)
run_stages (stage ∷ stages) sysmng h = elim (stage sysmng h) [
  | none ↦ none
  | some r ↦
      let rest = run_stages stages r.1 r.2 in
      if eqb_ℤ r.0 em_success then rest else some (em_error, r.1, r.2)
]

-- em_eventflag_init gets the address of the flags, which is not NULL.
unfoldable pub flags_of : Eventflg → Option Eventflg → Eventflg
flags_of ef none = ef
flags_of ef (some ef') = ef'

module _ {H : Type 0} (malloc alloc_func : ℕ → H → ℕ × H) where
  -- `now` is what `clock_gettime` gives, if it does not fail.
  unfoldable pub init_tick : Option Timespec → Stage H
  init_tick now sysmng h =
      let (ret, tm) = tick_init sysmng.timemng now in some (ret, record sysmng { timemng = tm }, h)

  unfoldable pub init_memory : SysmngStg → Stage H
  init_memory setting sysmng h =
      elim (Malloc.create malloc sysmng.memmng setting.mem_block_size setting.mem_block_num
        setting.mem_alloc_num setting.mem_static h) [
          | none ↦ none
          | some r ↦ some (r.0, record sysmng { memmng = r.1 }, r.2)
        ]

  unfoldable pub init_timers : SysmngStg → Stage H
  init_timers setting sysmng h =
      let (ret, tm, h') = Timer.init alloc_func sysmng.tmrmng setting.max_num_mutex h in
      some (ret, record sysmng { tmrmng = tm }, h')

  unfoldable pub init_mutexes : SysmngStg → Stage H
  init_mutexes setting sysmng h =
      let (ret, mm, h') = Mtxmng.init alloc_func sysmng.mtxmng setting.max_num_mutex h in
      some (ret, record sysmng { mtxmng = mm }, h')

  unfoldable pub init_sems : SysmngStg → Stage H
  init_sems setting sysmng h =
      let (ret, sm, h') = Semmng.init alloc_func sysmng.semmng setting.max_num_sem h in
      some (ret, record sysmng { semmng = sm }, h')

  unfoldable pub init_events : SysmngStg → Stage H
  init_events setting sysmng h =
      let (ret, em, h') = Event.init alloc_func sysmng.evtmng setting.max_num_event h in
      some (ret, record sysmng { evtmng = em }, h')

  unfoldable pub init_cmds : SysmngStg → Stage H
  init_cmds setting sysmng h =
      let (ret, cm, h') = Command.init alloc_func sysmng.cmdmng setting.max_num_cmd h in
      some (ret, record sysmng { cmdmng = cm }, h')

  unfoldable pub init_tasks : SysmngStg → Stage H
  init_tasks setting sysmng h =
      let (ret, tm, h') =
        Task.init alloc_func sysmng.tskmng setting.max_num_task setting.size_msgdata h in
      some (ret, record sysmng { tskmng = tm }, h')

  -- With what the C library answers for the condition variable and the mutex.
  unfoldable pub init_flags : ℕ → ℕ → Stage H
  unfolding flags_of
  init_flags cond_answer mutex_answer sysmng h =
      let (ret, ef) = Eventflag.init cond_answer mutex_answer (some sysmng.ef) in
      some (ret, record sysmng { ef = flags_of sysmng.ef ef }, h)

  abbrev pub stages : SysmngStg → Option Timespec → ℕ → ℕ → List (Stage H)
  stages setting now cond_answer mutex_answer =
      init_tick now
      ∷ init_memory setting
      ∷ init_timers setting
      ∷ init_mutexes setting
      ∷ init_sems setting
      ∷ init_events setting
      ∷ init_cmds setting
      ∷ init_tasks setting
      ∷ init_flags cond_answer mutex_answer
      ∷ []

  unfoldable pub init : SysmngStg → Option Timespec → ℕ → ℕ → Stage H
  unfolding run_stages init_tick init_memory init_timers init_mutexes init_sems init_events
      init_cmds init_tasks init_flags
  init setting now cond_answer mutex_answer =
      run_stages (stages setting now cond_answer mutex_answer)

-- The addresses of the tables of keys of a data manager.
pub record KeyTables : Type 0 where
  pub keycnt : ℕ
  pub keymem : ℕ

-- The addresses passed to `free_func`, those passed to `free`, and the system; the results of the calls
-- are only logged.
pub finalize : Sysmng → KeyTables → KeyTables → ℤ × List ℕ × List ℕ × Sysmng
finalize sysmng cmd_keys task_keys =
    let (_, timers, tm) = Timer.destroy sysmng.tmrmng in
    let (_, mutexes, mm) = Mtxmng.destroy sysmng.mtxmng in
    let (_, sems, sm) = Semmng.destroy sysmng.semmng in
    let (_, events, em) = Event.destroy sysmng.evtmng in
    let (_, cmds, cm) = Command.destroy sysmng.cmdmng cmd_keys.keycnt cmd_keys.keymem in
    let (_, tasks, tk) = Task.destroy sysmng.tskmng task_keys.keycnt task_keys.keymem in
    let (_, memory) = Malloc.destroy sysmng.memmng in
    (
      em_success,
      timers ++ (mutexes ++ (sems ++ (events ++ (cmds ++ tasks)))),
      memory,
      record sysmng {
        tmrmng = tm;
        mtxmng = mm;
        semmng = sm;
        evtmng = em;
        cmdmng = cm;
        tskmng = tk;
      },
    )

-- ===== src/System/Managers.antt =====
-- The managers behind em_sysmng_init.
use embedded_middle.Prelude.{
  ℕ, ◌*◌, ◌<◌, ltb, Bool, true, false, ◌≡◌, refl, ◌∙◌, lt→ltb, arith, none, some, List, [], ◌∷◌,
  em_success, u32_mod,
}
use embedded_middle.Time.{Timemng, Timespec, tick_init}
use embedded_middle.Mempool.{Mpool}
use embedded_middle.Mempool
use embedded_middle.Mempool.Valid.{create-IsValid, create-block_size}
use embedded_middle.Gdatamng
use embedded_middle.Gdatamng.Valid
use embedded_middle.Gdatamng.History
use embedded_middle.Idatamng
use embedded_middle.Queue
use embedded_middle.Queue.Calls.{IsIdle, create-IsIdle}
use embedded_middle.Timer.{sizeof_timerinfo}
use embedded_middle.Timer
use embedded_middle.Mtxmng.{sizeof_mutex}
use embedded_middle.Mtxmng
use embedded_middle.Semmng.{sizeof_sem}
use embedded_middle.Semmng
use embedded_middle.Event.{sizeof_event}
use embedded_middle.Event
use embedded_middle.Command.{Cmdmng, sizeof_cmdsetting, buf_length, async_queue_size}
use embedded_middle.Command
use embedded_middle.Command.Registered.{IsCmdTable}
use embedded_middle.Task.{Taskmng, sizeof_taskinfo}
use embedded_middle.Task
use embedded_middle.Eventflag
use embedded_middle.System.{
  Sysmng, SysmngStg, Stage, run_stages, init, init_tick, init_memory, init_timers, init_mutexes,
  init_sems, init_events, init_cmds, init_tasks, init_flags, flags_of,
}
use embedded_middle.Malloc.Started.{IsFresh, IsEmptyPool}
use embedded_middle.System.Startup.{
  AllAnswer, conj, conj_lem, later_stages, stages_answer, memory_lem, NeverNull, SizesFit,
}

-- The number of blocks that a manager is given: at least one, and the blocks fit in 32 bits.
abbrev pub Fits : ℕ → ℕ → Type 0
Fits size num = (0 < num) × (size * num < u32_mod)

pub record SettingFits (setting : SysmngStg) : Type 0 where
  pub sizes : SizesFit setting
  pub some_mutex : 0 < setting.max_num_mutex
  pub some_sem : 0 < setting.max_num_sem
  pub some_event : 0 < setting.max_num_event
  pub some_cmd : 0 < setting.max_num_cmd
  pub some_task : 0 < setting.max_num_task

-- A system in which nothing has been made yet; there are as many timers as mutexes.
pub record IsStarted (setting : SysmngStg) (ts : Timespec) (sysmng : Sysmng) : Type 0 where
  pub clock : sysmng.timemng ≡ record { is_initialized = 1; init_time = ts }
  pub memory :
      IsFresh setting.mem_block_size setting.mem_block_num setting.mem_alloc_num sysmng.memmng
  pub timers : IsEmptyPool sysmng.tmrmng.mp_timerinfo setting.max_num_mutex
  pub mutexes : IsEmptyPool sysmng.mtxmng.mp_mutex setting.max_num_mutex
  pub sems : IsEmptyPool sysmng.semmng.mp_semaphore setting.max_num_sem
  pub events : IsEmptyPool sysmng.evtmng.mp_event setting.max_num_event
  pub cmds : IsCmdTable sysmng.cmdmng.dm_cmd
  pub cmds_none : IsEmptyPool sysmng.cmdmng.dm_cmd.mp setting.max_num_cmd
  pub cmds_idle : IsIdle sysmng.cmdmng.qu_cmd
  pub cmds_run : sysmng.cmdmng.is_running ≡ true
  pub tasks : Gdatamng.Valid.IsValid sysmng.tskmng.taskinfo_mng
  pub tasks_none : IsEmptyPool sysmng.tskmng.taskinfo_mng.mp setting.max_num_task
  pub flags : sysmng.ef.flags ≡ 0

-- The state behind a chain of stages that all succeed.
abbrev pub after : {H : Type 0} → List (Stage H) → Sysmng → H → Sysmng × H
after [] sysmng h = (sysmng, h)
after (f ∷ fs) sysmng h = elim (f sysmng h) [ none ↦ (sysmng, h) | some r ↦ after fs r.1 r.2 ]

run_stages-after :
    {H : Type 0} (fs : List (Stage H)) (bs : List Bool) (sysmng : Sysmng) (h : H)
    → AllAnswer fs bs
    → conj bs ≡ true
    → run_stages fs sysmng h ≡ some (em_success, (after fs sysmng h).0, (after fs sysmng h).1)
unfolding run_stages conj
run_stages-after [] [] sysmng h hs e = refl
run_stages-after [] (b ∷ bs) sysmng h hs e = absurd hs
run_stages-after (f ∷ fs) [] sysmng h hs e = absurd hs
run_stages-after (f ∷ fs) (true ∷ bs) sysmng h hs e =
    let (r, made, ok, _) = hs.0 sysmng h in
    rw (run_stages, after, made, ok) (run_stages-after fs bs r.1 r.2 hs.1 e)
run_stages-after (f ∷ fs) (false ∷ bs) sysmng h hs e = cc e

module _ {H : Type 0} (malloc alloc_func : ℕ → H → ℕ × H) (setting : SysmngStg)
    (fits : SettingFits setting) (ts : Timespec) where
  create-IsEmptyPool :
      (mp : Mpool) (size num : ℕ) (h : H)
      → 0 < size
      → Fits size num
      → IsEmptyPool (Mempool.create alloc_func mp size num h).1 num
  create-IsEmptyPool mp size num h pos f =
      let (e, v, m, u) = create-IsValid alloc_func mp size num h pos f.0 f.1 in (v, m, u)

  cmds_made :
      (cm : Cmdmng) (h : H)
      → let cm' = (Command.init alloc_func cm setting.max_num_cmd h).1 in
        IsCmdTable cm'.dm_cmd
        × IsEmptyPool cm'.dm_cmd.mp setting.max_num_cmd
        × IsIdle cm'.qu_cmd
        × (cm'.is_running ≡ true)
  unfolding Command.init Gdatamng.create Queue.create Queue.create_with_blocks
  cmds_made cm h =
      let f : Fits sizeof_cmdsetting setting.max_num_cmd = (fits.some_cmd, fits.sizes.cmds_size) in
      (
        record {
          valid =
              Gdatamng.History.create-IsValid alloc_func cm.dm_cmd _ _ _ _ _ h (omega arith) f.0 f.1
                (omega (arith, f.1));
          strings = refl;
          names = refl;
          settings = create-block_size alloc_func _ _ _ _ (omega arith) f.0;
        },
        create-IsEmptyPool _ _ _ _ (omega arith) f,
        create-IsIdle alloc_func cm.qu_cmd buf_length async_queue_size _ (omega arith)
            (omega arith),
        refl,
      )

  tasks_made :
      (tm : Taskmng) (h : H)
      → let tm' = (Task.init alloc_func tm setting.max_num_task setting.size_msgdata h).1 in
        Gdatamng.Valid.IsValid tm'.taskinfo_mng
        × IsEmptyPool tm'.taskinfo_mng.mp setting.max_num_task
  unfolding Task.init Idatamng.create Gdatamng.create
  tasks_made tm h =
      let f : Fits sizeof_taskinfo setting.max_num_task = (fits.some_task, fits.sizes.tasks_size) in
      (
        Gdatamng.History.create-IsValid alloc_func tm.taskinfo_mng _ _ _ _ _ h (omega arith) f.0 f.1
            (omega (arith, f.1)),
        create-IsEmptyPool _ _ _ _ (omega arith) f,
      )

  abbrev later : List (Stage H)
  later = later_stages malloc alloc_func setting 0 0

  all_true :
      conj (
        ltb 0 setting.max_num_mutex
        ∷ ltb 0 setting.max_num_mutex
        ∷ ltb 0 setting.max_num_sem
        ∷ ltb 0 setting.max_num_event
        ∷ true
        ∷ true
        ∷ true
        ∷ [])
      ≡ true
  all_true =
      conj_lem (ltb 0 setting.max_num_mutex) (ltb 0 setting.max_num_sem)
        (ltb 0 setting.max_num_event) true
      ∙ rw (lt→ltb 0 _ fits.some_mutex, lt→ltb 0 _ fits.some_sem, lt→ltb 0 _ fits.some_event) refl

  chained :
      (sysmng : Sysmng) (h : H)
      → run_stages later sysmng h
        ≡ some (em_success, (after later sysmng h).0, (after later sysmng h).1)
  chained sysmng h =
      run_stages-after later _ sysmng h (stages_answer malloc alloc_func setting 0 0) all_true

  -- What the calls behind those for the clock and the memory make.
  later_made :
      (sysmng : Sysmng) (h : H)
      → IsFresh setting.mem_block_size setting.mem_block_num setting.mem_alloc_num sysmng.memmng
      → sysmng.timemng ≡ record { is_initialized = 1; init_time = ts }
      → IsStarted setting ts (after later sysmng h).0
  unfolding init_timers init_mutexes init_sems init_events init_cmds init_tasks init_flags flags_of
      Timer.init Mtxmng.init Semmng.init Event.init Eventflag.init
  later_made sysmng h fresh clock =
      let cs = cmds_made _ _ in
      let tk = tasks_made _ _ in
      record {
        clock = clock;
        memory = fresh;
        timers = create-IsEmptyPool _ _ _ _ (omega arith) (fits.some_mutex, fits.sizes.timers_size);
        mutexes =
            create-IsEmptyPool _ _ _ _ (omega arith) (fits.some_mutex, fits.sizes.mutexes_size);
        sems = create-IsEmptyPool _ _ _ _ (omega arith) (fits.some_sem, fits.sizes.sems_size);
        events = create-IsEmptyPool _ _ _ _ (omega arith) (fits.some_event, fits.sizes.events_size);
        cmds = cs.0;
        cmds_none = cs.1;
        cmds_idle = cs.2;
        cmds_run = cs.3;
        tasks = tk.0;
        tasks_none = tk.1;
        flags = refl;
      }

  -- In a setting whose numbers of blocks are not 0 and whose blocks fit in 32 bits, with memory
  -- that is not at NULL where it is passed, and where the clock and the C library do not fail and
  -- no allocation gives NULL, em_sysmng_init returns 0 with the clock set, with the memory manager
  -- of the units, the unit size and the number of records in the setting and with all its units in
  -- one free region, with each other manager empty and with room for the number in the setting,
  -- and with no flag set; but the timers have room for the number of mutexes.
  pub init_lem :
      (sysmng : Sysmng) (h : H)
      → NeverNull malloc
      → NeverNull alloc_func
      → (sysmng' : Sysmng) × (h' : H) × (init malloc alloc_func setting (some ts) 0 0 sysmng h
          ≡ some (em_success, sysmng', h'))
        × IsStarted setting ts sysmng'
  unfolding init run_stages init_tick init_memory tick_init
  init_lem sysmng h malloc_given alloc_given =
      let (made, h₁, e, fresh) =
        memory_lem malloc alloc_func setting 0 0 sysmng.memmng h fits.sizes in
      let clock : Timemng = record { is_initialized = 1; init_time = ts } in
      let started : Sysmng = record sysmng { timemng = clock; memmng = made } in
      (
        (after later started h₁).0,
        (after later started h₁).1,
        rw e (chained started h₁),
        later_made started h₁ fresh refl,
      )

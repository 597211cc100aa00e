-- ===== src/System/Startup.antt =====
-- Whether em_sysmng_init succeeds.
use embedded_middle.Prelude.{
  ◌≢◌, ◌*◌, ℤ, u32_mod, subst, ℕ, ◌<◌, arith, zero, suc, ne→==, lt→ltb, ◌&&◌, ◌==◌, ltb, Bool, true,
  false, Bool-cases, ◌≡◌, refl, sym, ap, ◌∙◌, inl, inr, if◌then◌else◌, some, List, [], ◌∷◌,
  em_success, em_error,
}
use embedded_middle.Prelude.Int.{eqb_ℤ}
use embedded_middle.Time.{Timemng, Timespec, tick_init}
use embedded_middle.Mempool.{Mpool}
use embedded_middle.Mempool
use embedded_middle.Malloc.{Memmng}
use embedded_middle.Malloc.{sizeof_meminfo}
use embedded_middle.Malloc
use embedded_middle.Malloc.Started.{IsFresh, IsGiven, create-IsFresh}
use embedded_middle.Timer.{sizeof_timerinfo}
use embedded_middle.Mtxmng.{sizeof_mutex}
use embedded_middle.Semmng.{sizeof_sem}
use embedded_middle.Event.{sizeof_event}
use embedded_middle.Command.{sizeof_cmdsetting}
use embedded_middle.Task.{sizeof_taskinfo}
use embedded_middle.Timer
use embedded_middle.Mtxmng
use embedded_middle.Semmng
use embedded_middle.Event
use embedded_middle.Command
use embedded_middle.Queue
use embedded_middle.Gdatamng
use embedded_middle.Idatamng
use embedded_middle.Task
use embedded_middle.Eventflag
use embedded_middle.System.{
  Sysmng, SysmngStg, Stage, run_stages, init, init_tick, init_memory, init_timers, init_mutexes,
  init_sems, init_events, init_cmds, init_tasks, init_flags,
}

-- A stage that succeeds just where `b` says, whatever was there before, and keeps the memory manager.
abbrev pub Answers : {H : Type 0} → Stage H → Bool → Type 0
Answers {H} stage b =
    (sysmng : Sysmng) (h : H)
    → (r : ℤ × Sysmng × H) × (stage sysmng h ≡ some r)
      × (eqb_ℤ r.0 em_success ≡ b)
      × (r.1.memmng ≡ sysmng.memmng)

abbrev pub AllAnswer : {H : Type 0} → List (Stage H) → List Bool → Type 0
AllAnswer [] [] = Unit
AllAnswer [] (b ∷ bs) = ⊥
AllAnswer (f ∷ fs) [] = ⊥
AllAnswer (f ∷ fs) (b ∷ bs) = Answers f b × AllAnswer fs bs

unfoldable pub conj : List Bool → Bool
conj [] = true
conj (b ∷ bs) = b && conj bs

-- The result of a chain whose stages answer `bs`.
abbrev pub Ends : {H : Type 0} → List (Stage H) → Bool → Sysmng → H → Type 0
Ends {H} fs b sysmng h =
    (sysmng' : Sysmng) × (h' : H) × (run_stages fs sysmng h
      ≡ some (if b then em_success else em_error, sysmng', h'))
    × (sysmng'.memmng ≡ sysmng.memmng)

pub run_stages_answer :
    {H : Type 0} (fs : List (Stage H)) (bs : List Bool) (sysmng : Sysmng) (h : H)
    → AllAnswer fs bs
    → Ends fs (conj bs) sysmng h
unfolding run_stages conj
run_stages_answer [] [] sysmng h hs = (sysmng, h, refl, refl)
run_stages_answer [] (b ∷ bs) sysmng h hs = absurd hs
run_stages_answer (f ∷ fs) [] sysmng h hs = absurd hs
run_stages_answer (f ∷ fs) (true ∷ bs) sysmng h hs =
    let (r, e, ok, kept) = hs.0 sysmng h in
    let (s', h', e', kept') = run_stages_answer fs bs r.1 r.2 hs.1 in
    (s', h', rw (run_stages, e, ok) e', kept' ∙ kept)
run_stages_answer (f ∷ fs) (false ∷ bs) sysmng h hs =
    let (r, e, ok, kept) = hs.0 sysmng h in (r.1, r.2, rw (run_stages, e, ok) refl, kept)

pub conj_lem :
    (b c d e : Bool) → conj (b ∷ b ∷ c ∷ d ∷ true ∷ true ∷ e ∷ []) ≡ (b && (c && (d && e)))
unfolding conj
conj_lem false c d e = refl
conj_lem true false d e = refl
conj_lem true true false e = refl
conj_lem true true true false = refl
conj_lem true true true true = refl

pool_answers :
    {H : Type 0} (alloc_func : ℕ → H → ℕ × H) (mp : Mpool) (size num : ℕ) (h : H)
    → 0 < size
    → eqb_ℤ (Mempool.create alloc_func mp size num h).0 em_success ≡ ltb 0 num
unfolding Mempool.create
pool_answers alloc_func mp size zero h pos = rw (ne→== size 0 (omega arith)) refl
pool_answers alloc_func mp size (suc num) h pos =
    rw
      (
        ne→== size 0 (omega arith),
        ne→== (suc num) 0 (omega arith),
        lt→ltb 0 (suc num) (omega arith),
      )
      refl

-- No allocation gives NULL.
abbrev pub NeverNull : {H : Type 0} → (ℕ → H → ℕ × H) → Type 0
NeverNull {H} alloc_func = (size : ℕ) (h : H) → (alloc_func size h).0 ≢ 0

-- The blocks of each manager fit in 32 bits, there is room for a record of a region, and memory that
-- is passed is not at NULL.
pub record SizesFit (setting : SysmngStg) : Type 0 where
  pub timers_size : sizeof_timerinfo * setting.max_num_mutex < u32_mod
  pub mutexes_size : sizeof_mutex * setting.max_num_mutex < u32_mod
  pub sems_size : sizeof_sem * setting.max_num_sem < u32_mod
  pub events_size : sizeof_event * setting.max_num_event < u32_mod
  pub cmds_size : sizeof_cmdsetting * setting.max_num_cmd < u32_mod
  pub tasks_size : sizeof_taskinfo * setting.max_num_task < u32_mod
  pub regions_size : sizeof_meminfo * setting.mem_alloc_num < u32_mod
  pub some_region : 0 < setting.mem_alloc_num
  pub memory_given : IsGiven setting.mem_static

module _ {H : Type 0} (malloc alloc_func : ℕ → H → ℕ × H) (setting : SysmngStg)
    (cond_answer mutex_answer : ℕ) where
  timers_answer : Answers (init_timers malloc alloc_func setting) (ltb 0 setting.max_num_mutex)
  unfolding init_timers Timer.init
  timers_answer sysmng h = (_, refl, pool_answers alloc_func _ _ _ _ (omega arith), refl)

  mutexes_answer : Answers (init_mutexes malloc alloc_func setting) (ltb 0 setting.max_num_mutex)
  unfolding init_mutexes Mtxmng.init
  mutexes_answer sysmng h = (_, refl, pool_answers alloc_func _ _ _ _ (omega arith), refl)

  sems_answer : Answers (init_sems malloc alloc_func setting) (ltb 0 setting.max_num_sem)
  unfolding init_sems Semmng.init
  sems_answer sysmng h = (_, refl, pool_answers alloc_func _ _ _ _ (omega arith), refl)

  events_answer : Answers (init_events malloc alloc_func setting) (ltb 0 setting.max_num_event)
  unfolding init_events Event.init
  events_answer sysmng h =
      let answers =
        pool_answers alloc_func sysmng.evtmng.mp_event Event.sizeof_event setting.max_num_event h
          (omega arith) in
      elim (Bool-cases (
        eqb_ℤ
          (Mempool.create alloc_func sysmng.evtmng.mp_event Event.sizeof_event setting.max_num_event
            h).0
          em_success)) [
            | inl e ↦ (_, refl, rw e (sym e ∙ answers), refl)
            | inr e ↦ (_, refl, rw e (sym e ∙ answers), refl)
          ]

  cmds_answer : Answers (init_cmds malloc alloc_func setting) true
  unfolding init_cmds Command.init Gdatamng.create Queue.create Queue.create_with_blocks
  cmds_answer sysmng h = (_, refl, refl, refl)

  tasks_answer : Answers (init_tasks malloc alloc_func setting) true
  unfolding init_tasks Task.init Idatamng.create Gdatamng.create
  tasks_answer sysmng h = (_, refl, refl, refl)

  flags_answer :
      Answers
        (init_flags malloc alloc_func cond_answer mutex_answer)
        (cond_answer == 0 && mutex_answer == 0)
  unfolding init_flags Eventflag.init
  flags_answer sysmng h = (
    _,
    refl,
    elim (Bool-cases (cond_answer == 0)) [
      | inl e ↦
          rw e (elim (Bool-cases (mutex_answer == 0)) [ inl e' ↦ rw e' refl | inr e' ↦ rw e' refl ])
      | inr e ↦ rw e refl
    ],
    refl,
  )

  -- The calls behind those for the clock and the memory.
  abbrev pub later_stages : List (Stage H)
  later_stages =
      init_timers malloc alloc_func setting
      ∷ init_mutexes malloc alloc_func setting
      ∷ init_sems malloc alloc_func setting
      ∷ init_events malloc alloc_func setting
      ∷ init_cmds malloc alloc_func setting
      ∷ init_tasks malloc alloc_func setting
      ∷ init_flags malloc alloc_func cond_answer mutex_answer
      ∷ []

  abbrev pub all_made : Bool
  all_made =
      ltb 0 setting.max_num_mutex
      && (ltb 0 setting.max_num_sem
          && (ltb 0 setting.max_num_event && (cond_answer == 0 && mutex_answer == 0)))

  pub stages_answer : AllAnswer later_stages (
      ltb 0 setting.max_num_mutex
      ∷ ltb 0 setting.max_num_mutex
      ∷ ltb 0 setting.max_num_sem
      ∷ ltb 0 setting.max_num_event
      ∷ true
      ∷ true
      ∷ (cond_answer == 0 && mutex_answer == 0)
      ∷ [])
  stages_answer = (
    timers_answer,
    (
      mutexes_answer,
      (sems_answer, (events_answer, (cmds_answer, (tasks_answer, (flags_answer, tt))))),
    ),
  )

  later_lem : (sysmng : Sysmng) (h : H) → Ends later_stages all_made sysmng h
  later_lem sysmng h =
      let (s', h', e, kept) = run_stages_answer later_stages _ sysmng h stages_answer in
      (
        s',
        h',
        e
            ∙ ap (λ b. some (if b then em_success else em_error, s', h'))
                (conj_lem (ltb 0 setting.max_num_mutex) (ltb 0 setting.max_num_sem)
                  (ltb 0 setting.max_num_event) (cond_answer == 0 && mutex_answer == 0)),
        kept,
      )

  -- The memory manager that em_sysmng_init makes.
  pub memory_lem :
      (mm : Memmng) (h : H)
      → SizesFit setting
      → (made : Memmng) × (h' : H) × (Malloc.create malloc mm setting.mem_block_size
            setting.mem_block_num setting.mem_alloc_num setting.mem_static h
          ≡ some (em_success, made, h'))
        × IsFresh setting.mem_block_size setting.mem_block_num setting.mem_alloc_num made
  memory_lem mm h fits =
      create-IsFresh malloc mm _ _ _ _ h fits.some_region fits.regions_size fits.memory_given

  -- Where no allocation gives NULL, memory that is passed is not at NULL, the blocks fit in 32
  -- bits, there is room for a record of a region and the clock can be read, em_sysmng_init returns
  -- 0 if none of the numbers of mutexes, semaphores and events is 0 and the C library makes the
  -- condition variable and the mutex of the flags, and -1 if not. Either way the memory manager
  -- has been made, with one free region, and is left as it is. The number of timers of the setting
  -- does not count.
  pub init_ret :
      (ts : Timespec) (sysmng : Sysmng) (h : H)
      → NeverNull malloc
      → NeverNull alloc_func
      → SizesFit setting
      → (sysmng' : Sysmng) × (h' : H) × (init malloc alloc_func setting
            (some ts)
            cond_answer
            mutex_answer
            sysmng
            h
          ≡ some (if all_made then em_success else em_error, sysmng', h'))
        × IsFresh setting.mem_block_size setting.mem_block_num setting.mem_alloc_num sysmng'.memmng
  unfolding init run_stages init_tick init_memory tick_init
  init_ret ts sysmng h malloc_given alloc_given fits =
      let (made, h₁, e, fresh) = memory_lem sysmng.memmng h fits in
      let clock : Timemng = record { is_initialized = 1; init_time = ts } in
      let (s', h', e', kept) = later_lem (record sysmng { timemng = clock; memmng = made }) h₁ in
      (
        s',
        h',
        rw e e',
        subst (IsFresh setting.mem_block_size setting.mem_block_num setting.mem_alloc_num)
            (sym kept) fresh,
      )

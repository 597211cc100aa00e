-- ===== src/System/Examples.antt =====
-- Tests of the start of a system, and the theorems about it in a small setting.
use embedded_middle.Prelude.{ℕ, ◌+◌, some-inj, ◌≡◌, arith, false, some, pos, em_success, em_error}
use embedded_middle.Mempool.Sample.{sample_pool}
use embedded_middle.Queue.Sample.{blank_queue}
use embedded_middle.Time.{Timespec}
use embedded_middle.Gdatamng.{Datamng}
use embedded_middle.System.{Sysmng, SysmngStg, init}
use embedded_middle.System.Startup.{NeverNull, init_ret}
use embedded_middle.Malloc.Started.{IsFresh}
use embedded_middle.System.Managers.{SettingFits, IsStarted, init_lem}

abbrev table : Datamng
table = record {
  mp = sample_pool 8;
  key = λ i k. 0;
  count = λ i. 0;
  key_size = 0;
  duplicate_mode = 0;
  key_type = 0;
  mem = λ p i. 0;
}

abbrev blank : Sysmng
blank = record {
  timemng = record { is_initialized = 0; init_time = record { tv_sec = pos 0; tv_nsec = pos 0 } };
  memmng = record {
    mem_total_size = 0;
    mem_unit_size = 0;
    mem_unit_bshift = 0;
    is_bshiftable = false;
    is_malloc = false;
    mem_total_bnum = 0;
    mem_used_bsize = 0;
    mp_used = sample_pool 8;
    mp_free = sample_pool 8;
    memory = 0;
    minfo_at = 0;
    minfo_ptr = λ i. 0;
    first_at = 1;
    last_at = 2;
    info = λ p. record {
      mem_index = 0;
      mem_length = 0;
      is_used = false;
      next_meminfo = 0;
      back_meminfo = 0;
    };
  };
  tmrmng = record {
    mp_timerinfo = sample_pool 8;
    linux_timer_id = λ p. 0;
    setting = λ p. record { interval_ms = pos 0; timer_func = 0; arg = 0 };
  };
  mtxmng = record { islock_at = 0; islock = λ p. 0; mp_mutex = sample_pool 8 };
  semmng = record { mp_semaphore = sample_pool 8; sem = λ p. 0 };
  evtmng = record { mp_event = sample_pool 8 };
  tskmng = record {
    msgdata_size = pos 0;
    taskinfo_mng = table;
    msgqueue = λ p. blank_queue;
    sem = 0;
  };
  cmdmng = record { is_running = false; dm_cmd = table; qu_cmd = blank_queue };
  ef = record { flags = 5 };
}

-- Three mutexes and seven timers.
abbrev setting : SysmngStg
setting = record {
  max_num_mutex = 3;
  max_num_sem = 4;
  max_num_event = 5;
  max_num_timer = 7;
  max_num_cmd = 6;
  max_num_task = 2;
  size_msgdata = pos 16;
  mem_block_size = 16;
  mem_block_num = 8;
  mem_alloc_num = 4;
  mem_static = some 65536;
}

abbrev noon : Timespec
noon = record { tv_sec = pos 43200; tv_nsec = pos 0 }

setting-SettingFits : SettingFits setting
setting-SettingFits = record {
  sizes = record {
    timers_size = omega arith;
    mutexes_size = omega arith;
    sems_size = omega arith;
    events_size = omega arith;
    cmds_size = omega arith;
    tasks_size = omega arith;
    regions_size = omega arith;
    some_region = omega arith;
    memory_given = λ p e. omega (arith, some-inj e);
  };
  some_mutex = omega arith;
  some_sem = omega arith;
  some_event = omega arith;
  some_cmd = omega arith;
  some_task = omega arith;
}

-- The heap is the next free address; the first is 8.
abbrev heap : ℕ → ℕ → ℕ × ℕ
heap size next = (next + 8, next + size)

heap-NeverNull : NeverNull heap
heap-NeverNull size next = omega arith

init_lem_example :
    (sysmng' : Sysmng) × (h' : ℕ) × (init heap heap setting (some noon) 0 0 blank 1000
      ≡ some (em_success, sysmng', h'))
    × IsStarted setting noon sysmng'
init_lem_example =
    init_lem heap heap setting setting-SettingFits noon blank 1000 heap-NeverNull heap-NeverNull

-- The C library does not make the mutex of the flags.
init_ret_example :
    (sysmng' : Sysmng) × (h' : ℕ) × (init heap heap setting (some noon) 0 11 blank 1000
      ≡ some (em_error, sysmng', h'))
    × IsFresh 16 8 4 sysmng'.memmng
init_ret_example =
    init_ret heap heap setting 0 11 noon blank 1000 heap-NeverNull heap-NeverNull
      setting-SettingFits.sizes

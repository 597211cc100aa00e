-- ===== src/Semmng/Examples.antt =====
-- Tests of em_semmng.c, and the theorems about it at a pool of three semaphores, one in use.
use embedded_middle.Prelude.{◌≡◌, refl, arith, some}
use embedded_middle.Mempool.{get_dataptr}
use embedded_middle.Mempool.Sample.{sample_pool, sample_pool-IsValid}
use embedded_middle.Mempool.Valid.{IsValid}
use embedded_middle.Semmng.{Semmng, semid2p}

abbrev one : Semmng
one = record { mp_semaphore = sample_pool 32; sem = λ p. 5 }

pool-IsValid : IsValid one.mp_semaphore
pool-IsValid = sample_pool-IsValid 32 (omega arith) (omega arith)

first_id : semid2p one 0 ≡ some 4096
unfolding semid2p get_dataptr
first_id = refl

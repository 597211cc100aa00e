-- ===== src/Mtxmng/Examples.antt =====
-- Tests of the mutex manager, and the theorems about it at a pool of three mutexes, one in use.
use embedded_middle.Prelude.{
  ℕ, ◌≡◌, ◌≢◌, ◌⊎◌, refl, arith, none, some, em_success, em_error, em_no_timeout, pos, update, ◌↔◌,
}
use embedded_middle.Mutex.{mutex_unlock, mutex_lock}
use embedded_middle.Mempool.{get_dataptr}
use embedded_middle.Mempool.Sample.{sample_pool, sample_pool-IsValid}
use embedded_middle.Mtxmng.{Mtxmng, create_mutex, delete_mutex, lock, unlock}
use embedded_middle.Mtxmng.Ids.{IsManager, IsMutex, create_mutex_lem, delete_mutex_lem}

abbrev one : Mtxmng
one = record { islock_at = 500; islock = λ i. 0; mp_mutex = sample_pool 40 }

one-IsManager : IsManager one
one-IsManager = record {
  valid = sample_pool-IsValid 40 (omega arith) (omega arith);
  mutexes = refl;
}

-- A number that no mutex has is not locked, and is not marked.
not_locked : lock one 1 em_no_timeout 0 ≡ (em_error, one)
unfolding lock mutex_lock get_dataptr
not_locked = refl

-- Unlocking the same number succeeds all the same if the C library's call does.
unlocked : unlock one 1 0 ≡ some (em_success, record one { islock = update (λ i. 0) 1 0 })
unfolding unlock mutex_unlock
unlocked = refl

-- Deleting it gives NULL to the C library.
no_mutex : delete_mutex one 1 ≡ none
unfolding delete_mutex get_dataptr
no_mutex = refl

create_mutex_lem_example :
    ((j : ℕ) × (mtxm' : Mtxmng) × (create_mutex one ≡ (pos j, mtxm'))
      × (¬ IsMutex one j)
      × IsMutex mtxm' j
      × ((k : ℕ) → IsMutex one k → IsMutex mtxm' k)
      × IsManager mtxm')
    ⊎ ((◌≡◌ {A = ℕ} 1 3) × (create_mutex one ≡ (em_error, one)))
create_mutex_lem_example = create_mutex_lem one one-IsManager

delete_mutex_lem_example :
    (IsMutex one 0
      × ((mtxm' : Mtxmng) × (delete_mutex one 0 ≡ some (em_success, mtxm'))
          × ((k : ℕ) → IsMutex mtxm' k ↔ (IsMutex one k × (k ≢ 0)))
          × IsManager mtxm'))
    ⊎ ((¬ IsMutex one 0) × (delete_mutex one 0 ≡ none))
delete_mutex_lem_example = delete_mutex_lem one 0 one-IsManager

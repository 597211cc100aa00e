-- ===== src/Mtxmng/Ids.antt =====
-- The numbers that em_mtxmng_create_mutex gives, and what the other calls do with them.
use embedded_middle.Prelude.{
  ℕ, ◌<◌, ◌^◌, ◌≡◌, ◌≢◌, ◌⊎◌, inl, inr, refl, ap, ◌∙◌, subst, arith, u32_mod, ◌*◌, ◌↔◌, none, some,
  ℤ, pos, update, em_success, em_error,
}
use embedded_middle.Prelude.Int.{of_bits}
use native.Mathlib.Decide.{ℕ_discrete}
use embedded_middle.Mutex.{mutex_lock}
use embedded_middle.Mempool.Valid.{IsValid, IsUsed}
use embedded_middle.Mempool.Blocks.{try_alloc_block_lem, free_block_by_dataidx_lem, get_dataptr_lem}
use embedded_middle.Mempool.Ids.{id_of_new}
use embedded_middle.Mtxmng.{Mtxmng, sizeof_mutex, create_mutex, create_block, delete_mutex, lock}

-- A manager of em_mtxmng_init.
pub record IsManager (mtxm : Mtxmng) : Type 0 where
  pub valid : IsValid mtxm.mp_mutex
  pub mutexes : mtxm.mp_mutex.block_size ≡ sizeof_mutex

-- The number of a mutex that can be locked.
abbrev pub IsMutex : Mtxmng → ℕ → Type 0
IsMutex mtxm j = IsUsed mtxm.mp_mutex j

of_bits_small : (j : ℕ) → j < 2 ^ 31 → of_bits j ≡ pos j
unfolding of_bits
of_bits_small j h = ground (arith, h)

-- The memory of a pool of mutexes has room for fewer than 2 ^ 31 of them.
small_id : {mtxm : Mtxmng} (j : ℕ) → IsManager mtxm → j < mtxm.mp_mutex.num_max → j < 2 ^ 31
small_id {mtxm} j m h =
    let room : sizeof_mutex * mtxm.mp_mutex.num_max < u32_mod =
      subst (λ b. b * mtxm.mp_mutex.num_max < u32_mod) m.mutexes m.valid.room in
    omega (arith, room)

-- em_mtxmng_create_mutex gives a number that no mutex had, which is not negative, and leaves every other
-- mutex its number; when every block is in use it returns EM_ERROR and nothing changes.
pub create_mutex_lem :
    (mtxm : Mtxmng)
    → IsManager mtxm
    → ((j : ℕ) × (mtxm' : Mtxmng) × (create_mutex mtxm ≡ (pos j, mtxm'))
        × (¬ IsMutex mtxm j)
        × IsMutex mtxm' j
        × ((k : ℕ) → IsMutex mtxm k → IsMutex mtxm' k)
        × IsManager mtxm')
      ⊎ ((mtxm.mp_mutex.num_used ≡ mtxm.mp_mutex.num_max) × (create_mutex mtxm ≡ (em_error, mtxm)))
unfolding create_mutex create_block
create_mutex_lem mtxm m = elim (try_alloc_block_lem m.valid) [
  | inl (j, mp', r, t) ↦ inl (
    j,
    record mtxm { mp_mutex = mp' },
    rw r (
        ap (λ x. (x, record mtxm { mp_mutex = mp' }))
          (ap of_bits (id_of_new m.valid t) ∙ of_bits_small j (small_id j m t.in_pool))),
    t.was_free,
    (t.now_used j).1 (inr refl),
    λ k u. (t.now_used k).1 (inl u),
    record { valid = t.valid; mutexes = t.place.same_size ∙ m.mutexes },
  )
  | inr (full, r) ↦ inr (full, rw r refl)
]

-- em_mtxmng_lock succeeds on the number of a mutex when the C library's call does, and then marks that
-- number and no other as locked; in every other case it returns EM_ERROR and marks nothing.
pub lock_lem :
    (mtxm : Mtxmng) (j answer : ℕ) (timeout_ms : ℤ)
    → IsManager mtxm
    → (IsMutex mtxm j
        × (answer ≡ 0)
        × (lock mtxm j timeout_ms answer
            ≡ (em_success, record mtxm { islock = update mtxm.islock j 1 })))
      ⊎ (((¬ IsMutex mtxm j) ⊎ (answer ≢ 0)) × (lock mtxm j timeout_ms answer ≡ (em_error, mtxm)))
unfolding lock mutex_lock
lock_lem mtxm j answer timeout_ms m = elim (get_dataptr_lem j m.valid) [
  | inr (free, e) ↦ inr (inl free, rw e refl)
  | inl (used, e) ↦ elim (ℕ_discrete answer 0) [
    | yes ok ↦ inl (used, ok, rw (e, ok) (ground arith))
    | no fails ↦ inr (inr fails, rw e (ground arith))
  ]
]

-- em_mtxmng_delete_mutex takes back the number of a mutex, and leaves every other mutex its number. On
-- any other number it gives NULL to the C library.
pub delete_mutex_lem :
    (mtxm : Mtxmng) (j : ℕ)
    → IsManager mtxm
    → (IsMutex mtxm j
        × ((mtxm' : Mtxmng) × (delete_mutex mtxm j ≡ some (em_success, mtxm'))
            × ((k : ℕ) → IsMutex mtxm' k ↔ (IsMutex mtxm k × (k ≢ j)))
            × IsManager mtxm'))
      ⊎ ((¬ IsMutex mtxm j) × (delete_mutex mtxm j ≡ none))
unfolding delete_mutex
delete_mutex_lem mtxm j m = elim (get_dataptr_lem j m.valid) [
  | inr (free, e) ↦ inr (free, rw (e, delete_mutex) refl)
  | inl (used, e) ↦ elim (free_block_by_dataidx_lem j m.valid) [
    | inr (free, _) ↦ absurd (free used)
    | inl (mp', d, r) ↦ inl (
      used,
      (
        record mtxm { mp_mutex = mp' },
        rw (e, d, delete_mutex) refl,
        r.still_used,
        record { valid = r.valid; mutexes = r.place.same_size ∙ m.mutexes },
      ),
    )
  ]
]

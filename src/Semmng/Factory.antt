-- ===== src/Semmng/Factory.antt =====
-- What em_semmng_factory hands out, and its numbers.
use embedded_middle.Prelude.{
  ℕ, ◌+◌, ◌^◌, ◌≤◌, ◌<◌, ◌≡◌, ◌⊎◌, inl, inr, refl, arith, none, some, lt→ltb, le→ltb, update_self,
  update_ne,
}
use embedded_middle.Semaphore.{sem_init}
use embedded_middle.Mempool.Valid.{IsValid}
use embedded_middle.Mempool.Blocks.{address, try_alloc_block_lem}
use embedded_middle.Mempool.Ids.{new_id, old_id}
use embedded_middle.Semmng.{Semmng, factory, factory_block, semp2id, semid2p}

-- A new semaphore has the count that was asked for and a number that leads back to it, and one that
-- was there before keeps its number and its count; when every block is in use there is none, and
-- nothing changes.
pub factory_lem :
    (smm : Semmng) (value k q : ℕ)
    → IsValid smm.mp_semaphore
    → value < 2 ^ 31
    → semid2p smm k ≡ some q
    → let (ptr, smm') = factory smm value in
      ((p : ℕ) × (ptr ≡ some p)
        × (smm'.sem p ≡ value)
        × (semid2p smm' (semp2id smm' p) ≡ some p)
        × (semid2p smm' k ≡ some q)
        × (smm'.sem q ≡ smm.sem q)
        × IsValid smm'.mp_semaphore)
      ⊎ ((smm.mp_semaphore.num_used ≡ smm.mp_semaphore.num_max) × (ptr ≡ none) × (smm' ≡ smm))
unfolding factory factory_block semp2id semid2p sem_init
factory_lem smm value k q v h e = elim (try_alloc_block_lem v) [
  | inl (j, mp', r, t) ↦
      let old = old_id v t k q e in
      rw (r, lt→ltb value (2 ^ 31) h)
        (inl (
          address smm.mp_semaphore j,
          refl,
          update_self smm.sem _ value,
          new_id v t,
          old.0,
          update_ne smm.sem (address smm.mp_semaphore j) q value old.1,
          t.valid,
        ))
  | inr (full, r) ↦ rw r (inr (full, refl, refl))
]

-- A value that the C library refuses, such as a negative one, gives NULL, and the block that was
-- taken for it stays in use.
pub factory_leak :
    (smm : Semmng) (value : ℕ)
    → IsValid smm.mp_semaphore
    → 2 ^ 31 ≤ value
    → smm.mp_semaphore.num_used < smm.mp_semaphore.num_max
    → let (ptr, smm') = factory smm value in
      (ptr ≡ none) × (smm'.mp_semaphore.num_used ≡ smm.mp_semaphore.num_used + 1)
unfolding factory factory_block
factory_leak smm value v h room = elim (try_alloc_block_lem v) [
  | inl (j, mp', r, t) ↦ rw (r, le→ltb value (2 ^ 31) h) (refl, t.one_more)
  | inr (full, r) ↦ absurd (omega arith)
]

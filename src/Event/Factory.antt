-- ===== src/Event/Factory.antt =====
-- What em_evtmng_factory hands out, em_evtmng_dispose takes back.
use embedded_middle.Prelude.{ℕ, ◌≡◌, ◌≢◌, ◌⊎◌, inl, inr, refl, arith, none, some, em_success}
use embedded_middle.Mempool.Valid.{IsValid}
use embedded_middle.Mempool.Blocks.{address, try_alloc_block_lem}
use embedded_middle.Mempool.Ids.{new_id, old_id, restored}
use embedded_middle.Event.{
  Evtmng, event_init, event_destroy, factory, factory_block, dispose, evtp2id, evtid2p,
}

pub factory_lem :
    (evtmng : Evtmng)
    → IsValid evtmng.mp_event
    → let (ptr, evtmng') = factory 0 0 evtmng in
      ((p : ℕ) × (ptr ≡ some p)
        × (evtid2p evtmng' (evtp2id evtmng' p) ≡ some p)
        × ((k q : ℕ) → evtid2p evtmng k ≡ some q → (evtid2p evtmng' k ≡ some q) × (q ≢ p))
        × IsValid evtmng'.mp_event)
      ⊎ ((evtmng.mp_event.num_used ≡ evtmng.mp_event.num_max) × (ptr ≡ none) × (evtmng' ≡ evtmng))
unfolding factory factory_block evtp2id evtid2p event_init
factory_lem evtmng v = elim (try_alloc_block_lem v) [
  | inl (j, mp', r, t) ↦
      rw r (inl (address evtmng.mp_event j, refl, new_id v t, λ k q e. old_id v t k q e, t.valid))
  | inr (full, r) ↦ rw r (inr (full, refl, refl))
]

-- An event that em_evtmng_factory hands out is taken back by em_evtmng_dispose: its number has no event
-- after that, as many blocks are in use as before the first call, and every other number has the
-- event that it had.
pub dispose-factory :
    (evtmng evtmng' : Evtmng) (p : ℕ)
    → IsValid evtmng.mp_event
    → factory 0 0 evtmng ≡ (some p, evtmng')
    → let (ret, back) = dispose 0 0 evtmng' p in
      (ret ≡ em_success)
      × (back.mp_event.num_used ≡ evtmng.mp_event.num_used)
      × (evtid2p back (evtp2id evtmng' p) ≡ none)
      × ((k q : ℕ) → evtid2p evtmng k ≡ some q → evtid2p back k ≡ some q)
      × IsValid back.mp_event
unfolding factory factory_block dispose evtp2id evtid2p event_init event_destroy
dispose-factory evtmng evtmng' p v e = elim (try_alloc_block_lem v) [
  | inl (j, mp', r, t) ↦
      let made : (address evtmng.mp_event j ≡ p) × (mp' ≡ evtmng'.mp_event) =
        ground (arith, e, r) in
      let (back, b) = restored v t in
      rw (← made.0, ← made.1, b.freed) (refl, b.same_used, b.gone, b.kept, b.valid)
  | inr (full, r) ↦ absurd (ground (arith, e, r))
]

-- ===== src/Gdatamng/Reverse.antt =====
-- Finding a key by its data: `em_gdatamng_get_key` against `em_gdatamng_get_key_by_func`.
use embedded_middle.Prelude.{
  ℕ, zero, suc, ◌+◌, ◌<◌, ◌≡◌, ◌≢◌, refl, sym, ◌∙◌, ap, ◌⊎◌, inl, inr, Bool, true, Option, none,
  some, arith, Bool-cases,
}
use embedded_middle.Bytes.{Bytes, memcmp_from}
use embedded_middle.Mempool.Valid.{IsUsed}
use embedded_middle.Mempool.Valid
use embedded_middle.Gdatamng.{
  Datamng, get_key_from, get_key, index_by_func_from, get_data_index_by_func, get_key_by_func,
}
use embedded_middle.Gdatamng.Find.{index_at_lem, IsUsed-at}
use embedded_middle.Gdatamng.Valid.{stored, IsValid}

-- `memcmp(…) == 0` over a block, as a comparator.
abbrev pub same_block : Datamng → Bytes → Bytes → Bool
same_block dm a b = memcmp_from dm.mp.block_size 0 a b

module _ (dm : Datamng) (searchdata : Bytes) (v : Valid.IsValid dm.mp) where
  -- Both loops stop at the same place, and return different things for it.
  abbrev Both : Option ℕ → Option ℕ → Type 0
  Both a b =
      ((a ≡ none) × (b ≡ none))
      ⊎ ((p : ℕ) × (a ≡ some p)
          × (b ≡ some (dm.mp.block_ptr p))
          × IsUsed dm.mp (dm.mp.block_ptr p)
          × (same_block dm (stored dm (dm.mp.block_ptr p)) searchdata ≡ true))

  abbrev data_at : ℕ → Bytes
  data_at i = dm.mem (dm.mp.block (dm.mp.block_ptr i)).data_ptr

  loops-Both :
      (rounds i : ℕ)
      → i + rounds ≡ dm.mp.num_used
      → Both
          (get_key_from dm searchdata rounds i)
          (index_by_func_from dm searchdata (same_block dm) rounds i)
  unfolding get_key_from index_by_func_from
  loops-Both zero i h = inl (refl, refl)
  loops-Both (suc rounds) i h =
      let q : i < dm.mp.num_used = omega arith in
      let e = index_at_lem dm v i q in
      elim (Bool-cases (same_block dm (data_at i) searchdata)) [
        | inl hit ↦
            rw (e, hit)
              (inr (
                i,
                refl,
                refl,
                IsUsed-at dm v i q,
                ap (λ a. memcmp_from dm.mp.block_size 0 (dm.mem a) searchdata)
                      (sym (v.data_at (dm.mp.block_ptr i) (IsUsed-at dm v i q).0))
                    ∙ hit,
              ))
        | inr miss ↦ rw (e, miss) (loops-Both rounds (i + 1) (omega arith))
      ]

-- For the same data, both searches fail, or both find a block in use that holds that data. Then
-- `em_gdatamng_get_key_by_func` returns the key of that block, and `em_gdatamng_get_key` returns the
-- key numbered by the place of the block in `block_ptr`.
pub get_key_lem :
    (dm : Datamng) (searchdata : Bytes)
    → IsValid dm
    → ((get_key dm searchdata ≡ none) × (get_key_by_func dm searchdata (same_block dm) ≡ none))
      ⊎ ((p : ℕ) × (get_key dm searchdata ≡ some p)
          × (get_key_by_func dm searchdata (same_block dm) ≡ some (dm.mp.block_ptr p))
          × IsUsed dm.mp (dm.mp.block_ptr p)
          × (same_block dm (stored dm (dm.mp.block_ptr p)) searchdata ≡ true))
unfolding get_key get_key_by_func get_data_index_by_func
get_key_lem dm searchdata v = loops-Both dm searchdata v.pool dm.mp.num_used 0 (omega arith)

-- So where the block found stands at another place of `block_ptr` than its own number, the two
-- functions return different keys.
pub get_key_wrong :
    (dm : Datamng) (searchdata : Bytes) (p : ℕ)
    → IsValid dm
    → get_key dm searchdata ≡ some p
    → dm.mp.block_ptr p ≢ p
    → get_key dm searchdata ≢ get_key_by_func dm searchdata (same_block dm)
get_key_wrong dm searchdata p v e n same = elim (get_key_lem dm searchdata v) [
  | inl (a, _) ↦ cc (e, a)
  | inr (q, a, b, _, _) ↦
      (let pq : p ≡ q = cc (e, a) in
        let bq : q ≡ dm.mp.block_ptr q = cc (same, a, b) in n (ground (arith, pq, bq)))
]

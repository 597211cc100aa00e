-- ===== src/Gdatamng/ByFunc.antt =====
-- Finding a block by a comparator: the search stops at a block in use that the comparator accepts.
use native.Mathlib.Decide.{dec_lt}
use embedded_middle.Prelude.{
  ℕ, zero, suc, ◌+◌, ◌≤◌, ◌<◌, ◌≡◌, refl, ap, ◌∙◌, ◌⊎◌, inl, inr, Bool, true, false, Option, none,
  some, arith, Bool-cases,
}
use embedded_middle.Bytes.{Bytes}
use embedded_middle.Mempool.Valid.{IsUsed}
use embedded_middle.Mempool.Valid
use embedded_middle.Gdatamng.{Datamng, index_at, index_by_func_from, get_data_index_by_func}
use embedded_middle.Gdatamng.Find.{index_at_lem, IsUsed-at}
use embedded_middle.Gdatamng.Valid.{stored}

module _ (dm : Datamng) (searchdata : Bytes) (comparator : Bytes → Bytes → Bool)
    (v : Valid.IsValid dm.mp) where
  abbrev accepts : ℕ → Bool
  accepts j = comparator (stored dm j) searchdata

  abbrev Stops : ℕ → Option ℕ → Type 0
  Stops i r =
      ((p : ℕ) × (r ≡ some (dm.mp.block_ptr p))
        × (p < dm.mp.num_used)
        × (accepts (dm.mp.block_ptr p) ≡ true))
      ⊎ ((r ≡ none) × ((p : ℕ) → i ≤ p → p < dm.mp.num_used → accepts (dm.mp.block_ptr p) ≡ false))

  -- What the loop looks at.
  seen :
      (i : ℕ)
      → i < dm.mp.num_used
      → comparator (dm.mem (dm.mp.block (index_at dm i)).data_ptr) searchdata
        ≡ accepts (dm.mp.block_ptr i)
  seen i h =
      ap (λ j. comparator (dm.mem (dm.mp.block j).data_ptr) searchdata) (index_at_lem dm v i h)
      ∙ ap (λ a. comparator (dm.mem a) searchdata)
          (v.data_at (dm.mp.block_ptr i) (IsUsed-at dm v i h).0)

  index_by_func-Stops :
      (rounds i : ℕ)
      → i + rounds ≡ dm.mp.num_used
      → Stops i (index_by_func_from dm searchdata comparator rounds i)
  unfolding index_by_func_from
  index_by_func-Stops zero i h = inr (refl, λ p a b. absurd (omega arith))
  index_by_func-Stops (suc rounds) i h =
      let q : i < dm.mp.num_used = omega arith in
      elim (Bool-cases (accepts (dm.mp.block_ptr i))) [
        | inl hit ↦ inl (i, rw (seen i q, hit) (ap some (index_at_lem dm v i q)), q, hit)
        | inr miss ↦ elim (index_by_func-Stops rounds (i + 1) (omega arith)) [
          | inl (p, e, a, m) ↦ inl (p, rw (seen i q, miss) e, a, m)
          | inr (e, none_after) ↦ inr (
            rw (seen i q, miss) e,
            λ p a b. elim (dec_lt i p) [
              | yes l ↦ none_after p (omega arith) b
              | no l ↦ (let same : p ≡ i = omega arith in rw same miss)
            ],
          )
        ]
      ]

  -- The search finds a block in use that is accepted, or there is none.
  pub index_by_func_cases :
      ((j : ℕ) × (get_data_index_by_func dm searchdata comparator ≡ some j)
        × IsUsed dm.mp j
        × (comparator (stored dm j) searchdata ≡ true))
      ⊎ ((get_data_index_by_func dm searchdata comparator ≡ none)
          × ((j : ℕ) → IsUsed dm.mp j → comparator (stored dm j) searchdata ≡ false))
  unfolding get_data_index_by_func
  index_by_func_cases = elim (index_by_func-Stops dm.mp.num_used 0 (omega arith)) [
    | inl (p, e, a, m) ↦ inl (dm.mp.block_ptr p, e, IsUsed-at dm v p a, m)
    | inr (e, none_after) ↦ inr (
      e,
      λ j u. rw (← v.ptr_of_idx j u.0) (none_after (dm.mp.block j).index_ptr (omega arith) u.1),
    )
  ]

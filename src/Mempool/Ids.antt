-- ===== src/Mempool/Ids.antt =====
-- Numbers of the blocks of a pool, across a call of em_mpool_alloc_block.
use embedded_middle.Prelude.{
  ℕ, ◌+◌, ◌<◌, ◌≡◌, ◌≢◌, inl, inr, refl, sym, ap, ◌∙◌, subst, arith, none, some, em_success, mul-ne,
}
use embedded_middle.Mempool.{Mpool, get_dataptr, get_dataidx, free_at}
use embedded_middle.Mempool.Valid.{IsValid, IsUsed}
use embedded_middle.Mempool.Blocks.{
  Takes, Returns, address, free_at-address, free_block_by_dataidx_lem, get_dataptr_lem,
  get_dataidx-address,
}

pub get_dataptr-IsUsed :
    {mp : Mpool} (j : ℕ) → IsValid mp → IsUsed mp j → get_dataptr mp j ≡ some (address mp j)
get_dataptr-IsUsed j v u = elim (get_dataptr_lem j v) [
  | inl (_, e) ↦ e
  | inr (free, _) ↦ absurd (free u)
]

module _ {mp mp' : Mpool} {j : ℕ} (v : IsValid mp) (t : Takes mp mp' j) where
  pub same_address : (i : ℕ) → address mp' i ≡ address mp i
  same_address i = ground (arith, t.place)

  -- The block that was taken has a number that leads back to it.
  pub new_id : get_dataptr mp' (get_dataidx mp' (address mp j)) ≡ some (address mp j)
  new_id =
      ap (λ a. get_dataptr mp' (get_dataidx mp' a)) (sym (same_address j))
      ∙ ap (get_dataptr mp')
          (get_dataidx-address j t.valid (omega (arith, t.in_pool, t.place.same_max)))
      ∙ get_dataptr-IsUsed j t.valid ((t.now_used j).1 (inr refl))
      ∙ ap some (same_address j)

  -- A block that had a number keeps it, and is another block.
  pub old_id :
      (k q : ℕ) → get_dataptr mp k ≡ some q → (get_dataptr mp' k ≡ some q) × (q ≢ address mp j)
  old_id k q e = elim (get_dataptr_lem k v) [
    | inr (_, gone) ↦ cc (gone, e)
    | inl (u, at) ↦
        (let place : address mp k ≡ q = cc (at, e) in
          let other : k ≢ j = λ s. t.was_free (subst (IsUsed mp) s u) in
          (
            get_dataptr-IsUsed k t.valid ((t.now_used k).1 (inl u))
                ∙ ap some (same_address k ∙ place),
            ground (arith, place, mul-ne mp.block_size k j v.size_pos other),
          ))
  ]

IsUsed-of_dataptr : {mp : Mpool} (k q : ℕ) → IsValid mp → get_dataptr mp k ≡ some q → IsUsed mp k
IsUsed-of_dataptr k q v e = elim (get_dataptr_lem k v) [
  | inl (u, _) ↦ u
  | inr (_, gone) ↦ cc (gone, e)
]

still_at :
    {mp back : Mpool} {j : ℕ} (k q : ℕ)
    → IsValid mp
    → Returns mp back j
    → k ≢ j
    → get_dataptr mp k ≡ some q
    → get_dataptr back k ≡ some q
still_at k q v r other e = elim (get_dataptr_lem k v) [
  | inr (_, gone) ↦ cc (gone, e)
  | inl (u, at) ↦
      get_dataptr-IsUsed k r.valid ((r.still_used k).1 (u, other))
      ∙ ap some (ground (arith, r.place))
      ∙ sym at
      ∙ e
]

-- A block taken and given back: the pool has the blocks in use that it had before.
pub record Restores (mp mp' back : Mpool) (j : ℕ) : Type 0 where
  pub freed : free_at mp' (address mp j) ≡ (em_success, back)
  pub valid : IsValid back
  pub same_used : back.num_used ≡ mp.num_used
  pub gone : get_dataptr back (get_dataidx mp' (address mp j)) ≡ none
  pub kept : (k q : ℕ) → get_dataptr mp k ≡ some q → get_dataptr back k ≡ some q

module _ {mp mp' : Mpool} {j : ℕ} (v : IsValid mp) (t : Takes mp mp' j) where
  j_in : j < mp'.num_max
  j_in = omega (arith, t.in_pool, t.place.same_max)

  pub id_of_new : get_dataidx mp' (address mp j) ≡ j
  id_of_new = ap (get_dataidx mp') (sym (same_address v t j)) ∙ get_dataidx-address j t.valid j_in

  pub restored : (back : Mpool) × Restores mp mp' back j
  restored = elim (free_block_by_dataidx_lem j t.valid) [
    | inr (free, _) ↦ absurd (free ((t.now_used j).1 (inr refl)))
    | inl (back, e, r) ↦ (
      back,
      record {
        freed = ap (free_at mp') (sym (same_address v t j)) ∙ free_at-address j t.valid j_in ∙ e;
        valid = r.valid;
        same_used = omega (arith, r.one_less, t.one_more);
        gone = ap (get_dataptr back) id_of_new ∙ (elim (get_dataptr_lem j r.valid) [
          | inl (u, _) ↦ absurd (((r.still_used j).0 u).1 refl)
          | inr (_, none_left) ↦ none_left
        ]);
        kept = λ k q old.
            (let (at, _) = old_id v t k q old in
              still_at k q t.valid r
                (λ s. t.was_free (subst (IsUsed mp) s (IsUsed-of_dataptr k q v old))) at);
      },
    )
  ]

-- The block of number `j` given back: every other number keeps its block.
pub record Drops (mp back : Mpool) (j : ℕ) : Type 0 where
  pub valid : IsValid back
  pub one_less : back.num_used + 1 ≡ mp.num_used
  pub gone : get_dataptr back j ≡ none
  pub kept : (k q : ℕ) → k ≢ j → get_dataptr mp k ≡ some q → get_dataptr back k ≡ some q

pub free_found :
    {mp : Mpool} (j p : ℕ)
    → IsValid mp
    → get_dataptr mp j ≡ some p
    → (back : Mpool) × (free_at mp p ≡ (em_success, back)) × Drops mp back j
free_found {mp} j p v e = elim (get_dataptr_lem j v) [
  | inr (_, gone) ↦ cc (gone, e)
  | inl (u, at) ↦ elim (free_block_by_dataidx_lem j v) [
    | inr (free, _) ↦ absurd (free u)
    | inl (back, f, r) ↦
        let place : address mp j ≡ p = cc (at, e) in
        (
          back,
          rw (← place) (free_at-address j v u.0 ∙ f),
          record {
            valid = r.valid;
            one_less = r.one_less;
            gone = elim (get_dataptr_lem j r.valid) [
              | inl (u', _) ↦ absurd (((r.still_used j).0 u').1 refl)
              | inr (_, none_left) ↦ none_left
            ];
            kept = λ k q other. still_at k q v r other;
          },
        )
  ]
]

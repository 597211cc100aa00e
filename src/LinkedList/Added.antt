-- ===== src/LinkedList/Added.antt =====
-- em_list_add puts an item at the end of the chain.
use native.Mathlib.Decide.{dec_lt}
use embedded_middle.Prelude.{
  ℕ, suc, ◌+◌, ◌-◌, ◌<◌, ◌≡◌, ◌≢◌, ◌⊎◌, inl, inr, refl, subst, sym, ap, ap₂, ◌∙◌, arith,
  if◌then◌else◌, Option, none, some, [], ◌∷◌, ◌++◌, slice, slice-snoc, slice-ext, lt→ltb, le→ltb,
  ne→==, update, mul-ne, mod_lem, u32_mod, em_success, em_error,
}
use embedded_middle.Mempool.{Mpool}
use embedded_middle.Mempool.Valid.{IsUsed, num_max-lt}
use embedded_middle.Mempool.Blocks.{address, Takes, try_alloc_block_lem}
use embedded_middle.LinkedList.{LinkedList, add, add_item, link_item, set_field}
use embedded_middle.LinkedList.Chain.{item, IsChain, IsValid, items, items_lem}

module _ {li : LinkedList} {a b : ℕ → ℕ} {n : ℕ} (c : IsChain li a b n) {mp' : Mpool} {j : ℕ}
    (t : Takes li.mp mp' j) (x : ℕ) where
  abbrev new : ℕ
  new = address li.mp j

  abbrev linked : LinkedList
  linked = link_item (record li { mp = mp' }) new x li.first

  abbrev addresses' : ℕ → ℕ
  addresses' = update a n new

  abbrev blocks' : ℕ → ℕ
  blocks' = update b n j

  fresh : (i : ℕ) → i < n → a i ≢ new
  fresh i h e =
      let (at, u) = c.block_of i h in
      let other : b i ≢ j = λ s. t.was_free (subst (IsUsed li.mp) s u) in
      ground (arith, at, mul-ne li.mp.block_size (b i) j c.pool.size_pos other)

  count_lt : n + 1 < u32_mod
  count_lt = omega (arith, num_max-lt t.valid, t.valid.used_le, t.one_more, c.used)

  same_address : (i : ℕ) → address mp' i ≡ address li.mp i
  same_address i = ground (arith, t.place)

  linked-blocks :
      (i : ℕ) → i < n + 1 → (addresses' i ≡ address mp' (blocks' i)) × IsUsed mp' (blocks' i)
  linked-blocks i h =
      ground
        (arith, c.block_of i, same_address j, same_address (b i), t.now_used j, t.now_used (b i))

  linked-distinct : (i k : ℕ) → i < n + 1 → k < n + 1 → addresses' i ≡ addresses' k → i ≡ k
  linked-distinct i k h l e = ground (arith, c.distinct i k, fresh i, fresh k)

  IsChain-first :
      n ≡ 0 → IsChain (link_item (record li { mp = mp' }) new x none) addresses' blocks' (n + 1)
  unfolding link_item
  IsChain-first e = record {
    pool = t.valid;
    counted = ground (arith, c.counted);
    used = omega (arith, t.one_more, c.used);
    first_at = ground arith;
    last_at = ground arith;
    next_of = λ i h. ground (arith);
    back_of = λ i h. ground (arith);
    block_of = linked-blocks;
    distinct = linked-distinct;
  }

  -- The last item's `next` is the new one, and every other is as before.
  next_linked :
      (i : ℕ)
      → 0 < n
      → i < n + 1
      → set_field (update li.next_at new none) li.last (some new) (addresses' i)
        ≡ item addresses' (n + 1) (i + 1)
  unfolding set_field
  next_linked i pos h =
      rw (c.last_at, ne→== n 0 (omega arith))
        (ground (arith, c.next_of i, fresh i, fresh (n - 1), c.distinct i (n - 1)))

  IsChain-next :
      (p : ℕ)
      → 0 < n
      → IsChain (link_item (record li { mp = mp' }) new x (some p)) addresses' blocks' (n + 1)
  unfolding link_item
  IsChain-next p pos = record {
    pool = t.valid;
    counted = ground (arith, c.counted, count_lt, mod_lem (n + 1) u32_mod);
    used = omega (arith, t.one_more, c.used);
    first_at = ground (arith, c.first_at);
    last_at = ground arith;
    next_of = λ i h. next_linked i pos h;
    back_of = λ i h. ground (arith, c.back_of i, c.last_at, fresh i);
    block_of = linked-blocks;
    distinct = linked-distinct;
  }

  -- What the two branches of em_list_add have in common.
  record IsLinked (after : LinkedList) : Type 0 where
    chain : IsChain after addresses' blocks' (n + 1)
    data_kept : after.data_at ≡ update li.data_at new x

  linked-IsLinked : IsLinked linked
  unfolding link_item
  linked-IsLinked =
      let F : Option ℕ → Type 0 = λ p. IsLinked (link_item (record li { mp = mp' }) new x p) in
      elim (dec_lt 0 n) [
        | yes pos ↦
            subst F
              (ap (λ t. if t then some (a 0) else none) (sym (lt→ltb 0 n pos)) ∙ sym c.first_at)
              (record { chain = IsChain-next (a 0) pos; data_kept = refl })
        | no none_yet ↦
            subst F
              (ap (λ t. if t then some (a 0) else none) (sym (le→ltb 0 n (omega arith)))
                ∙ sym c.first_at)
              (record { chain = IsChain-first (omega arith); data_kept = refl })
      ]

  linked-items : items linked ≡ items li ++ (x ∷ [])
  linked-items =
      let l = linked-IsLinked in
      let value : ℕ → ℕ = λ k. linked.data_at (addresses' k) in
      items_lem l.chain
      ∙ ap (slice value 0) {x = n + 1} {y = suc n} (omega arith)
      ∙ slice-snoc value 0 n
      ∙ ap₂ (λ xs y. xs ++ (y ∷ []))
          (slice-ext value (λ k. li.data_at (a k)) 0 n
            (λ k _ h. ap (λ (f : ℕ → ℕ). f (addresses' k)) l.data_kept ∙ ground (arith, fresh k)))
          (ap (λ (f : ℕ → ℕ). f (addresses' (0 + n))) l.data_kept ∙ ground arith)
      ∙ ap (λ xs. xs ++ (x ∷ [])) (sym (items_lem c))

-- On a valid list em_list_add puts the pointer at the end; it is refused, and changes nothing, when
-- every block of the pool holds an item.
pub add_lem :
    {li : LinkedList} (x : ℕ)
    → IsValid li
    → let (ret, li') = add li x in
      ((ret ≡ em_success) × (items li' ≡ items li ++ (x ∷ [])) × IsValid li')
      ⊎ ((li.count ≡ li.mp.num_max) × (ret ≡ em_error) × (li' ≡ li))
unfolding add add_item
add_lem {li} x v = elim (try_alloc_block_lem v.chain.pool) [
  | inl (j, mp', r, t) ↦
      let l = linked-IsLinked v.chain t x in
      rw r (
        inl (
          refl,
          linked-items v.chain t x,
          record {
            addresses = addresses' v.chain t x;
            blocks = blocks' v.chain t x;
            chain = subst (IsChain _ _ _) (sym l.chain.counted) l.chain;
          },
        ))
  | inr (full, r) ↦ rw r (inr (omega (arith, v.chain.used), refl, refl))
]

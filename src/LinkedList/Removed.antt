-- ===== src/LinkedList/Removed.antt =====
-- em_list_remove_at takes the item at a place out of the chain.
use native.Mathlib.Decide.{dec_lt}
use embedded_middle.Prelude.{
  ℕ, zero, suc, ◌+◌, ◌-◌, ◌≤◌, ◌<◌, ◌≡◌, ◌⊎◌, inl, inr, refl, subst, sym, ap, ap₂, ◌∙◌, arith, ltb,
  ◌==◌, if◌then◌else◌, Option, none, some, List, [], ◌∷◌, slice, slice-shift, slice-ext, lt→ltb,
  le→ltb, eq→==, ne→==, mod_lem, sub32, u32_mod, em_success, em_error, lt→leb, le→leb,
}
use embedded_middle.Mempool.{Mpool, free_at, free_block_by_dataidx}
use embedded_middle.Mempool.Valid.{IsUsed, num_max-lt}
use embedded_middle.Mempool.Blocks.{address, Returns, free_block_by_dataidx_lem, free_at-address}
use embedded_middle.LinkedList.{
  LinkedList, remove_at, remove_item, walk, unlink_forward, unlink_backward,
}
use embedded_middle.LinkedList.Chain.{item, before, IsChain, IsValid, items, items_lem, walk_lem}

-- A list without its entry at the place `k`.
pub remove_nth : ℕ → List ℕ → List ℕ
remove_nth k [] = []
remove_nth zero (x ∷ xs) = xs
remove_nth (suc k) (x ∷ xs) = x ∷ remove_nth k xs

remove_nth-slice :
    (f : ℕ → ℕ) (k i n : ℕ)
    → k < n
    → remove_nth k (slice f i n) ≡ slice (λ m. if ltb m (i + k) then f m else f (m + 1)) i (n - 1)
unfolding remove_nth
remove_nth-slice f k i zero h = absurd (omega arith)
remove_nth-slice f zero i (suc n) h =
    slice-shift f 1 i n
    ∙ slice-ext (λ m. f (m + 1)) (λ m. if ltb m (i + 0) then f m else f (m + 1)) i n
        (λ m l u. ground arith)
    ∙ ap (slice (λ m. if ltb m (i + 0) then f m else f (m + 1)) i) {y = suc n - 1} (omega arith)
remove_nth-slice f (suc k) i (suc zero) h = absurd (omega arith)
remove_nth-slice f (suc k) i (suc (suc n)) h =
    ap₂ ◌∷◌ {y = if ltb i (i + suc k) then f i else f (i + 1)} (ground arith) (
      remove_nth-slice f k (i + 1) (suc n) (omega arith)
      ∙ slice-ext (λ m. if ltb m (i + 1 + k) then f m else f (m + 1))
          (λ m. if ltb m (i + suc k) then f m else f (m + 1)) (i + 1) (suc n - 1)
          (λ m l u. ground arith)
      ∙ ap (slice (λ m. if ltb m (i + suc k) then f m else f (m + 1)) (i + 1)) {y = n}
          (omega arith))
    ∙ ap (slice (λ m. if ltb m (i + suc k) then f m else f (m + 1)) i) {x = suc n}
        {y = suc (suc n) - 1} (omega arith)

module _ {li : LinkedList} {a b : ℕ → ℕ} {n : ℕ} (c : IsChain li a b n) (k : ℕ) (h : k < n) where
  abbrev forward : LinkedList
  forward = unlink_forward li (a k) (li.back_at (a k))

  abbrev unlinked : LinkedList
  unlinked = unlink_backward forward (a k) (forward.next_at (a k))

  record IsForward (after : LinkedList) : Type 0 where
    first_is : after.first ≡ (if k == 0 then item a n 1 else li.first)
    next_is :
        (x : ℕ)
        → after.next_at x ≡ (
            if k == 0
            then li.next_at x
            else (if x == a (k - 1) then item a n (k + 1) else li.next_at x))
    last_kept : after.last ≡ li.last
    back_kept : after.back_at ≡ li.back_at
    data_kept : after.data_at ≡ li.data_at
    count_kept : after.count ≡ li.count
    mp_kept : after.mp ≡ li.mp

  forward-IsForward : IsForward forward
  unfolding unlink_forward
  forward-IsForward =
      let F : Option ℕ → Type 0 = λ p. IsForward (unlink_forward li (a k) p) in
      elim (dec_lt 0 k) [
        | yes pos ↦
            subst F
              (ap (λ t. if t then none else some (a (k - 1))) (sym (ne→== k 0 (omega arith)))
                ∙ sym (c.back_of k h))
              (record {
                first_is = ground arith;
                next_is = λ x. ground (arith, c.next_of k);
                last_kept = refl;
                back_kept = refl;
                data_kept = refl;
                count_kept = refl;
                mp_kept = refl;
              })
        | no at_first ↦
            subst F
              (ap (λ t. if t then none else some (a (k - 1))) (sym (eq→== k 0 (omega arith)))
                ∙ sym (c.back_of k h))
              (record {
                first_is = ground (arith, c.next_of k);
                next_is = λ x. ground arith;
                last_kept = refl;
                back_kept = refl;
                data_kept = refl;
                count_kept = refl;
                mp_kept = refl;
              })
      ]

  next_item : forward.next_at (a k) ≡ item a n (k + 1)
  next_item = forward-IsForward.next_is (a k) ∙ ground (arith, c.next_of k, c.distinct k (k - 1))

  record IsBackward (after : LinkedList) : Type 0 where
    first_same : after.first ≡ forward.first
    next_same : after.next_at ≡ forward.next_at
    last_is : after.last ≡ (if k + 1 == n then before a k else li.last)
    back_is :
        (x : ℕ)
        → after.back_at x ≡ (
            if k + 1 == n
            then li.back_at x
            else (if x == a (k + 1) then before a k else li.back_at x))
    data_same : after.data_at ≡ li.data_at
    count_same : after.count ≡ li.count
    mp_same : after.mp ≡ li.mp

  unlinked-IsBackward : IsBackward unlinked
  unfolding unlink_backward
  unlinked-IsBackward =
      let F : Option ℕ → Type 0 = λ p. IsBackward (unlink_backward forward (a k) p) in
      let f = forward-IsForward in
      let back_here : forward.back_at (a k) ≡ before a k =
        ap (λ (g : ℕ → Option ℕ). g (a k)) f.back_kept ∙ c.back_of k h in
      elim (dec_lt (k + 1) n) [
        | yes more ↦
            subst F
              (ap (λ t. if t then some (a (k + 1)) else none) (sym (lt→ltb (k + 1) n more))
                ∙ sym next_item)
              (record {
                first_same = refl;
                next_same = refl;
                last_is = f.last_kept ∙ ground arith;
                back_is = λ x.
                    ap (λ (g : ℕ → Option ℕ). if x == a (k + 1) then g (a k) else g x) f.back_kept
                    ∙ ground (arith, c.back_of k);
                data_same = f.data_kept;
                count_same = f.count_kept;
                mp_same = f.mp_kept;
              })
        | no at_last ↦
            subst F
              (ap (λ t. if t then some (a (k + 1)) else none) (sym (le→ltb (k + 1) n (omega arith)))
                ∙ sym next_item)
              (record {
                first_same = refl;
                next_same = refl;
                last_is = back_here ∙ ground arith;
                back_is = λ x. ap (λ (g : ℕ → Option ℕ). g x) f.back_kept ∙ ground arith;
                data_same = f.data_kept;
                count_same = f.count_kept;
                mp_same = f.mp_kept;
              })
      ]

  -- The addresses and the blocks of the items that stay.
  abbrev rest : ℕ → ℕ
  rest i = if ltb i k then a i else a (i + 1)

  abbrev rest_blocks : ℕ → ℕ
  rest_blocks i = if ltb i k then b i else b (i + 1)

  module _ {mp' : Mpool} (r : Returns li.mp mp' (b k)) where
    abbrev removed : LinkedList
    removed = record unlinked { mp = mp'; count = sub32 unlinked.count 1 }

    same_address : (i : ℕ) → address mp' i ≡ address li.mp i
    same_address i = ground (arith, r.place)

    rest-blocks :
        (i : ℕ) → i < n - 1 → (rest i ≡ address mp' (rest_blocks i)) × IsUsed mp' (rest_blocks i)
    rest-blocks i l = ground (
      arith,
      c.block_of i,
      c.block_of (i + 1),
      c.block_of k,
      same_address (b i),
      same_address (b (i + 1)),
      r.still_used (b i),
      r.still_used (b (i + 1)),
      c.distinct i k,
      c.distinct (i + 1) k,
    )

    rest-distinct : (i m : ℕ) → i < n - 1 → m < n - 1 → rest i ≡ rest m → i ≡ m
    rest-distinct i m l q e = ground (
      arith,
      c.distinct i m,
      c.distinct (i + 1) m,
      c.distinct i (m + 1),
      c.distinct (i + 1) (m + 1),
    )

    rest_next : (i : ℕ) → i < n - 1 → removed.next_at (rest i) ≡ item rest (n - 1) (i + 1)
    rest_next i l =
        ap (λ (g : ℕ → Option ℕ). g (rest i)) unlinked-IsBackward.next_same
        ∙ forward-IsForward.next_is (rest i)
        ∙ ground (
          arith,
          c.next_of i,
          c.next_of (i + 1),
          c.distinct i (k - 1),
          c.distinct (i + 1) (k - 1),
        )

    rest_back : (i : ℕ) → i < n - 1 → removed.back_at (rest i) ≡ before rest i
    rest_back i l =
        unlinked-IsBackward.back_is (rest i)
        ∙ ground (
          arith,
          c.back_of i,
          c.back_of (i + 1),
          c.distinct i (k + 1),
          c.distinct (i + 1) (k + 1),
        )

    removed-IsChain : IsChain removed rest rest_blocks (n - 1)
    removed-IsChain =
        let u = unlinked-IsBackward in
        record {
          pool = r.valid;
          counted =
              ap (λ m. sub32 m 1) (u.count_same ∙ c.counted)
              ∙ ground (
                arith,
                num_max-lt c.pool,
                c.pool.used_le,
                c.used,
                mod_lem (n + u32_mod - 1) u32_mod,
              );
          used = omega (arith, r.one_less, c.used);
          first_at = u.first_same ∙ forward-IsForward.first_is ∙ ground (arith, c.first_at);
          last_at = u.last_is ∙ ground (arith, c.last_at);
          next_of = rest_next;
          back_of = rest_back;
          block_of = rest-blocks;
          distinct = rest-distinct;
        }

    removed-items : items removed ≡ remove_nth k (items li)
    removed-items =
        items_lem removed-IsChain
        ∙ slice-ext (λ m. removed.data_at (rest m))
            (λ m. if ltb m (0 + k) then li.data_at (a m) else li.data_at (a (m + 1))) 0 (n - 1)
            (λ m _ l. ap (λ (f : ℕ → ℕ). f (rest m)) unlinked-IsBackward.data_same ∙ ground arith)
        ∙ sym (remove_nth-slice (λ m. li.data_at (a m)) k 0 n h)
        ∙ ap (remove_nth k) (sym (items_lem c))

remove_item-removed :
    {li : LinkedList} {a b : ℕ → ℕ} {n : ℕ} (c : IsChain li a b n) (k : ℕ) (h : k < n) {mp' : Mpool}
    (r : Returns li.mp mp' (b k))
    → free_block_by_dataidx li.mp (b k) ≡ (em_success, mp')
    → remove_item li (walk li k li.first) ≡ (em_success, removed c k h r)
unfolding remove_item
remove_item-removed {li} {a} {b} {n} c k h {mp'} r e =
    let (at, u) = c.block_of k h in
    ap (remove_item li) (
      ap (walk li k) c.first_at
      ∙ walk_lem c k 0 (omega arith)
      ∙ ap (λ i. some (a i)) {y = k} (omega arith))
    ∙ ap
        (λ m.
          (em_success, record (unlinked c k h) { mp = m; count = sub32 (unlinked c k h).count 1 }))
        (ap₂ (λ m p. (free_at m p).1) (unlinked-IsBackward c k h).mp_same at
          ∙ ap (λ q. q.1) (free_at-address (b k) c.pool u.0 ∙ e))

-- On a valid list em_list_remove_at takes out the pointer at its place; a place behind the last is
-- refused, and changes nothing.
pub remove_at_lem :
    {li : LinkedList} (index : ℕ)
    → IsValid li
    → let (ret, li') = remove_at li index in
      ((index < li.count)
        × (ret ≡ em_success)
        × (items li' ≡ remove_nth index (items li))
        × IsValid li')
      ⊎ ((li.count ≤ index) × (ret ≡ em_error) × (li' ≡ li))
unfolding remove_at
remove_at_lem {li} k v = elim (dec_lt k li.count) [
  | no out ↦ rw (le→leb li.count k (omega arith)) (inr (omega arith, refl, refl))
  | yes h ↦
      (let c = v.chain in
        let (at, u) = c.block_of k h in
        elim (free_block_by_dataidx_lem (v.blocks k) c.pool) [
          | inr (free, _) ↦ absurd (free u)
          | inl (mp', e, r) ↦
              let l = removed-IsChain c k h r in
              rw (lt→leb li.count k h, remove_item-removed c k h r e)
                (inl (
                  h,
                  refl,
                  removed-items c k h r,
                  record {
                    addresses = rest c k h;
                    blocks = rest_blocks c k h;
                    chain = subst (IsChain _ _ _) (sym l.counted) l;
                  },
                ))
        ])
]

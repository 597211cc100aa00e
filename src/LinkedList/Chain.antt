-- ===== src/LinkedList/Chain.antt =====
-- The invariant of `em_list_t`: its items form a chain that both kinds of pointers follow.
use embedded_middle.Prelude.{
  em_success, ℕ, zero, suc, ◌+◌, ◌-◌, ◌*◌, ◌<◌, ◌≡◌, refl, ap, ap₂, ◌∙◌, arith, ltb, ◌==◌,
  if◌then◌else◌, Option, none, some, List, [], ◌∷◌, slice, lt→ltb, u32_mod,
}
use embedded_middle.Mempool.{Mpool}
use embedded_middle.Mempool.Valid.{IsUsed}
use embedded_middle.Mempool.Valid
use embedded_middle.Mempool.Blocks.{address}
use embedded_middle.LinkedList.{LinkedList, create, walk, sizeof_listitem}

-- The item at the place `i` of the `n` addresses `a`, or NULL behind the last.
abbrev pub item : (ℕ → ℕ) → ℕ → ℕ → Option ℕ
item a n i = if ltb i n then some (a i) else none

-- The item before the place `i`, or NULL before the first.
abbrev pub before : (ℕ → ℕ) → ℕ → Option ℕ
before a i = if i == 0 then none else some (a (i - 1))

-- The list has the items at `a 0` to `a (n - 1)`, in this order; each is a block in use, and the
-- block with the number `b i`.
pub record IsChain (li : LinkedList) (a b : ℕ → ℕ) (n : ℕ) : Type 0 where
  pub pool : Valid.IsValid li.mp
  pub counted : li.count ≡ n
  pub used : li.mp.num_used ≡ n
  pub first_at : li.first ≡ item a n 0
  pub last_at : li.last ≡ before a n
  pub next_of : (i : ℕ) → i < n → li.next_at (a i) ≡ item a n (i + 1)
  pub back_of : (i : ℕ) → i < n → li.back_at (a i) ≡ before a i
  pub block_of : (i : ℕ) → i < n → (a i ≡ address li.mp (b i)) × IsUsed li.mp (b i)
  pub distinct : (i j : ℕ) → i < n → j < n → a i ≡ a j → i ≡ j

pub record IsValid (li : LinkedList) : Type 0 where
  pub addresses : ℕ → ℕ
  pub blocks : ℕ → ℕ
  pub chain : IsChain li addresses blocks li.count

-- The data found by following `next` for `n` items.
unfoldable pub collect : LinkedList → ℕ → Option ℕ → List ℕ
collect li zero p = []
collect li (suc n) none = []
collect li (suc n) (some p) = li.data_at p ∷ collect li n (li.next_at p)

-- What the list holds.
unfoldable pub items : LinkedList → List ℕ
unfolding collect
items li = collect li li.count li.first

module _ {li : LinkedList} {a b : ℕ → ℕ} {n : ℕ} (c : IsChain li a b n) where
  collect_lem :
      (m i : ℕ) → i + m ≡ n → collect li m (item a n i) ≡ slice (λ k. li.data_at (a k)) i m
  unfolding collect
  collect_lem zero i e = refl
  collect_lem (suc m) i e = rw (lt→ltb i n (omega arith)) (
      ap (λ l. li.data_at (a i) ∷ l)
        (ap (collect li m) (c.next_of i (omega arith)) ∙ collect_lem m (i + 1) (omega arith)))

  pub items_lem : items li ≡ slice (λ k. li.data_at (a k)) 0 n
  unfolding items
  items_lem = ap₂ (λ k p. collect li k p) c.counted c.first_at ∙ collect_lem n 0 (omega arith)

  pub walk_lem : (k i : ℕ) → i + k < n → walk li k (item a n i) ≡ some (a (i + k))
  unfolding walk
  walk_lem zero i h = rw (lt→ltb i n (omega arith)) (ap (λ m. some (a m)) (omega arith))
  walk_lem (suc k) i h = rw (lt→ltb i n (omega arith)) (
      ap (walk li k) (c.next_of i (omega arith))
      ∙ walk_lem k (i + 1) (omega arith)
      ∙ ap (λ m. some (a m)) (omega arith))

no_block_used : {mp : Mpool} → Valid.IsValid mp → ((j : ℕ) → ¬ IsUsed mp j) → mp.num_used ≡ 0
no_block_used {mp} v free =
    ground (arith, free (mp.block_ptr 0), v.used_le, v.ptr_lt 0, v.idx_of_ptr 0)

module _ (li : LinkedList) (mp : Mpool) (v : Valid.IsValid mp)
    (free : (j : ℕ) → ¬ IsUsed mp j) where
  abbrev empty : LinkedList
  empty = record li { mp = mp; count = 0; first = none; last = none }

  empty-IsValid : IsValid empty × (items empty ≡ [])
  unfolding items collect
  empty-IsValid = (
    record {
      addresses = λ i. 0;
      blocks = λ i. 0;
      chain = record {
        pool = v;
        counted = refl;
        used = no_block_used v free;
        first_at = refl;
        last_at = refl;
        next_of = λ i l. absurd (omega arith);
        back_of = λ i l. absurd (omega arith);
        block_of = λ i l. absurd (omega arith);
        distinct = λ i j l m e. absurd (omega arith);
      };
    },
    refl,
  )

-- A new list of a number of items that fits is valid and empty.
pub create_lem :
    {H : Type 0} (alloc_func : ℕ → H → ℕ × H) (li : LinkedList) (num_max_item : ℕ) (h : H)
    → 0 < num_max_item
    → sizeof_listitem * num_max_item < u32_mod
    → let (ret, new, _) = create alloc_func li num_max_item h in
      (ret ≡ em_success) × IsValid new × (items new ≡ [])
unfolding create
create_lem alloc_func li num_max_item h hn hr =
    let fresh =
      Valid.create-IsValid alloc_func li.mp sizeof_listitem num_max_item h (omega arith) hn hr in
    rw fresh.0 (let e = empty-IsValid li _ fresh.1 fresh.3 in (refl, e.0, e.1))

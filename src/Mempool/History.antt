-- ===== src/Mempool/History.antt =====
-- Sequences of calls on a pool, and the two getters that copy the list of used blocks.
use embedded_middle.Prelude.{
  ℕ, zero, suc, ◌+◌, ◌-◌, ◌<◌, ◌≡◌, refl, ◌∙◌, inl, inr, Option, none, some, List, [], ◌∷◌, ℤ,
  arith, true, length, get_elem?, min, em_no_timeout, Bool-cases, ap,
}
use embedded_middle.Prelude.Int.{eqb_ℤ}
use embedded_middle.Mempool.{
  Mpool, alloc_block, free_at, free_block, is_inside, free_block_by_dataidx, get_dataidx, copy_used,
  get_dataidx_array,
}
use embedded_middle.Mempool.Valid.{IsValid, IsUsed}
use embedded_middle.Mempool.Blocks.{SamePlace, alloc_block_lem, free_block_by_dataidx_lem}

-- The calls that change a pool.
pub data Call : Type 0 where
  allocs : ℤ → Call
  frees : ℕ → Call
  frees_by_dataidx : ℕ → Call

-- A call that never returns leaves the pool as it is.
after_alloc : Mpool → Option (Option ℕ × Mpool) → Mpool
after_alloc mp none = mp
after_alloc mp (some (_, mp')) = mp'

after_free : Option (ℤ × Mpool) → Option Mpool
after_free none = none
after_free (some (_, mp')) = some mp'

-- `none` is a read outside the pool.
unfoldable pub step : Mpool → Call → Option Mpool
unfolding after_alloc after_free
step mp (allocs timeout_ms) = some (after_alloc mp (alloc_block mp timeout_ms))
step mp (frees block_data) = after_free (free_block mp block_data)
step mp (frees_by_dataidx data_idx) = some (free_block_by_dataidx mp data_idx).1

unfoldable pub run : Mpool → List Call → Option Mpool
run mp [] = some mp
run mp (c ∷ cs) = elim (step mp c) [ none ↦ none | some mp' ↦ run mp' cs ]

-- The pointers that are freed point to bytes of the pool.
abbrev pub IsInsideAll : Mpool → List Call → Type 0
IsInsideAll mp [] = Unit
IsInsideAll mp (allocs timeout_ms ∷ cs) = IsInsideAll mp cs
IsInsideAll mp (frees block_data ∷ cs) = (is_inside mp block_data ≡ true) × IsInsideAll mp cs
IsInsideAll mp (frees_by_dataidx data_idx ∷ cs) = IsInsideAll mp cs

abbrev Keeps : Mpool → Mpool → Type 0
Keeps mp mp' = IsValid mp' × SamePlace mp mp'

still : {mp : Mpool} → IsValid mp → Keeps mp mp
still v = (v, record { same_size = refl; same_max = refl; same_raw = refl })

free-Keeps : {mp : Mpool} (d : ℕ) → IsValid mp → Keeps mp (free_block_by_dataidx mp d).1
free-Keeps {mp} d v = elim (free_block_by_dataidx_lem d v) [
  | inl (mp', e, r) ↦ rw e (r.valid, r.place)
  | inr (_, e) ↦ rw e (still v)
]

alloc-Keeps : {mp : Mpool} (t : ℤ) → IsValid mp → Keeps mp (after_alloc mp (alloc_block mp t))
unfolding after_alloc
alloc-Keeps {mp} t v = elim (alloc_block_lem t v) [
  | inl (_, _, e, t) ↦ rw (e, after_alloc) (t.valid, t.place)
  | inr (_, e) ↦ elim (Bool-cases (eqb_ℤ t em_no_timeout)) [
    | inl b ↦ rw (e, after_alloc, b) (still v)
    | inr b ↦ rw (e, after_alloc, b) (still v)
  ]
]

is_inside-same : {mp mp' : Mpool} (a : ℕ) → SamePlace mp mp' → is_inside mp' a ≡ is_inside mp a
unfolding is_inside
is_inside-same a same = rw (same.same_size, same.same_max, same.same_raw) refl

IsInsideAll-same :
    (cs : List Call) {mp mp' : Mpool} → SamePlace mp mp' → IsInsideAll mp cs → IsInsideAll mp' cs
IsInsideAll-same [] same inside = tt
IsInsideAll-same (allocs t ∷ cs) same inside = IsInsideAll-same cs same inside
IsInsideAll-same (frees a ∷ cs) same inside =
    (is_inside-same a same ∙ inside.0, IsInsideAll-same cs same inside.1)
IsInsideAll-same (frees_by_dataidx d ∷ cs) same inside = IsInsideAll-same cs same inside

step-Keeps :
    {mp : Mpool} (c : Call) (cs : List Call)
    → IsInsideAll mp (c ∷ cs)
    → IsValid mp
    → (mp' : Mpool) × (step mp c ≡ some mp') × Keeps mp mp' × IsInsideAll mp' cs
unfolding step free_at free_block after_free
step-Keeps {mp} (allocs t) cs inside v =
    let k = alloc-Keeps t v in
    (after_alloc mp (alloc_block mp t), refl, k, IsInsideAll-same cs k.1 inside)
step-Keeps {mp} (frees a) cs inside v =
    let k = free-Keeps (get_dataidx mp a) v in
    ((free_at mp a).1, rw inside.0 refl, k, IsInsideAll-same cs k.1 inside.1)
step-Keeps {mp} (frees_by_dataidx d) cs inside v =
    let k = free-Keeps d v in
    ((free_block_by_dataidx mp d).1, refl, k, IsInsideAll-same cs k.1 inside)

run-step :
    (mp : Mpool) {mp' : Mpool} (c : Call) (cs : List Call)
    → step mp c ≡ some mp'
    → run mp (c ∷ cs) ≡ run mp' cs
unfolding run
run-step mp c cs e = rw (run, e) refl

-- Whatever a pool's clients call, with whatever indices and with whatever pointers to four bytes
-- of the pool (a block that is not in use, is freed twice, or is pointed into), no call reads
-- outside the pool and it stays valid.
pub run-IsValid :
    (cs : List Call) {mp : Mpool}
    → IsInsideAll mp cs
    → IsValid mp
    → (mp' : Mpool) × (run mp cs ≡ some mp') × IsValid mp'
unfolding run
run-IsValid [] {mp} inside v = (mp, refl, v)
run-IsValid (c ∷ cs) {mp} inside v =
    let (mp₁, e, k, inside₁) = step-Keeps c cs inside v in
    let (mp', e', v') = run-IsValid cs inside₁ k.0 in (mp', run-step mp c cs e ∙ e', v')

get_elem?-copy_used :
    (entry : ℕ → ℕ) (used size r i k : ℕ)
    → k < r
    → i + k < used
    → i + k < size
    → get_elem? (copy_used entry used size r i) k ≡ some (entry (i + k))
unfolding copy_used
get_elem?-copy_used entry used size zero i k h a b = absurd (omega arith)
get_elem?-copy_used entry used size (suc r) i zero h a b =
    let e : i + 0 ≡ i = omega arith in rw e (ground arith)
get_elem?-copy_used entry used size (suc r) i (suc k) h a b =
    let e : i + suc k ≡ i + 1 + k = omega arith in
    let ih =
      get_elem?-copy_used entry used size r (i + 1) k (omega arith) (omega arith) (omega arith) in
    ground (arith, e, ih)

length-copy_used :
    (entry : ℕ → ℕ) (used size r i : ℕ)
    → i + r ≡ used
    → length (copy_used entry used size r i) ≡ min used size - i
unfolding copy_used
length-copy_used entry used size zero i h = omega arith
length-copy_used entry used size (suc r) i h =
    ground (arith, length-copy_used entry used size r (i + 1))

abbrev entry_of : Mpool → ℕ → ℕ
entry_of mp i = (mp.block (mp.block_ptr i)).index

entry_at :
    {mp : Mpool} (v : IsValid mp) (size k : ℕ)
    → k < mp.num_used
    → k < size
    → get_elem? (copy_used (entry_of mp) mp.num_used size mp.num_used 0) k ≡ some (mp.block_ptr k)
entry_at {mp} v size k h g =
    let e : 0 + k ≡ k = omega arith in
    ground (
      arith,
      e,
      get_elem?-copy_used (entry_of mp) mp.num_used size mp.num_used 0 k,
      v.index_self (mp.block_ptr k),
      v.ptr_lt k,
      v.used_le,
    )

-- `em_mpool_get_dataidx_array` reports the number of used blocks, and writes as many entries as the
-- array has room for. Each used block stands at its place in `block_ptr` if that is in the array,
-- and each entry that is written is a used block.
pub get_dataidx_array_lem :
    {mp : Mpool} (max_size : ℕ)
    → IsValid mp
    → let (data_num, written) = get_dataidx_array mp max_size in
      (data_num ≡ mp.num_used)
      × (length written ≡ min mp.num_used max_size)
      × ((j : ℕ)
          → IsUsed mp j
          → (mp.block j).index_ptr < max_size
          → get_elem? written (mp.block j).index_ptr ≡ some j)
      × ((k : ℕ)
          → k < min mp.num_used max_size
          → (j : ℕ) × (get_elem? written k ≡ some j) × IsUsed mp j)
unfolding get_dataidx_array
get_dataidx_array_lem {mp} size v = (
  refl,
  omega (arith, length-copy_used (entry_of mp) mp.num_used size mp.num_used 0),
  λ j u h. entry_at v size (mp.block j).index_ptr u.1 h ∙ ap some (v.ptr_of_idx j u.0),
  λ k h. (
    mp.block_ptr k,
    entry_at v size k (omega arith) (omega arith),
    ground (arith, v.ptr_lt k, v.idx_of_ptr k, v.used_le),
  ),
)

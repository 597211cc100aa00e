-- ===== src/Idatamng/Ids.antt =====
-- A table with integer keys is a map from ids: two ids are the same key when they are equal.
use native.Mathlib.Decide.{ℕ_discrete}
use embedded_middle.Prelude.{
  ℕ, zero, suc, ◌+◌, ◌/◌, ◌^◌, ◌<◌, ◌≡◌, inl, inr, ap₂, fun_ext, refl, sym, ap, ◌∙◌, arith,
  Bool-cases, ◌==◌, eq→==, ne→==, if◌then◌else◌, none, some, pos, em_success, em_error,
}
use embedded_middle.Bytes.{Bytes, Agree, memcpy, memcmp_from, Agree_of_memcmp}
use embedded_middle.Mempool.Blocks.{address}
use embedded_middle.Gdatamng.{Datamng, keycmp, em_dmng_key_integer}
use embedded_middle.Gdatamng
use embedded_middle.Gdatamng.Find.{Holds, keycmp_refl, keycmp_integer}
use embedded_middle.Gdatamng.Valid
use embedded_middle.Gdatamng.Added.{add_data_new, add_data-shape}
use embedded_middle.Gdatamng.Removed.{remove_data_last}
use embedded_middle.Idatamng.{
  key_of, of_key, sizeof_ulong, add_data, get_data, get_data_ptr, get_data_cnt, remove_data,
}

-- `a` is a number of `n` bytes.
Fits : ℕ → ℕ → Type 0
Fits zero a = a ≡ 0
Fits (suc n) a = Fits n (a / 256)

key_of-inj : (n a b : ℕ) → Fits n a → Fits n b → Agree (key_of a) (key_of b) n → a ≡ b
unfolding key_of Fits
key_of-inj zero a b fa fb h = fa ∙ sym fb
key_of-inj (suc n) a b fa fb h = omega (
  arith,
  h 0 (omega arith),
  key_of-inj n (a / 256) (b / 256) fa fb (λ k l. h (suc k) (omega arith)),
)

ulong-Fits : (a : ℕ) → a < 2 ^ 64 → Fits sizeof_ulong a
unfolding Fits
ulong-Fits a h = omega arith

-- The comparison of the keys of two ids is the test that they are equal.
pub keycmp-key_of :
    (a b : ℕ)
    → a < 2 ^ 64
    → b < 2 ^ 64
    → keycmp em_dmng_key_integer (key_of a) (key_of b) sizeof_ulong ≡ (a == b)
keycmp-key_of a b ha hb = elim (ℕ_discrete a b) [
  | yes e ↦ rw (e, eq→== b b refl) (keycmp_refl em_dmng_key_integer (key_of b) sizeof_ulong)
  | no n ↦ elim (Bool-cases (memcmp_from sizeof_ulong 0 (key_of a) (key_of b))) [
    | inl same ↦ absurd (
        n (
          key_of-inj sizeof_ulong a b (ulong-Fits a ha) (ulong-Fits b hb)
            (λ k l. Agree_of_memcmp sizeof_ulong 0 k (key_of a) (key_of b) same (omega arith) l)))
    | inr other ↦ keycmp_integer (key_of a) (key_of b) sizeof_ulong ∙ other ∙ sym (ne→== a b n)
  ]
]

of_key-step : (n id : ℕ) → Fits n id → of_key n (key_of id) ≡ id
unfolding of_key key_of Fits
of_key-step zero id h = sym h
of_key-step (suc n) id h =
    let rest : of_key n (λ i. key_of id (i + 1)) ≡ id / 256 =
      ap (of_key n) {y = key_of (id / 256)}
        (fun_ext (λ i. ap (key_of id) {x = i + 1} {y = suc i} (omega arith)))
      ∙ of_key-step n (id / 256) h in
    omega (arith, rest)

pub of_key-Agree : (n : ℕ) (a b : Bytes) → Agree a b n → of_key n a ≡ of_key n b
unfolding of_key
of_key-Agree zero a b h = refl
of_key-Agree (suc n) a b h = omega (
  arith,
  h 0 (omega arith),
  of_key-Agree n (λ i. a (i + 1)) (λ i. b (i + 1)) (λ k l. h (k + 1) (omega arith)),
)

-- The id read back from its key is the id.
pub of_key-key_of : (id : ℕ) → id < 2 ^ 64 → of_key sizeof_ulong (key_of id) ≡ id
of_key-key_of id h = of_key-step sizeof_ulong id (ulong-Fits id h)

-- A table of em_idatamng_create, in which the two ids are `ulong` numbers.
pub record IsIdTable (dm : Datamng) : Type 0 where
  pub valid : Valid.IsValid dm
  pub integers : dm.key_type ≡ em_dmng_key_integer
  pub longs : dm.key_size ≡ sizeof_ulong

same_id :
    {dm : Datamng} (a b : ℕ)
    → IsIdTable dm
    → a < 2 ^ 64
    → b < 2 ^ 64
    → keycmp dm.key_type (key_of a) (key_of b) dm.key_size ≡ (a == b)
same_id a b i ha hb =
    ap₂ (λ t n. keycmp t (key_of a) (key_of b) n) i.integers i.longs ∙ keycmp-key_of a b ha hb

pub get_data_ptr-Holds :
    {dm : Datamng} (id j : ℕ)
    → IsIdTable dm
    → Holds dm (key_of id) j
    → get_data_ptr dm id ≡ some (address dm.mp j)
unfolding get_data_ptr
get_data_ptr-Holds {dm} id j i h = Valid.get_data_ptr-Holds dm (key_of id) j i.valid h

pub unknown-get_data_ptr :
    (dm : Datamng) (id : ℕ) (dst : Bytes) → get_data dm id dst ≡ none → get_data_ptr dm id ≡ none
unfolding get_data get_data_ptr
unknown-get_data_ptr dm id dst = Valid.unknown-get_data_ptr dm (key_of id) dst

-- With an id that the table does not have, and a free block, em_idatamng_add_data succeeds: the id
-- then reads the new data and the count 1, and every other id what it read before.
pub add_data_lem :
    {dm : Datamng} (id k : ℕ) (bytes dst : Bytes)
    → IsIdTable dm
    → id < 2 ^ 64
    → k < 2 ^ 64
    → get_data dm id dst ≡ none
    → dm.mp.num_used < dm.mp.num_max
    → let (ret, dm') = add_data dm id bytes in
      (ret ≡ em_success)
      × (get_data dm' k dst
          ≡ (if id == k then some (memcpy dst bytes dm.mp.block_size) else get_data dm k dst))
      × (get_data_cnt dm' k ≡ (if id == k then pos 1 else get_data_cnt dm k))
unfolding add_data get_data get_data_cnt
add_data_lem {dm} id k bytes dst i hi hk e room =
    let r = add_data_new dm (key_of id) bytes (key_of k) dst i.valid e room in
    let s = same_id id k i hi hk in
    (
      r.0,
      r.2
          ∙ ap
              (λ t.
                if t
                then some (memcpy dst bytes dm.mp.block_size)
                else Gdatamng.get_data dm (key_of k) dst)
              s,
      r.3 ∙ ap (λ t. if t then pos 1 else Gdatamng.get_data_cnt dm (key_of k)) s,
    )

-- The table has one block more in use, of as many.
pub add_data-num_used :
    {dm : Datamng} (id : ℕ) (bytes dst : Bytes)
    → IsIdTable dm
    → get_data dm id dst ≡ none
    → dm.mp.num_used < dm.mp.num_max
    → let dm' = (add_data dm id bytes).1 in
      (dm'.mp.num_used ≡ dm.mp.num_used + 1) × (dm'.mp.num_max ≡ dm.mp.num_max)
unfolding add_data get_data
add_data-num_used {dm} id bytes dst i e room =
    let r = add_data-shape dm (key_of id) bytes dst i.valid e room in (r.3, r.4)

-- An id that was added once is removed by em_idatamng_remove_data: it is not found any more, and every
-- other id reads what it read before.
pub remove_data_lem :
    {dm : Datamng} (id k : ℕ) (dst : Bytes)
    → IsIdTable dm
    → id < 2 ^ 64
    → k < 2 ^ 64
    → get_data_cnt dm id ≡ pos 1
    → let (ret, dm') = remove_data dm id in
      (ret ≡ em_success)
      × (get_data dm' k dst ≡ (if id == k then none else get_data dm k dst))
      × (get_data_cnt dm' k ≡ (if id == k then em_error else get_data_cnt dm k))
unfolding remove_data get_data get_data_cnt
remove_data_lem {dm} id k dst i hi hk e =
    let r = remove_data_last dm (key_of id) (key_of k) dst i.valid e in
    let s = same_id id k i hi hk in
    (
      r.0,
      r.3 ∙ ap (λ t. if t then none else Gdatamng.get_data dm (key_of k) dst) s,
      r.4 ∙ ap (λ t. if t then em_error else Gdatamng.get_data_cnt dm (key_of k)) s,
    )

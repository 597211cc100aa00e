-- ===== src/Gdatamng/Valid.antt =====
-- The invariant of `em_datamng_t`, and what the two getters return for a block that holds a key.
use native.Mathlib.Decide.{ℕ_discrete}
use embedded_middle.Prelude.Int.{of_bits}
use embedded_middle.Prelude.{
  ◌^◌, ◌≤◌, lt→ltb, ℕ, ◌<◌, ◌≡◌, ◌≢◌, refl, sym, ◌∙◌, ap, ap₂, subst, inl, inr, ◌↔◌, true, none,
  some, pos, em_error, Bool-cases, arith,
}
use embedded_middle.Bytes.{Bytes, memcpy}
use embedded_middle.Mempool.Valid.{IsUsed}
use embedded_middle.Mempool.Valid
use embedded_middle.Mempool.Blocks.{SamePlace, address}
use embedded_middle.Gdatamng.{
  Datamng, keycmp, get_blockinfo, get_data_ptr, data_of, get_data, copy_out, get_data_cnt, count_of,
}
use embedded_middle.Gdatamng.Find.{
  matches, Holds, Absent, keycmp-sym, keycmp_trans, get_blockinfo_cases,
}

-- The pool is valid, no two blocks in use have equivalent keys, and each counts at least one. The
-- counts and the numbers of the blocks are not negative as an `int`.
pub record IsValid (dm : Datamng) : Type 0 where
  pub pool : Valid.IsValid dm.mp
  pub distinct :
      (i j : ℕ)
      → IsUsed dm.mp i
      → IsUsed dm.mp j
      → keycmp dm.key_type (dm.key i) (dm.key j) dm.key_size ≡ true
      → i ≡ j
  pub counted : (j : ℕ) → IsUsed dm.mp j → 0 < dm.count j
  pub bounded : (j : ℕ) → IsUsed dm.mp j → dm.count j < 2 ^ 31
  pub few : dm.mp.num_max ≤ 2 ^ 31

of_bits_lem : (n : ℕ) → n < 2 ^ 31 → of_bits n ≡ pos n
unfolding of_bits
of_bits_lem n h = rw (lt→ltb n (2 ^ 31) h) refl

pub Holds-unique :
    (dm : Datamng) (key : Bytes) (i j : ℕ) → IsValid dm → Holds dm key i → Holds dm key j → i ≡ j
Holds-unique dm key i j v hi hj = v.distinct i j hi.0 hj.0 (
    keycmp_trans dm.key_type (dm.key i) key (dm.key j) dm.key_size hi.1
      (keycmp-sym dm.key_type (dm.key j) key dm.key_size hj.1))

pub get_blockinfo-Holds :
    (dm : Datamng) (key : Bytes) (j : ℕ)
    → IsValid dm
    → Holds dm key j
    → get_blockinfo dm key ≡ some j
get_blockinfo-Holds dm key j v h = elim (get_blockinfo_cases dm v.pool key) [
  | inl (i, e, hi) ↦ e ∙ ap some (Holds-unique dm key i j v hi h)
  | inr (_, none_match) ↦ cc (none_match j h.0, h.1)
]

pub get_blockinfo-Absent :
    (dm : Datamng) (key : Bytes) → IsValid dm → Absent dm key → get_blockinfo dm key ≡ none
get_blockinfo-Absent dm key v a = elim (get_blockinfo_cases dm v.pool key) [
  | inl (i, _, hi) ↦ cc (a i hi.0, hi.1)
  | inr (e, _) ↦ e
]

-- The bytes that block `j` holds.
abbrev pub stored : Datamng → ℕ → Bytes
stored dm j = dm.mem (address dm.mp j)

pub get_data_ptr-Holds :
    (dm : Datamng) (key : Bytes) (j : ℕ)
    → IsValid dm
    → Holds dm key j
    → get_data_ptr dm key ≡ some (address dm.mp j)
unfolding get_data_ptr
get_data_ptr-Holds dm key j v h =
    rw (get_blockinfo-Holds dm key j v h, data_of) (ap some (v.pool.data_at j h.0.0))

pub unknown-get_data_ptr :
    (dm : Datamng) (key dst : Bytes) → get_data dm key dst ≡ none → get_data_ptr dm key ≡ none
unfolding get_data copy_out
unknown-get_data_ptr dm key dst e = ground (arith, e)

-- `get_data` and `get_data_cnt` return the bytes and the count of the block that holds the key.
pub get_data-Holds :
    (dm : Datamng) (key dst : Bytes) (j : ℕ)
    → IsValid dm
    → Holds dm key j
    → (get_data dm key dst ≡ some (memcpy dst (stored dm j) dm.mp.block_size))
      × (get_data_cnt dm key ≡ pos (dm.count j))
unfolding get_data get_data_ptr get_data_cnt
get_data-Holds dm key dst j v h =
    rw (get_blockinfo-Holds dm key j v h, data_of, copy_out, count_of)
      (
        ap (λ a. some (memcpy dst (dm.mem a) dm.mp.block_size)) (v.pool.data_at j h.0.0),
        ap (λ i. of_bits (dm.count i)) (v.pool.index_self j h.0.0)
            ∙ of_bits_lem (dm.count j) (v.bounded j h.0),
      )

pub get_data-Absent :
    (dm : Datamng) (key dst : Bytes)
    → IsValid dm
    → Absent dm key
    → (get_data dm key dst ≡ none) × (get_data_cnt dm key ≡ em_error)
unfolding get_data get_data_ptr get_data_cnt
get_data-Absent dm key dst v a =
    rw (get_blockinfo-Absent dm key v a, data_of, copy_out, count_of) (refl, refl)

-- Only block `j` differs between two tables.
pub record Frame (dm dm' : Datamng) (j : ℕ) : Type 0 where
  pub place : SamePlace dm.mp dm'.mp
  pub same_type : dm'.key_type ≡ dm.key_type
  pub same_key_size : dm'.key_size ≡ dm.key_size
  pub same_used : (i : ℕ) → i ≢ j → IsUsed dm'.mp i ↔ IsUsed dm.mp i
  pub same_key : (i : ℕ) → i ≢ j → dm'.key i ≡ dm.key i
  pub same_count : (i : ℕ) → i ≢ j → dm'.count i ≡ dm.count i
  pub same_bytes : (i : ℕ) → i ≢ j → i < dm.mp.num_max → stored dm' i ≡ stored dm i

module _ {dm dm' : Datamng} {j : ℕ} (v : IsValid dm) (v' : IsValid dm') (f : Frame dm dm' j) where
  matches-Frame : (key : Bytes) (i : ℕ) → i ≢ j → matches dm' key i ≡ matches dm key i
  matches-Frame key i n = rw (f.same_type, f.same_key_size, f.same_key i n)

  -- What `j` does not hold, before or after, is read as before.
  pub get_data-Frame :
      (key dst : Bytes)
      → ¬ Holds dm key j
      → ¬ Holds dm' key j
      → (get_data dm' key dst ≡ get_data dm key dst) × (get_data_cnt dm' key ≡ get_data_cnt dm key)
  get_data-Frame key dst n n' = elim (get_blockinfo_cases dm v.pool key) [
    | inl (i, _, h) ↦
        (let other : i ≢ j = λ e. n (subst (Holds dm key) e h) in
          let h' : Holds dm' key i =
            ((f.same_used i other).1 h.0, matches-Frame key i other ∙ h.1) in
          let now = get_data-Holds dm' key dst i v' h' in
          let old = get_data-Holds dm key dst i v h in
          (
            now.0
                ∙ ap₂ (λ b n. some (memcpy dst b n)) (f.same_bytes i other h.0.0) f.place.same_size
                ∙ sym old.0,
            now.1 ∙ ap pos (f.same_count i other) ∙ sym old.1,
          ))
    | inr (_, a) ↦
        (let a' : Absent dm' key = λ i u. elim (ℕ_discrete i j) [
          | yes e ↦ elim (Bool-cases (matches dm' key i)) [
            | inl m ↦ absurd (n' (subst (Holds dm' key) e (u, m)))
            | inr m ↦ m
          ]
          | no other ↦ matches-Frame key i other ∙ a i ((f.same_used i other).0 u)
        ] in
          let now = get_data-Absent dm' key dst v' a' in
          let old = get_data-Absent dm key dst v a in (now.0 ∙ sym old.0, now.1 ∙ sym old.1))
  ]

-- ===== src/Gdatamng/Find.antt =====
-- The comparison of keys is an equivalence, and the search of a table finds a block that is in use
-- and has an equivalent key.
use native.Mathlib.Decide.{dec_lt}
use embedded_middle.Prelude.{
  ℕ, zero, suc, ◌+◌, ◌≤◌, ◌<◌, ◌≡◌, refl, ap, ◌∙◌, ◌^◌, lt→ltb, ◌⊎◌, inl, inr, Bool, true, false,
  Option, none, some, ◌==◌, arith, Bool-cases,
}
use embedded_middle.Bytes.{
  Bytes, Agree, memcmp_from, memcmp_refl, memcmp-sym, memcmp_trans, memcmp-Agree, strncmp_refl,
  strncmp-sym, strncmp_trans, strncmp-Agree,
}
use embedded_middle.Mempool.Valid.{IsUsed}
use embedded_middle.Mempool.Valid
use embedded_middle.Gdatamng.{
  Datamng, keycmp, index_at, search_from, as_index, find_dataidx, get_blockinfo,
  em_dmng_key_integer, em_dmng_key_string,
}

pub keycmp_integer : (a b : Bytes) (n : ℕ) → keycmp em_dmng_key_integer a b n ≡ memcmp_from n 0 a b
unfolding keycmp
keycmp_integer a b n = refl

pub keycmp_refl : (t : ℕ) (a : Bytes) (n : ℕ) → keycmp t a a n ≡ true
unfolding keycmp
keycmp_refl t a n = ground (arith, strncmp_refl n 0 a, memcmp_refl n 0 a)

pub keycmp-sym : (t : ℕ) (a b : Bytes) (n : ℕ) → keycmp t a b n ≡ true → keycmp t b a n ≡ true
unfolding keycmp
keycmp-sym t a b n = ground (arith, strncmp-sym n 0 a b, memcmp-sym n 0 a b)

pub keycmp_trans :
    (t : ℕ) (a b c : Bytes) (n : ℕ)
    → keycmp t a b n ≡ true
    → keycmp t b c n ≡ true
    → keycmp t a c n ≡ true
unfolding keycmp
keycmp_trans t a b c n = ground (arith, strncmp_trans n 0 a b c, memcmp_trans n 0 a b c)

pub keycmp-Agree : (t : ℕ) (a b : Bytes) (n : ℕ) → Agree a b n → keycmp t a b n ≡ true
unfolding keycmp
keycmp-Agree t a b n g = elim (Bool-cases (t == em_dmng_key_string)) [
  | inl e ↦ rw e (strncmp-Agree n 0 n a b (omega arith) g)
  | inr e ↦ rw e (memcmp-Agree n 0 n a b (omega arith) g)
]

-- Block `j` is in use under a key that is equivalent to `key`.
abbrev pub matches : Datamng → Bytes → ℕ → Bool
matches dm key j = keycmp dm.key_type (dm.key j) key dm.key_size

abbrev pub Holds : Datamng → Bytes → ℕ → Type 0
Holds dm key j = IsUsed dm.mp j × (matches dm key j ≡ true)

abbrev pub Absent : Datamng → Bytes → Type 0
Absent dm key = (j : ℕ) → IsUsed dm.mp j → matches dm key j ≡ false

module _ (dm : Datamng) (key : Bytes) (result : ℕ → ℕ) where
  -- Where the search stops, if it does.
  abbrev Stops : ℕ → Option ℕ → Type 0
  Stops i r =
      ((p : ℕ) × (r ≡ some (result p))
        × (p < dm.mp.num_used)
        × (matches dm key (index_at dm p) ≡ true))
      ⊎ ((r ≡ none)
          × ((p : ℕ) → i ≤ p → p < dm.mp.num_used → matches dm key (index_at dm p) ≡ false))

  search-Stops :
      (rounds i : ℕ) → i + rounds ≡ dm.mp.num_used → Stops i (search_from dm key result rounds i)
  unfolding search_from
  search-Stops zero i h = inr (refl, λ p a b. absurd (omega arith))
  search-Stops (suc rounds) i h = elim (Bool-cases (matches dm key (index_at dm i))) [
    | inl hit ↦ inl (i, rw hit, omega arith, hit)
    | inr miss ↦ elim (search-Stops rounds (i + 1) (omega arith)) [
      | inl (p, e, a, m) ↦ inl (p, rw miss e, a, m)
      | inr (e, none_after) ↦ inr (
        rw miss e,
        λ p a b. elim (dec_lt i p) [
          | yes q ↦ none_after p (omega arith) b
          | no q ↦ (let same : p ≡ i = omega arith in rw same miss)
        ],
      )
    ]
  ]

  search-ext :
      (other : ℕ → ℕ) (rounds i : ℕ)
      → i + rounds ≡ dm.mp.num_used
      → ((p : ℕ) → p < dm.mp.num_used → result p ≡ other p)
      → search_from dm key result rounds i ≡ search_from dm key other rounds i
  unfolding search_from
  search-ext other zero i h same = refl
  search-ext other (suc rounds) i h same =
      ground (arith, same i, search-ext other rounds (i + 1) (omega arith) same)

module _ (dm : Datamng) (v : Valid.IsValid dm.mp) where
  pub index_at_lem : (p : ℕ) → p < dm.mp.num_used → index_at dm p ≡ dm.mp.block_ptr p
  index_at_lem p h = v.index_self (dm.mp.block_ptr p) (v.ptr_lt p (omega (arith, v.used_le)))

  pub IsUsed-at : (p : ℕ) → p < dm.mp.num_used → IsUsed dm.mp (dm.mp.block_ptr p)
  IsUsed-at p h = omega (arith, v.used_le, v.ptr_lt p, v.idx_of_ptr p)

  search_index :
      (key : Bytes) → search_from dm key (index_at dm) dm.mp.num_used 0 ≡ get_blockinfo dm key
  unfolding get_blockinfo
  search_index key =
      search-ext dm key (index_at dm) dm.mp.block_ptr dm.mp.num_used 0 (omega arith) index_at_lem

  -- The search finds a block in use whose key is equivalent, or there is none.
  pub get_blockinfo_cases :
      (key : Bytes)
      → ((j : ℕ) × (get_blockinfo dm key ≡ some j) × Holds dm key j)
        ⊎ ((get_blockinfo dm key ≡ none) × Absent dm key)
  unfolding get_blockinfo
  get_blockinfo_cases key =
      elim (search-Stops dm key dm.mp.block_ptr dm.mp.num_used 0 (omega arith)) [
        | inl (p, e, a, m) ↦ inl (dm.mp.block_ptr p, e, (IsUsed-at p a, rw (← index_at_lem p a) m))
        | inr (e, none_after) ↦ inr (
          e,
          λ j u.
              rw (← v.ptr_of_idx j u.0, ← index_at_lem (dm.mp.block j).index_ptr u.1)
                (none_after (dm.mp.block j).index_ptr (omega arith) u.1),
        )
      ]

  -- The two searches stop at the same block, where the numbers of the blocks fit in an `int`.
  pub find_dataidx-eq-get_blockinfo :
      dm.mp.num_max ≤ 2 ^ 31 → (key : Bytes) → find_dataidx dm key ≡ get_blockinfo dm key
  unfolding find_dataidx
  find_dataidx-eq-get_blockinfo few key =
      ap as_index (search_index key) ∙ elim (get_blockinfo_cases key) [
        | inl (j, e, h) ↦ rw (e, as_index, lt→ltb j (2 ^ 31) (omega (arith, h.0.0, few))) refl
        | inr (e, _) ↦ rw (e, as_index) refl
      ]

-- ===== src/Gdatamng/Changed.antt =====
-- `em_gdatamng_add_data` with a key that the table has already, in each duplicate mode.
use native.Mathlib.Nat.{mod-eq_of_lt}
use embedded_middle.Prelude.{
  ◌^◌, ◌<◌, u32_mod, ℕ, ◌+◌, ◌≡◌, ◌≢◌, refl, sym, ◌∙◌, ap, inl, inr, true, false, some, pos,
  em_success, em_error, if◌then◌else◌, arith, Bool-cases, update, update_self, update_ne,
}
use embedded_middle.Bytes.{Bytes, memcpy-memcpy, memcpy}
use embedded_middle.Mempool.Blocks.{address, get_dataptr_lem}
use embedded_middle.Gdatamng.{
  Datamng, keycmp, add_data, add_found, add_existing, get_data, get_data_cnt, em_dmng_dplct_update,
  em_dmng_dplct_countup,
}
use embedded_middle.Gdatamng.Find.{
  Holds, keycmp-sym, keycmp_trans, get_blockinfo_cases, find_dataidx-eq-get_blockinfo,
}
use embedded_middle.Gdatamng.Added.{address-ne}
use embedded_middle.Gdatamng.Valid.{
  IsValid, Frame, stored, get_blockinfo-Holds, get_data-Holds, get_data-Absent, get_data-Frame,
}

-- Whether a key is there shows in its count.
pub Holds-of_count :
    (dm : Datamng) (key : Bytes) (c : ℕ)
    → IsValid dm
    → get_data_cnt dm key ≡ pos c
    → (j : ℕ) × Holds dm key j × (dm.count j ≡ c)
Holds-of_count dm key c v e = elim (get_blockinfo_cases dm v.pool key) [
  | inl (j, _, h) ↦ (j, h, cc (e, (get_data-Holds dm key (dm.key 0) j v h).1))
  | inr (_, a) ↦ cc (e, (get_data-Absent dm key (dm.key 0) v a).1)
]

add_data-existing :
    (dm : Datamng) (key bytes : Bytes) (j : ℕ)
    → IsValid dm
    → Holds dm key j
    → add_data dm key bytes ≡ add_existing dm j bytes
unfolding add_data
add_data-existing dm key bytes j v h =
    rw (
      find_dataidx-eq-get_blockinfo dm v.pool v.few key,
      get_blockinfo-Holds dm key j v h,
      add_found,
    )

-- In a mode that is neither update nor count-up the call fails and changes nothing.
pub add_data_duplicate :
    (dm : Datamng) (key bytes : Bytes) (c : ℕ)
    → IsValid dm
    → get_data_cnt dm key ≡ pos c
    → dm.duplicate_mode ≢ em_dmng_dplct_update
    → dm.duplicate_mode ≢ em_dmng_dplct_countup
    → add_data dm key bytes ≡ (em_error, dm)
unfolding add_existing
add_data_duplicate dm key bytes c v e n m =
    let (j, h, _) = Holds-of_count dm key c v e in
    add_data-existing dm key bytes j v h ∙ ground arith

-- Keys that are equivalent to a key of block `j` are held by `j`, and no others.
pub Holds-equiv :
    (dm : Datamng) (key k : Bytes) (j : ℕ)
    → Holds dm key j
    → keycmp dm.key_type key k dm.key_size ≡ true
    → Holds dm k j
Holds-equiv dm key k j h e = (h.0, keycmp_trans dm.key_type (dm.key j) key k dm.key_size h.1 e)

pub not-Holds :
    (dm : Datamng) (key k : Bytes) (j : ℕ)
    → Holds dm key j
    → keycmp dm.key_type key k dm.key_size ≡ false
    → ¬ Holds dm k j
not-Holds dm key k j h e h' = cc (
  e,
  keycmp_trans dm.key_type key (dm.key j) k dm.key_size
      (keycmp-sym dm.key_type (dm.key j) key dm.key_size h.1) h'.1,
)

module _ (dm : Datamng) (key : Bytes) (j : ℕ) (v : IsValid dm) (h : Holds dm key j) where
  abbrev counted_up : Datamng
  counted_up = record dm { count = update dm.count j (dm.count j + 1) }

  counted_up-IsValid : dm.count j + 1 < 2 ^ 31 → IsValid counted_up
  counted_up-IsValid less = record {
    pool = v.pool;
    distinct = v.distinct;
    counted = λ i u. ground (arith, v.counted i);
    bounded = λ i u. ground (arith, v.bounded i);
    few = v.few;
  }

  counted_up-Frame : Frame dm counted_up j
  counted_up-Frame = record {
    place = record { same_size = refl; same_max = refl; same_raw = refl };
    same_type = refl;
    same_key_size = refl;
    same_used = λ i n. (λ u. u, λ u. u);
    same_key = λ i n. refl;
    same_count = λ i n. update_ne dm.count j i _ n;
    same_bytes = λ i n b. refl;
  }

  abbrev overwritten : Bytes → Datamng
  overwritten bytes = record dm {
    mem = update dm.mem (address dm.mp j) (memcpy (stored dm j) bytes dm.mp.block_size);
  }

  overwritten-IsValid : (bytes : Bytes) → IsValid (overwritten bytes)
  overwritten-IsValid bytes = record {
    pool = v.pool;
    distinct = v.distinct;
    counted = v.counted;
    bounded = v.bounded;
    few = v.few;
  }

  overwritten-Frame : (bytes : Bytes) → Frame dm (overwritten bytes) j
  overwritten-Frame bytes = record {
    place = record { same_size = refl; same_max = refl; same_raw = refl };
    same_type = refl;
    same_key_size = refl;
    same_used = λ i n. (λ u. u, λ u. u);
    same_key = λ i n. refl;
    same_count = λ i n. refl;
    same_bytes = λ i n b. update_ne dm.mem _ _ _ (address-ne dm.mp i j v.pool n);
  }

  add_existing-update :
      (bytes : Bytes)
      → dm.duplicate_mode ≡ em_dmng_dplct_update
      → add_existing dm j bytes ≡ (em_success, overwritten bytes)
  unfolding add_existing
  add_existing-update bytes m = elim (get_dataptr_lem j v.pool) [
    | inl (_, e) ↦ rw (m, e) (ground arith)
    | inr (n, _) ↦ absurd (n h.0)
  ]

  add_existing-countup :
      (bytes : Bytes)
      → dm.duplicate_mode ≡ em_dmng_dplct_countup
      → dm.count j + 1 < 2 ^ 31
      → add_existing dm j bytes ≡ (em_success, counted_up)
  unfolding add_existing
  add_existing-countup bytes m less =
      rw (m, mod-eq_of_lt {n = dm.count j + 1} {m = u32_mod} (omega (arith, less))) refl

-- In update mode the call succeeds: every equivalent key then reads the new data, every other key
-- what it read before, no count changes, and the table stays valid.
pub add_data_update :
    (dm : Datamng) (key bytes k dst : Bytes) (c : ℕ)
    → IsValid dm
    → get_data_cnt dm key ≡ pos c
    → dm.duplicate_mode ≡ em_dmng_dplct_update
    → let (ret, dm') = add_data dm key bytes in
      (ret ≡ em_success)
      × IsValid dm'
      × (get_data dm' k dst ≡ (
          if keycmp dm.key_type key k dm.key_size
          then some (memcpy dst bytes dm.mp.block_size)
          else get_data dm k dst))
      × (get_data_cnt dm' k ≡ get_data_cnt dm k)
add_data_update dm key bytes k dst c v e m =
    let (j, h, _) = Holds-of_count dm key c v e in
    let v' = overwritten-IsValid dm key j v h bytes in
    rw (add_data-existing dm key bytes j v h, add_existing-update dm key j v h bytes m)
      (elim (Bool-cases (keycmp dm.key_type key k dm.key_size)) [
        | inl same ↦
            let hk = Holds-equiv dm key k j h same in
            let now = get_data-Holds (overwritten dm key j v h bytes) k dst j v' hk in
            rw same (
              refl,
              v',
              now.0
                  ∙ ap some (
                      ap (λ b. memcpy dst b dm.mp.block_size)
                        (update_self dm.mem (address dm.mp j) _)
                      ∙ memcpy-memcpy dst (stored dm j) bytes dm.mp.block_size),
              now.1 ∙ sym (get_data-Holds dm k dst j v hk).1,
            )
        | inr other ↦
            let n = not-Holds dm key k j h other in
            let r = get_data-Frame v v' (overwritten-Frame dm key j v h bytes) k dst n n in
            rw other (refl, v', r.0, r.1)
      ])

-- In count-up mode and with a count that can still go up, the call succeeds: the count of every equivalent key goes up by one, every other
-- count and all data stay as they were, and the table stays valid.
pub add_data_countup :
    (dm : Datamng) (key bytes k dst : Bytes) (c : ℕ)
    → IsValid dm
    → get_data_cnt dm key ≡ pos c
    → dm.duplicate_mode ≡ em_dmng_dplct_countup
    → c + 1 < 2 ^ 31
    → let (ret, dm') = add_data dm key bytes in
      (ret ≡ em_success)
      × IsValid dm'
      × (get_data dm' k dst ≡ get_data dm k dst)
      × (get_data_cnt dm' k
          ≡ (if keycmp dm.key_type key k dm.key_size then pos (c + 1) else get_data_cnt dm k))
add_data_countup dm key bytes k dst c v e m less =
    let (j, h, count) = Holds-of_count dm key c v e in
    let less_j : dm.count j + 1 < 2 ^ 31 = omega (arith, count, less) in
    let v' = counted_up-IsValid dm key j v h less_j in
    rw (add_data-existing dm key bytes j v h, add_existing-countup dm key j v h bytes m less_j)
      (elim (Bool-cases (keycmp dm.key_type key k dm.key_size)) [
        | inl same ↦
            let hk = Holds-equiv dm key k j h same in
            let now = get_data-Holds (counted_up dm key j v h) k dst j v' hk in
            rw same (
              refl,
              v',
              now.0 ∙ sym (get_data-Holds dm k dst j v hk).0,
              now.1 ∙ ap pos (update_self dm.count j _ ∙ ap (λ n. n + 1) count),
            )
        | inr other ↦
            let n = not-Holds dm key k j h other in
            let r = get_data-Frame v v' (counted_up-Frame dm key j v h) k dst n n in
            rw other (refl, v', r.0, r.1)
      ])

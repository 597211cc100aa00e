-- ===== src/Gdatamng/Removed.antt =====
-- `em_gdatamng_remove_data`, on every branch.
use embedded_middle.Oalloc.Count.{sub32_lem, leb_int_lem}
use embedded_middle.Prelude.{
  sub32, ℕ, ◌+◌, ◌-◌, ◌<◌, ◌≡◌, refl, sym, ◌∙◌, ap, inl, inr, true, none, pos, em_success, em_error,
  if◌then◌else◌, arith, Bool-cases, lt→leb, le→leb, update, update_self, update_ne,
}
use embedded_middle.Bytes.{Bytes}
use embedded_middle.Mempool.{Mpool, free_block_by_dataidx}
use embedded_middle.Mempool.Blocks.{free_block_by_dataidx_lem, Returns}
use embedded_middle.Gdatamng.{Datamng, keycmp, remove_data, remove_found, get_data, get_data_cnt}
use embedded_middle.Gdatamng.Find.{matches, Holds, Absent, get_blockinfo_cases}
use embedded_middle.Gdatamng.Changed.{Holds-of_count, Holds-equiv, not-Holds}
use embedded_middle.Gdatamng.Valid.{
  IsValid, Frame, Holds-unique, get_blockinfo-Holds, get_data-Holds, get_data-Absent,
  get_data-Frame,
}

-- A key that the table does not have is refused, and nothing changes.
pub remove_data_absent :
    (dm : Datamng) (key : Bytes)
    → IsValid dm
    → get_data_cnt dm key ≡ em_error
    → remove_data dm key ≡ (em_error, dm)
unfolding remove_data
remove_data_absent dm key v e = elim (get_blockinfo_cases dm v.pool key) [
  | inl (j, _, h) ↦ cc (e, (get_data-Holds dm key (dm.key 0) j v h).1)
  | inr (r, _) ↦ rw (r, remove_found)
]

module _ (dm : Datamng) (key : Bytes) (j : ℕ) (v : IsValid dm) (h : Holds dm key j) where
  abbrev lowered : Datamng
  lowered = record dm { count = update dm.count j (dm.count j - 1) }

  one_lower : sub32 (dm.count j) 1 ≡ dm.count j - 1
  one_lower = sub32_lem (dm.count j) 1 (omega (arith, v.counted j h.0)) (v.bounded j h.0)

  lowered-IsValid : 1 < dm.count j → IsValid lowered
  lowered-IsValid more = record {
    pool = v.pool;
    distinct = v.distinct;
    counted = λ i u. ground (arith, v.counted i);
    bounded = λ i u. ground (arith, v.bounded i);
    few = v.few;
  }

  lowered-Frame : Frame dm lowered j
  lowered-Frame = record {
    place = record { same_size = refl; same_max = refl; same_raw = refl };
    same_type = refl;
    same_key_size = refl;
    same_used = λ i n. (λ u. u, λ u. u);
    same_key = λ i n. refl;
    same_count = λ i n. update_ne dm.count j i _ n;
    same_bytes = λ i n b. refl;
  }

  remove_data-lowered : 1 < dm.count j → remove_data dm key ≡ (em_success, lowered)
  unfolding remove_data
  remove_data-lowered more = rw (
    get_blockinfo-Holds dm key j v h,
    remove_found,
    v.pool.index_self j h.0.0,
    one_lower,
    leb_int_lem (dm.count j - 1) 0 (omega (arith, v.bounded j h.0)) (omega arith),
    lt→leb (dm.count j - 1) 0 (omega arith),
  )

module _ (dm : Datamng) (key : Bytes) (j : ℕ) (v : IsValid dm) (h : Holds dm key j) (mp' : Mpool)
    (r : Returns dm.mp mp' j) where
  abbrev freed : Datamng
  freed = record dm { count = update dm.count j (dm.count j - 1); mp = mp' }

  freed-Frame : Frame dm freed j
  freed-Frame = record {
    place = r.place;
    same_type = refl;
    same_key_size = refl;
    same_used = λ i n. (λ u. ((r.still_used i).0 u).0, λ u. (r.still_used i).1 (u, n));
    same_key = λ i n. refl;
    same_count = λ i n. update_ne dm.count j i _ n;
    same_bytes = λ i n b. ap dm.mem (ground (arith, r.place));
  }

  freed-IsValid : IsValid freed
  freed-IsValid = record {
    pool = r.valid;
    distinct = λ i l ui ul e. v.distinct i l ((r.still_used i).0 ui).0 ((r.still_used l).0 ul).0 e;
    counted = λ i u. ground (arith, v.counted i ((r.still_used i).0 u).0, ((r.still_used i).0 u).1);
    bounded = λ i u. ground (arith, v.bounded i ((r.still_used i).0 u).0);
    few = omega (arith, r.place.same_max, v.few);
  }

  freed-none : (k : Bytes) → keycmp dm.key_type key k dm.key_size ≡ true → Absent freed k
  freed-none k same i u = elim (Bool-cases (matches dm k i)) [
    | inl m ↦ absurd (
        ((r.still_used i).0 u).1
          (Holds-unique dm k i j v (((r.still_used i).0 u).0, m) (Holds-equiv dm key k j h same)))
    | inr m ↦ m
  ]

  remove_data-freed :
      dm.count j ≡ 1
      → free_block_by_dataidx dm.mp j ≡ (em_success, mp')
      → remove_data dm key ≡ (em_success, freed)
  unfolding remove_data
  remove_data-freed one e = rw (
    get_blockinfo-Holds dm key j v h,
    remove_found,
    v.pool.index_self j h.0.0,
    one_lower dm key j v h,
    leb_int_lem (dm.count j - 1) 0 (omega (arith, one)) (omega arith),
    le→leb (dm.count j - 1) 0 (omega arith),
    e,
  )

-- A key that was added more than once stays: its count, read by any equivalent key, goes down by
-- one, every other count and all data stay as they were, and the table stays valid.
pub remove_data_lower :
    (dm : Datamng) (key k dst : Bytes) (c : ℕ)
    → IsValid dm
    → get_data_cnt dm key ≡ pos c
    → 1 < c
    → let (ret, dm') = remove_data dm key in
      (ret ≡ em_success)
      × IsValid dm'
      × (get_data dm' k dst ≡ get_data dm k dst)
      × (get_data_cnt dm' k
          ≡ (if keycmp dm.key_type key k dm.key_size then pos (c - 1) else get_data_cnt dm k))
remove_data_lower dm key k dst c v e more =
    let (j, h, count) = Holds-of_count dm key c v e in
    let many : 1 < dm.count j = omega arith in
    let v' = lowered-IsValid dm key j v h many in
    rw (remove_data-lowered dm key j v h many)
      (elim (Bool-cases (keycmp dm.key_type key k dm.key_size)) [
        | inl same ↦
            let hk = Holds-equiv dm key k j h same in
            let now = get_data-Holds (lowered dm key j v h) k dst j v' hk in
            rw same (
              refl,
              v',
              now.0 ∙ sym (get_data-Holds dm k dst j v hk).0,
              now.1 ∙ ap pos (update_self dm.count j _ ∙ ap (λ n. n - 1) count),
            )
        | inr other ↦
            let n = not-Holds dm key k j h other in
            let r = get_data-Frame v v' (lowered-Frame dm key j v h) k dst n n in
            rw other (refl, v', r.0, r.1)
      ])

-- A key that was added once goes: no equivalent key is found any more, every other key reads what it
-- read before, one block of the pool is free again, and the table stays valid.
pub remove_data_last :
    (dm : Datamng) (key k dst : Bytes)
    → IsValid dm
    → get_data_cnt dm key ≡ pos 1
    → let (ret, dm') = remove_data dm key in
      (ret ≡ em_success)
      × IsValid dm'
      × (dm'.mp.num_used + 1 ≡ dm.mp.num_used)
      × (get_data dm' k dst
          ≡ (if keycmp dm.key_type key k dm.key_size then none else get_data dm k dst))
      × (get_data_cnt dm' k
          ≡ (if keycmp dm.key_type key k dm.key_size then em_error else get_data_cnt dm k))
remove_data_last dm key k dst v e =
    let (j, h, one) = Holds-of_count dm key 1 v e in
    elim (free_block_by_dataidx_lem j v.pool) [
      | inr (n, _) ↦ absurd (n h.0)
      | inl (mp', f, r) ↦
          (let v' = freed-IsValid dm key j v h mp' r in
            rw (remove_data-freed dm key j v h mp' r one f)
              (elim (Bool-cases (keycmp dm.key_type key k dm.key_size)) [
                | inl same ↦
                    let now =
                      get_data-Absent (freed dm key j v h mp' r) k dst v'
                        (freed-none dm key j v h mp' r k same) in
                    rw same (refl, v', r.one_less, now.0, now.1)
                | inr other ↦
                    let n = not-Holds dm key k j h other in
                    let gone : ¬ Holds (freed dm key j v h mp' r) k j =
                      λ hh. ((r.still_used j).0 hh.0).1 refl in
                    let s = get_data-Frame v v' (freed-Frame dm key j v h mp' r) k dst n gone in
                    rw other (refl, v', r.one_less, s.0, s.1)
              ]))
    ]

-- ===== src/Gdatamng/Added.antt =====
-- `em_gdatamng_add_data` with a key that the table does not have.
use native.Mathlib.Decide.{ℕ_discrete}
use embedded_middle.Prelude.{
  ℕ, ◌+◌, ◌<◌, ◌≡◌, ◌≢◌, refl, sym, ◌∙◌, ap, inl, inr, true, none, some, pos, em_success, em_error,
  if◌then◌else◌, arith, Bool-cases, mul-ne, update, update_self, update_ne,
}
use embedded_middle.Bytes.{Bytes, memcpy-memcpy, memcpy, memcpy-Agree}
use embedded_middle.Mempool.{Mpool, try_alloc_block, get_dataidx}
use embedded_middle.Mempool.Valid.{IsUsed}
use embedded_middle.Mempool.Valid
use embedded_middle.Mempool.Blocks.{Takes, address, try_alloc_block_lem, get_dataidx-address}
use embedded_middle.Gdatamng.{Datamng, keycmp, add_data, add_found, add_new, get_data, get_data_cnt}
use embedded_middle.Gdatamng.Find.{
  Holds, Absent, keycmp-sym, keycmp_trans, keycmp-Agree, get_blockinfo_cases,
  find_dataidx-eq-get_blockinfo,
}
use embedded_middle.Gdatamng.Valid.{
  IsValid, Frame, stored, get_blockinfo-Absent, get_data-Holds, get_data-Frame,
}

pub address-ne : (mp : Mpool) (i j : ℕ) → Valid.IsValid mp → i ≢ j → address mp i ≢ address mp j
address-ne mp i j v n e = mul-ne mp.block_size i j v.size_pos n (omega arith)

-- The table after data has been put in a block that the pool gave.
abbrev added : Datamng → Mpool → ℕ → Bytes → Bytes → Datamng
added dm mp' j key bytes = record dm {
  mp = mp';
  key = update dm.key j (memcpy (dm.key j) key dm.key_size);
  count = update dm.count j 1;
  mem = update dm.mem (address dm.mp j) (memcpy (dm.mem (address dm.mp j)) bytes mp'.block_size);
}

module _ (dm : Datamng) (key bytes : Bytes) (v : IsValid dm) (mp' : Mpool) (j : ℕ)
    (t : Takes dm.mp mp' j) where
  dm' : Datamng
  dm' = added dm mp' j key bytes

  same_address : (i : ℕ) → address mp' i ≡ address dm.mp i
  same_address i = ground (arith, t.place)

  new_key : keycmp dm.key_type (memcpy (dm.key j) key dm.key_size) key dm.key_size ≡ true
  new_key = keycmp-Agree dm.key_type _ key dm.key_size (memcpy-Agree (dm.key j) key dm.key_size)

  added-Frame : Frame dm dm' j
  unfolding dm'
  added-Frame = record {
    place = t.place;
    same_type = refl;
    same_key_size = refl;
    same_used = λ i n. (
      λ u. elim ((t.now_used i).0 u) [ inl w ↦ w | inr e ↦ absurd (n e) ],
      λ u. (t.now_used i).1 (inl u),
    );
    same_key = λ i n. update_ne dm.key j i _ n;
    same_count = λ i n. update_ne dm.count j i 1 n;
    same_bytes =
        λ i n h. rw (same_address i) (update_ne dm.mem _ _ _ (address-ne dm.mp i j v.pool n));
  }

  added-Holds : (k : Bytes) → keycmp dm.key_type key k dm.key_size ≡ true → Holds dm' k j
  unfolding dm'
  added-Holds k e = (
    (t.now_used j).1 (inr refl),
    ground (
      arith,
      new_key,
      keycmp_trans dm.key_type (memcpy (dm.key j) key dm.key_size) key k dm.key_size,
    ),
  )

  -- No older block has a key that is equivalent to the new one.
  clash :
      Absent dm key
      → (l : ℕ) → l ≢ j
      → IsUsed dm'.mp l
      → keycmp dm.key_type (dm.key l) (memcpy (dm.key j) key dm.key_size) dm.key_size ≡ true
      → ⊥
  clash a l n u e =
      let old : IsUsed dm.mp l = (added-Frame.same_used l n).0 u in
      cc (
        a l old,
        keycmp_trans dm.key_type (dm.key l) (memcpy (dm.key j) key dm.key_size) key dm.key_size e
            new_key,
      )

  added-IsValid : Absent dm key → IsValid dm'
  unfolding dm'
  added-IsValid a = record {
    pool = t.valid;
    distinct = λ i l ui ul e. elim (ℕ_discrete i j) [
      | yes p ↦ elim (ℕ_discrete l j) [
        | yes q ↦ p ∙ sym q
        | no q ↦ absurd (
            clash a l q ul (
              keycmp-sym dm.key_type (memcpy (dm.key j) key dm.key_size) (dm.key l) dm.key_size
                (ground arith)))
      ]
      | no p ↦ elim (ℕ_discrete l j) [
        | yes q ↦ absurd (clash a i p ui (ground arith))
        | no q ↦
            v.distinct i l ((added-Frame.same_used i p).0 ui) ((added-Frame.same_used l q).0 ul)
              (ground arith)
      ]
    ];
    counted = λ i u. elim (ℕ_discrete i j) [
      | yes p ↦ ground arith
      | no p ↦ ground (arith, v.counted i ((added-Frame.same_used i p).0 u))
    ];
    bounded = λ i u. elim (ℕ_discrete i j) [
      | yes p ↦ ground arith
      | no p ↦ ground (arith, v.bounded i ((added-Frame.same_used i p).0 u))
    ];
    few = omega (arith, t.place.same_max, v.few);
  }

  copied :
      (dst : Bytes)
      → memcpy dst (stored dm' j) dm'.mp.block_size ≡ memcpy dst bytes dm.mp.block_size
  unfolding dm'
  copied dst =
      let w : Bytes = memcpy (dm.mem (address dm.mp j)) bytes mp'.block_size in
      ap (λ a. memcpy dst (update dm.mem (address dm.mp j) w a) mp'.block_size) (same_address j)
      ∙ ap (λ b. memcpy dst b mp'.block_size) (update_self dm.mem (address dm.mp j) w)
      ∙ memcpy-memcpy dst (dm.mem (address dm.mp j)) bytes mp'.block_size
      ∙ ap (memcpy dst bytes) t.place.same_size

  Holds-key :
      (k : Bytes)
      → Holds dm' k j
      → keycmp dm.key_type (memcpy (dm.key j) key dm.key_size) k dm.key_size ≡ true
  unfolding dm'
  Holds-key k h = ground (arith, h.1)

  -- Every key reads the new data if it is equivalent to the new one, and what it read before if not.
  added-reads :
      Absent dm key
      → (k dst : Bytes)
      → (get_data dm' k dst ≡ (
          if keycmp dm.key_type key k dm.key_size
          then some (memcpy dst bytes dm.mp.block_size)
          else get_data dm k dst))
        × (get_data_cnt dm' k
            ≡ (if keycmp dm.key_type key k dm.key_size then pos 1 else get_data_cnt dm k))
  unfolding dm'
  added-reads a k dst = elim (Bool-cases (keycmp dm.key_type key k dm.key_size)) [
    | inl e ↦ rw e (
        let r = get_data-Holds dm' k dst j (added-IsValid a) (added-Holds k e) in
        (r.0 ∙ ap some (copied dst), r.1 ∙ ap pos (update_self dm.count j 1)))
    | inr e ↦ rw e (
        get_data-Frame v (added-IsValid a) added-Frame k dst (λ h. t.was_free h.0)
          (λ h. cc (
            e,
            keycmp_trans dm.key_type key (memcpy (dm.key j) key dm.key_size) k dm.key_size
                (keycmp-sym dm.key_type (memcpy (dm.key j) key dm.key_size) key dm.key_size new_key)
                (Holds-key k h),
          )))
  ]

  add_new-added : add_new dm key bytes (some (address dm.mp j), mp') ≡ (em_success, dm')
  unfolding add_new dm'
  add_new-added =
      let here : get_dataidx mp' (address dm.mp j) ≡ j =
        ap (get_dataidx mp') (sym (same_address j))
        ∙ get_dataidx-address j t.valid (omega (arith, t.in_pool, t.place.same_max)) in
      rw here refl

add_data-Absent :
    (dm : Datamng) (key bytes : Bytes)
    → IsValid dm
    → Absent dm key
    → add_data dm key bytes ≡ add_new dm key bytes (try_alloc_block dm.mp)
unfolding add_data
add_data-Absent dm key bytes v a =
    rw (
      find_dataidx-eq-get_blockinfo dm v.pool v.few key,
      get_blockinfo-Absent dm key v a,
      add_found,
    )

Absent-of_none :
    (dm : Datamng) (key dst : Bytes) → IsValid dm → get_data dm key dst ≡ none → Absent dm key
Absent-of_none dm key dst v e = elim (get_blockinfo_cases dm v.pool key) [
  | inl (j, _, h) ↦ cc (e, (get_data-Holds dm key dst j v h).0)
  | inr (_, a) ↦ a
]

-- The table keeps the size of its data and the form of its keys, and has one block more in use.
pub add_data-shape :
    (dm : Datamng) (key bytes dst : Bytes)
    → IsValid dm
    → get_data dm key dst ≡ none
    → dm.mp.num_used < dm.mp.num_max
    → let dm' = (add_data dm key bytes).1 in
      (dm'.mp.block_size ≡ dm.mp.block_size)
      × (dm'.key_type ≡ dm.key_type)
      × (dm'.key_size ≡ dm.key_size)
      × (dm'.mp.num_used ≡ dm.mp.num_used + 1)
      × (dm'.mp.num_max ≡ dm.mp.num_max)
unfolding dm'
add_data-shape dm key bytes dst v e room =
    let a = Absent-of_none dm key dst v e in
    elim (try_alloc_block_lem v.pool) [
      | inl (j, mp', r, t) ↦
          rw (add_data-Absent dm key bytes v a, r, add_new-added dm key bytes v mp' j t)
            (t.place.same_size, refl, refl, t.one_more, t.place.same_max)
      | inr (full, r) ↦ absurd (omega arith)
    ]

-- `em_gdatamng_add_data` with a key that the table does not have, and room in the pool: it succeeds,
-- every equivalent key then reads the data with the count 1, every other key reads what it read
-- before, and the table stays valid.
pub add_data_new :
    (dm : Datamng) (key bytes k dst : Bytes)
    → IsValid dm
    → get_data dm key dst ≡ none
    → dm.mp.num_used < dm.mp.num_max
    → let (ret, dm') = add_data dm key bytes in
      (ret ≡ em_success)
      × IsValid dm'
      × (get_data dm' k dst ≡ (
          if keycmp dm.key_type key k dm.key_size
          then some (memcpy dst bytes dm.mp.block_size)
          else get_data dm k dst))
      × (get_data_cnt dm' k
          ≡ (if keycmp dm.key_type key k dm.key_size then pos 1 else get_data_cnt dm k))
add_data_new dm key bytes k dst v e room =
    let a = Absent-of_none dm key dst v e in
    elim (try_alloc_block_lem v.pool) [
      | inl (j, mp', r, t) ↦
          rw (add_data-Absent dm key bytes v a, r, add_new-added dm key bytes v mp' j t)
            (
              refl,
              added-IsValid dm key bytes v mp' j t a,
              (added-reads dm key bytes v mp' j t a k dst).0,
              (added-reads dm key bytes v mp' j t a k dst).1,
            )
      | inr (full, _) ↦ absurd (omega arith)
    ]

-- With a key that the table does not have and a full pool it fails and changes nothing.
pub add_data_full :
    (dm : Datamng) (key bytes dst : Bytes)
    → IsValid dm
    → get_data dm key dst ≡ none
    → dm.mp.num_used ≡ dm.mp.num_max
    → add_data dm key bytes ≡ (em_error, dm)
unfolding add_new
add_data_full dm key bytes dst v e full =
    let a = Absent-of_none dm key dst v e in
    elim (try_alloc_block_lem v.pool) [
      | inl (j, mp', r, t) ↦ absurd (omega (arith, t.one_more, t.valid.used_le, t.place.same_max))
      | inr (_, r) ↦ rw (add_data-Absent dm key bytes v a, r, add_new)
    ]

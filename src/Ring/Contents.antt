-- ===== src/Ring/Contents.antt =====
-- A valid ring holds a queue of values, oldest first; what the calls do to that queue.
use native.Mathlib.Decide.{dec_lt, dec_le}
use embedded_middle.Prelude.{
  ℕ, suc, ◌+◌, ◌-◌, ◌%◌, ◌≤◌, ◌<◌, ◌≡◌, ◌≢◌, ◌⊎◌, inl, inr, refl, ap, sym, ◌∙◌, arith, add32,
  update, update_same, mod_lem, mod-ne, List, [], ◌∷◌, ◌++◌, none, some, lt→leb, le→leb, eq→==,
  ne→==, subst, mul-ne, update_ne, update_self, ap₂, ℤ, em_success, em_error, leb, ◌==◌,
  if◌then◌else◌, length, slice, length-slice, slice-snoc, slice-ext, slice-shift, drop-slice, drop,
}
use embedded_middle.Ring.{
  Ring, delete_taildata, get_dataptr_new, add_newdata, register, produce, em_ringbuf_error,
  em_ringbuf_update,
}
use embedded_middle.Ring.Valid.{IsValid, add_newdata-IsValid, delete_taildata-IsValid}

-- The `k`-th oldest value.
abbrev pub nth {ℓ} : {V : Type ℓ} → Ring → (ℕ → V) → ℕ → V
nth rb mem k = mem (rb.block_ptr ((rb.tail_ptr + k) % rb.num_max))

abbrev pub contents {ℓ} : {V : Type ℓ} → Ring → (ℕ → V) → List V
contents rb mem = slice (nth rb mem) 0 rb.num_used

-- A bounded queue that refuses a value when it is full, or drops its oldest.
pub push {ℓ} : {V : Type ℓ} → ℕ → ℕ → List V → V → ℤ × List V
push mode cap q x =
    if leb cap (length q)
    then (if mode == em_ringbuf_error then (em_error, q) else (em_success, drop 1 q ++ (x ∷ [])))
    else (em_success, q ++ (x ∷ []))

block-ne :
    {rb : Ring} (i j : ℕ)
    → IsValid rb
    → i < rb.num_max
    → j < rb.num_max
    → i ≢ j
    → rb.block_ptr i ≢ rb.block_ptr j
block-ne {rb} i j v hi hj n e =
    ground (arith, v.block_at i, v.block_at j, mul-ne rb.block_size i j, v.size_pos)

-- The ring after a block has been registered, and after `n` have been given up.
abbrev pub added : Ring → Ring
added rb = record rb {
  num_used = add32 rb.num_used 1;
  head_ptr =
      if leb rb.num_max (add32 rb.head_ptr 1)
      then add32 rb.head_ptr 1 % rb.num_max
      else add32 rb.head_ptr 1;
}

abbrev pub deleted : Ring → ℕ → Ring
deleted rb n = record rb {
  num_used = rb.num_used - n;
  tail_ptr =
      if leb rb.num_max (add32 rb.tail_ptr n)
      then add32 rb.tail_ptr n % rb.num_max
      else add32 rb.tail_ptr n;
}

pub add_newdata-room :
    (rb : Ring) → rb.num_used < rb.num_max → add_newdata rb ≡ (em_success, added rb)
unfolding add_newdata
add_newdata-room rb h = ground arith

pub delete_taildata-room :
    (rb : Ring) (n : ℕ)
    → n ≢ 0
    → n ≤ rb.num_used
    → delete_taildata rb n ≡ (em_success, deleted rb n)
unfolding delete_taildata
delete_taildata-room rb n h k = ground arith

delete_taildata-refused :
    (rb : Ring) (n : ℕ) → (n ≡ 0) ⊎ (rb.num_used < n) → delete_taildata rb n ≡ (em_error, rb)
unfolding delete_taildata
delete_taildata-refused rb n h = ground arith

module _ {ℓ} {V : Type ℓ} (mem : ℕ → V) {rb : Ring} (v : IsValid rb) where
  pub block-ne_head :
      (k : ℕ)
      → rb.num_used < rb.num_max
      → k < rb.num_used
      → rb.block_ptr ((rb.tail_ptr + k) % rb.num_max) ≢ rb.block_ptr rb.head_ptr
  block-ne_head k h hk =
      block-ne _ _ v (ground (arith, mod_lem (rb.tail_ptr + k) rb.num_max, v.tail_lt, v.used_le))
        (ground
          (arith, mod_lem (rb.tail_ptr + rb.num_used) rb.num_max, v.head_at, v.tail_lt, v.used_le))
        (rw v.head_at (mod-ne _ _ _ _ v.tail_lt hk h))

  nth-update :
      (x : V) (k : ℕ)
      → rb.num_used < rb.num_max
      → k < rb.num_used
      → nth rb (update mem (rb.block_ptr rb.head_ptr) x) k ≡ nth rb mem k
  nth-update x k h hk =
      update_ne mem (rb.block_ptr rb.head_ptr) (rb.block_ptr ((rb.tail_ptr + k) % rb.num_max)) x
        (block-ne_head k h hk)

  nth-head : (x : V) → nth rb (update mem (rb.block_ptr rb.head_ptr) x) (0 + rb.num_used) ≡ x
  nth-head x =
      ap (λ i. update mem (rb.block_ptr rb.head_ptr) x (rb.block_ptr i))
        (ap (λ k. (rb.tail_ptr + k) % rb.num_max) {x = 0 + rb.num_used} {y = rb.num_used}
            (omega arith)
          ∙ sym v.head_at)
      ∙ update_self mem (rb.block_ptr rb.head_ptr) x

  -- Registering the block at the head, after writing to it, puts the value at the end.
  added-contents :
      (x : V)
      → rb.num_used < rb.num_max
      → contents (added rb) (update mem (rb.block_ptr rb.head_ptr) x) ≡ contents rb mem ++ (x ∷ [])
  added-contents x h =
      let mem' : ℕ → V = update mem (rb.block_ptr rb.head_ptr) x in
      ap (slice (nth rb mem') 0) {y = suc rb.num_used} (omega (arith, v.max_le))
      ∙ slice-snoc (nth rb mem') 0 rb.num_used
      ∙ ap₂ (λ xs y. xs ++ (y ∷ []))
          (slice-ext (nth rb mem') (nth rb mem) 0 rb.num_used
            (λ k _ hk. nth-update x k h (omega arith)))
          (nth-head x)

  -- What is written to the block at the head is no value yet.
  pub written-contents :
      (x : V)
      → rb.num_used < rb.num_max
      → contents rb (update mem (rb.block_ptr rb.head_ptr) x) ≡ contents rb mem
  written-contents x h =
      slice-ext (nth rb (update mem (rb.block_ptr rb.head_ptr) x)) (nth rb mem) 0 rb.num_used
        (λ k _ hk. nth-update x k h (omega arith))

  -- Registering the block at the head with what stands there.
  pub registered-contents :
      rb.num_used < rb.num_max
      → contents (added rb) mem ≡ contents rb mem ++ (mem (rb.block_ptr rb.head_ptr) ∷ [])
  registered-contents h =
      ap (contents (added rb)) (sym (update_same mem (rb.block_ptr rb.head_ptr)))
      ∙ added-contents (mem (rb.block_ptr rb.head_ptr)) h

  nth-deleted :
      (n k : ℕ)
      → n ≤ rb.num_used
      → k < rb.num_used - n
      → nth (deleted rb n) mem k ≡ nth rb mem (k + n)
  nth-deleted n k hn hk =
      ap (λ i. mem (rb.block_ptr i))
        (ground (
          arith,
          v.tail_lt,
          v.used_le,
          v.max_le,
          mod_lem (rb.tail_ptr + n) rb.num_max,
          mod_lem (rb.tail_ptr + (k + n)) rb.num_max,
          mod_lem ((rb.tail_ptr + n) % rb.num_max + k) rb.num_max,
          mod_lem (rb.tail_ptr + n + k) rb.num_max,
        ))

  -- Giving up the `n` oldest blocks drops their values.
  deleted-contents :
      (n : ℕ) → n ≤ rb.num_used → contents (deleted rb n) mem ≡ drop n (contents rb mem)
  deleted-contents n h =
      slice-ext (nth (deleted rb n) mem) (λ k. nth rb mem (k + n)) 0 (rb.num_used - n)
        (λ k _ hk. nth-deleted n k h (omega arith))
      ∙ sym
          (drop-slice (nth rb mem) n 0 rb.num_used ∙ slice-shift (nth rb mem) n 0 (rb.num_used - n))

pub length-contents {ℓ} :
    {V : Type ℓ} (rb : Ring) (mem : ℕ → V) → length (contents rb mem) ≡ rb.num_used
length-contents rb mem = length-slice (nth rb mem) 0 rb.num_used

pub deleted-IsValid :
    {rb : Ring} (n : ℕ) → IsValid rb → n ≢ 0 → n ≤ rb.num_used → IsValid (deleted rb n)
deleted-IsValid {rb} n v h k =
    subst (λ (p : ℤ × Ring). IsValid p.1) (delete_taildata-room rb n h k)
      (delete_taildata-IsValid n v)

pub added-IsValid : {rb : Ring} → IsValid rb → rb.num_used < rb.num_max → IsValid (added rb)
added-IsValid {rb} v h =
    subst (λ (p : ℤ × Ring). IsValid p.1) (add_newdata-room rb h) (add_newdata-IsValid v)

pub new-room :
    (rb : Ring)
    → rb.num_used < rb.num_max
    → get_dataptr_new rb ≡ (some (rb.block_ptr rb.head_ptr), rb)
unfolding get_dataptr_new
new-room rb h = ground arith

pub new-error :
    (rb : Ring)
    → rb.num_max ≤ rb.num_used
    → rb.override_mode ≡ em_ringbuf_error
    → get_dataptr_new rb ≡ (none, rb)
unfolding get_dataptr_new
new-error rb h e = ground arith

new-update :
    (rb : Ring)
    → 0 < rb.num_max
    → rb.num_max ≤ rb.num_used
    → rb.override_mode ≡ em_ringbuf_update
    → get_dataptr_new rb ≡ (some (rb.block_ptr rb.head_ptr), deleted rb 1)
unfolding get_dataptr_new
new-update rb p h e = ground (arith, delete_taildata-room rb 1)

module _ {ℓ} {V : Type ℓ} (mem : ℕ → V) {rb : Ring} (x : V) (v : IsValid rb) where
  abbrev written : ℕ → V
  written = update mem (rb.block_ptr rb.head_ptr) x

  Produces : Type ℓ
  Produces =
      ((let (ret, rb', mem') = produce rb mem x in (ret, contents rb' mem'))
        ≡ push rb.override_mode rb.num_max (contents rb mem) x)
      × IsValid (produce rb mem x).1

  produce-room : rb.num_used < rb.num_max → Produces
  unfolding Produces produce push
  produce-room h =
      rw (new-room rb h, register, add_newdata-room rb h, length-contents rb mem, lt→leb _ _ h)
        (ap (λ q. (em_success, q)) (added-contents mem v x h), added-IsValid v h)

  produce-error : rb.num_max ≤ rb.num_used → rb.override_mode ≡ em_ringbuf_error → Produces
  unfolding Produces produce push
  produce-error h e =
      rw (new-error rb h e, register, length-contents rb mem, le→leb _ _ h, eq→== _ _ e) (refl, v)

  produce-update : rb.num_max ≤ rb.num_used → rb.override_mode ≡ em_ringbuf_update → Produces
  unfolding Produces produce push
  produce-update h e =
      let n : 1 ≤ rb.num_used = omega (arith, v.max_pos) in
      let r : rb.num_used - 1 < rb.num_max = omega (arith, v.used_le) in
      let v' = deleted-IsValid 1 v (omega arith) n in
      rw
        (
          new-update rb v.max_pos h e,
          register,
          add_newdata-room (deleted rb 1) r,
          length-contents rb mem,
          le→leb _ _ h,
          ne→== rb.override_mode em_ringbuf_error (omega arith),
        )
        (
          ap (λ q. (em_success, q))
              (added-contents mem v' x r ∙ ap (λ q. q ++ (x ∷ [])) (deleted-contents mem v 1 n)),
          added-IsValid v' r,
        )

-- Adding a value to a valid ring, by `em_ring_get_dataptr_new`, a write and `em_ring_add_newdata`, is
-- `push` on the queue that the ring holds, in either override mode, and keeps the ring valid.
pub produce_lem {ℓ} :
    {V : Type ℓ} (mem : ℕ → V) {rb : Ring} (x : V)
    → IsValid rb
    → (rb.override_mode ≡ em_ringbuf_error) ⊎ (rb.override_mode ≡ em_ringbuf_update)
    → let (ret, rb', mem') = produce rb mem x in
      ((ret, contents rb' mem') ≡ push rb.override_mode rb.num_max (contents rb mem) x)
      × IsValid rb'
unfolding Produces
produce_lem mem {rb} x v m = elim (dec_lt rb.num_used rb.num_max) [
  | yes h ↦ produce-room mem x v h
  | no h ↦ elim m [
    | inl e ↦ produce-error mem x v (omega arith) e
    | inr e ↦ produce-update mem x v (omega arith) e
  ]
]

-- `em_ring_delete_taildata` drops the oldest values, as many as it is told if there are so many, and
-- is refused otherwise.
pub delete_taildata_lem {ℓ} :
    {V : Type ℓ} (mem : ℕ → V) {rb : Ring} (del_num : ℕ)
    → IsValid rb
    → let (ret, rb') = delete_taildata rb del_num in
      (((del_num ≢ 0)
          × (del_num ≤ length (contents rb mem))
          × (ret ≡ em_success)
          × (contents rb' mem ≡ drop del_num (contents rb mem)))
        ⊎ (((del_num ≡ 0) ⊎ (length (contents rb mem) < del_num)) × (ret ≡ em_error) × (rb' ≡ rb)))
      × IsValid rb'
delete_taildata_lem mem {rb} n v = elim (dec_lt 0 n) [
  | yes h ↦ elim (dec_le n rb.num_used) [
    | yes k ↦ rw (delete_taildata-room rb n (omega arith) k) (
      inl (omega arith, omega (arith, length-contents rb mem), refl, deleted-contents mem v n k),
      deleted-IsValid n v (omega arith) k,
    )
    | no k ↦
        rw (delete_taildata-refused rb n (inr (omega arith)))
          (inr (inr (omega (arith, length-contents rb mem)), refl, refl), v)
  ]
  | no h ↦
      rw (delete_taildata-refused rb n (inl (omega arith))) (inr (inl (omega arith), refl, refl), v)
]

-- ===== src/Ring/Access.antt =====
-- Reading a ring by the distance from its oldest or its newest block.
use native.Mathlib.Decide.{dec_lt}
use native.Mathlib.Nat.{div-add-mod, mod-lt, add-mul-mod_self_left}
use embedded_middle.Prelude.{
  ℕ, zero, suc, ◌+◌, ◌-◌, ◌*◌, ◌/◌, ◌%◌, ◌≤◌, ◌<◌, ◌≡◌, ◌≢◌, ap, sym, ◌∙◌, arith, u32_mod, mod_lem,
  Option, none, some, ltb, if◌then◌else◌, get_elem?, get_elem?-slice, get_elem?-slice_out, inl, inr,
  ◌⊎◌, mul-ne,
}
use embedded_middle.Ring.{Ring, get_dataptr_head, head_index, get_dataptr_tail, tail_index}
use embedded_middle.Ring.Valid.{IsValid}
use embedded_middle.Ring.Contents.{nth, contents}

-- What stands at an address, if there is one.
abbrev pub read {ℓ} : {V : Type ℓ} → (ℕ → V) → Option ℕ → Option V
read mem none = none
read mem (some a) = some (mem a)

mul-pred : (m q : ℕ) → 0 < q → m * q ≡ m * (q - 1) + m
mul-pred m zero h = absurd (omega arith)
mul-pred m (suc q) h = let e : suc q - 1 ≡ q = omega arith in rw e (omega arith)

div-pos : (n m : ℕ) → 0 < m → m ≤ n → 0 < n / m
div-pos n m hm h = grind (arith, div-add-mod n m, mod-lt n hm)

-- `n - d` modulo `m`; with `n` the number of `uint` values it is the bit pattern of `-d`.
sub_mod : (n m d : ℕ) → 0 < m → m ≤ n → d ≤ m → (n - d) % m ≡ (m + n % m - d) % m
sub_mod n m d hm hn hd =
    ap (λ k. k % m) {y = m + n % m - d + m * (n / m - 1)}
      (omega (arith, div-add-mod n m, mul-pred m (n / m) (div-pos n m hm hn)))
    ∙ add-mul-mod_self_left (m + n % m - d) m (n / m - 1)

module _ {rb : Ring} (v : IsValid rb) (k : ℕ) (h : k < rb.num_used) where
  -- The place of the `k`-th newest block.
  abbrev newest : ℕ
  newest = (rb.tail_ptr + (rb.num_used - 1 - k)) % rb.num_max

  head_index-no_wrap : k < rb.head_ptr → head_index rb k ≡ newest
  unfolding head_index
  head_index-no_wrap hk = ground (
    arith,
    v.head_at,
    v.tail_lt,
    v.used_le,
    v.max_le,
    mod_lem (rb.tail_ptr + rb.num_used) rb.num_max,
    mod_lem (rb.tail_ptr + (rb.num_used - 1 - k)) rb.num_max,
  )

  newest-wrap : rb.head_ptr ≤ k → newest ≡ rb.num_max + rb.head_ptr - 1 - k
  newest-wrap hk = ground (
    arith,
    v.head_at,
    v.tail_lt,
    v.used_le,
    v.max_le,
    mod_lem (rb.tail_ptr + rb.num_used) rb.num_max,
    mod_lem (rb.tail_ptr + (rb.num_used - 1 - k)) rb.num_max,
  )

  head_index-wrap :
      rb.head_ptr ≤ k → head_index rb k ≡ (u32_mod - (k + 1 - rb.head_ptr)) % rb.num_max
  unfolding head_index
  head_index-wrap hk = ground (arith, v.used_le, v.max_le)

  distance :
      (u32_mod - (k + 1 - rb.head_ptr)) % rb.num_max
      ≡ (rb.num_max + u32_mod % rb.num_max - (k + 1 - rb.head_ptr)) % rb.num_max
  distance =
      sub_mod u32_mod rb.num_max (k + 1 - rb.head_ptr) v.max_pos (omega (arith, v.max_le))
        (omega (arith, v.used_le))

  turn : (rb.num_max + u32_mod % rb.num_max - (k + 1 - rb.head_ptr)) % rb.num_max ≡ (
      if ltb (rb.num_max + u32_mod % rb.num_max - (k + 1 - rb.head_ptr)) rb.num_max
      then rb.num_max + u32_mod % rb.num_max - (k + 1 - rb.head_ptr)
      else rb.num_max + u32_mod % rb.num_max - (k + 1 - rb.head_ptr) - rb.num_max)
  turn = mod_lem _ rb.num_max (omega (arith, mod-lt u32_mod v.max_pos))

  head_index-right : (k < rb.head_ptr) ⊎ (u32_mod % rb.num_max ≡ 0) → head_index rb k ≡ newest
  head_index-right (inl a) = head_index-no_wrap a
  head_index-right (inr z) = elim (dec_lt k rb.head_ptr) [
    | yes a ↦ head_index-no_wrap a
    | no b ↦ ground (
      arith,
      head_index-wrap (omega arith),
      newest-wrap (omega arith),
      distance,
      z,
      turn,
      v.used_le,
      mod-lt u32_mod v.max_pos,
    )
  ]

  head_index-wrong : rb.head_ptr ≤ k → u32_mod % rb.num_max ≢ 0 → head_index rb k ≢ newest
  head_index-wrong w r e = ground (
    arith,
    e,
    head_index-wrap w,
    newest-wrap w,
    distance,
    turn,
    v.used_le,
    mod-lt u32_mod v.max_pos,
  )

  head-some : get_dataptr_head rb k ≡ some (rb.block_ptr (head_index rb k))
  unfolding get_dataptr_head
  head-some = ground (arith, v.used_le, v.max_le)

pub tail-some :
    {rb : Ring}
    → IsValid rb
    → (k : ℕ) → k < rb.num_used
    → get_dataptr_tail rb k ≡ some (rb.block_ptr ((rb.tail_ptr + k) % rb.num_max))
unfolding get_dataptr_tail tail_index
tail-some {rb} v k h =
    ground (arith, v.used_le, v.tail_lt, v.max_le, mod_lem (rb.tail_ptr + k) rb.num_max)

tail-none :
    {rb : Ring}
    → IsValid rb
    → (k : ℕ) → rb.num_used ≤ k
    → k + 1 < u32_mod
    → get_dataptr_tail rb k ≡ none
unfolding get_dataptr_tail
tail-none v k h b = ground arith

block_inj :
    {rb : Ring}
    → IsValid rb
    → (i j : ℕ) → i < rb.num_max
    → j < rb.num_max
    → rb.block_ptr i ≡ rb.block_ptr j
    → i ≡ j
block_inj {rb} v i j hi hj e =
    ground (arith, v.block_at i, v.block_at j, mul-ne rb.block_size i j, v.size_pos)

-- The `k`-th newest block stands `num_used - 1 - k` places after the tail. `em_ring_get_dataptr_head`
-- finds it if the place is not before the start of the table, or if `num_max` divides `2 ^ 32`.
pub get_dataptr_head_lem {ℓ} :
    {V : Type ℓ} (mem : ℕ → V) {rb : Ring} (offset : ℕ)
    → IsValid rb
    → offset < rb.num_used
    → (offset < rb.head_ptr) ⊎ (u32_mod % rb.num_max ≡ 0)
    → read mem (get_dataptr_head rb offset) ≡ get_elem? (contents rb mem) (rb.num_used - 1 - offset)
get_dataptr_head_lem mem {rb} k v h c =
    rw (head-some v k h, read, head_index-right v k h c)
      (sym (
        get_elem?-slice (nth rb mem) 0 rb.num_used (rb.num_used - 1 - k) (omega arith)
        ∙ ap (λ i. some (mem (rb.block_ptr ((rb.tail_ptr + i) % rb.num_max))))
            {x = 0 + (rb.num_used - 1 - k)} {y = rb.num_used - 1 - k} (omega arith)))

-- Where the index passes the start of the table and `num_max` does not divide `2 ^ 32`,
-- `em_ring_get_dataptr_head` returns another block than the `k`-th newest.
pub get_dataptr_head_wrong :
    {rb : Ring} (offset : ℕ)
    → IsValid rb
    → offset < rb.num_used
    → rb.head_ptr ≤ offset
    → u32_mod % rb.num_max ≢ 0
    → get_dataptr_head rb offset
      ≢ some (rb.block_ptr ((rb.tail_ptr + (rb.num_used - 1 - offset)) % rb.num_max))
get_dataptr_head_wrong {rb} k v h w r e =
    let place : ℕ = (rb.tail_ptr + (rb.num_used - 1 - k)) % rb.num_max in
    let q : rb.block_ptr (head_index rb k) ≡ rb.block_ptr place = cc (head-some v k h) in
    head_index-wrong v k h w r (
      block_inj v (head_index rb k) place
        (omega (arith, head_index-wrap v k h w, mod-lt (u32_mod - (k + 1 - rb.head_ptr)) v.max_pos))
        (mod-lt _ v.max_pos) q)

-- `em_ring_get_dataptr_tail` gives the block of the value that is `offset` places younger than the
-- oldest, and NULL past the newest. The offset must be below the greatest `uint`.
pub get_dataptr_tail_lem {ℓ} :
    {V : Type ℓ} (mem : ℕ → V) {rb : Ring} (offset : ℕ)
    → IsValid rb
    → offset + 1 < u32_mod
    → read mem (get_dataptr_tail rb offset) ≡ get_elem? (contents rb mem) offset
get_dataptr_tail_lem mem {rb} k v h = elim (dec_lt k rb.num_used) [
  | yes a ↦
      rw (tail-some v k a, read)
        (sym (
          get_elem?-slice (nth rb mem) 0 rb.num_used k a
          ∙ ap (λ i. some (mem (rb.block_ptr ((rb.tail_ptr + i) % rb.num_max)))) {x = 0 + k} {y = k}
              (omega arith)))
  | no a ↦
      rw (tail-none v k (omega arith) h, read)
        (sym (get_elem?-slice_out (nth rb mem) 0 rb.num_used k (omega arith)))
]

-- At the greatest `uint` as the offset the range test of `em_ring_get_dataptr_tail` and
-- `em_ring_get_dataptr_head` wraps, and both return a block of any ring, of an empty one too.
pub max_offset_accepted :
    {rb : Ring}
    → IsValid rb
    → (get_dataptr_tail rb (u32_mod - 1) ≢ none) × (get_dataptr_head rb (u32_mod - 1) ≢ none)
unfolding get_dataptr_tail get_dataptr_head
max_offset_accepted {rb} v = (λ e. ground arith, λ e. ground arith)

-- ===== src/Buf/Append.antt =====
-- What em_buf_append does to the contents of a buffer.
use native.Mathlib.Decide.{dec_le}
use native.Mathlib.Nat.{mod-eq_of_lt}
use embedded_middle.Prelude.{
  ℕ, zero, suc, ◌+◌, ◌-◌, ◌^◌, ◌≤◌, ◌<◌, ◌≡◌, ◌⊎◌, inl, inr, refl, ap, ap₂, ◌∙◌, arith, false, some,
  List, ◌∷◌, ◌++◌, pos, negsuc, u32_mod, mod_lem, em_success, slice, slice-ext, slice-shift, lt→ltb,
  le→ltb,
}
use embedded_middle.Bytes.{Bytes, copy_at}
use embedded_middle.Buf.{Buf, append, get_remain_size, is_null}
use embedded_middle.Prelude.Int.{of_bits, sign_extend}

pub record IsValid (bf : Buf) : Type 0 where
  pub address : ℕ
  pub allocated : bf.data_ptr ≡ some address
  pub capacity_lt : bf.buf_capacity < 2 ^ 31
  pub size_le : bf.data_size ≤ bf.buf_capacity

abbrev pub contents : Buf → List ℕ
contents bf = slice bf.bytes 0 bf.data_size

slice-append : (f : ℕ → ℕ) (i m n : ℕ) → slice f i (m + n) ≡ slice f i m ++ slice f (i + m) n
slice-append f i zero n = ap₂ (λ j k. slice f j k) (omega arith) (omega arith)
slice-append f i (suc m) n =
    ap (slice f i) {y = suc (m + n)} (omega arith)
    ∙ ap (◌∷◌ (f i))
        (slice-append f (i + 1) m n ∙ ap (λ j. slice f (i + 1) m ++ slice f j n) (omega arith))

copied :
    (bf : Buf) (src : Bytes) (n : ℕ)
    → slice (copy_at bf.bytes bf.data_size src n) 0 (bf.data_size + n)
      ≡ contents bf ++ slice src 0 n
unfolding copy_at
copied bf src n =
    let after : ℕ → ℕ = copy_at bf.bytes bf.data_size src n in
    slice-append after 0 bf.data_size n
    ∙ ap₂ (λ xs ys. xs ++ ys) (slice-ext after bf.bytes 0 bf.data_size (λ k l u. ground arith))
        (slice-shift after bf.data_size 0 n
          ∙ slice-ext (λ k. after (k + bf.data_size)) src 0 n (λ k l u. ground arith))

not_null : {bf : Buf} → IsValid bf → is_null bf.data_ptr ≡ false
unfolding is_null
not_null v = ap is_null v.allocated

abbrev appended : Buf → Bytes → ℕ → Buf
appended bf src n = record bf {
  bytes = copy_at bf.bytes bf.data_size src n;
  data_size = bf.data_size + n;
}

append-fits :
    {bf : Buf} (src : Bytes) (n : ℕ)
    → IsValid bf
    → n < 2 ^ 31
    → bf.data_size + n ≤ bf.buf_capacity
    → append bf src n ≡ (em_success, appended bf src n)
unfolding append sign_extend
append-fits {bf} src n v h fits =
    rw
      (
        not_null v,
        mod-eq_of_lt {n = bf.data_size + n} {m = u32_mod} (omega (arith, v.capacity_lt)),
        le→ltb bf.buf_capacity (bf.data_size + n) fits,
        lt→ltb n (2 ^ 31) h,
      )
      refl

append-over :
    {bf : Buf} (src : Bytes) (n : ℕ)
    → IsValid bf
    → n < 2 ^ 31
    → bf.buf_capacity < bf.data_size + n
    → append bf src n ≡ (negsuc 1, bf)
unfolding append
append-over {bf} src n v h over =
    rw
      (
        not_null v,
        mod-eq_of_lt {n = bf.data_size + n} {m = u32_mod} (omega (arith, v.capacity_lt, v.size_le)),
        lt→ltb bf.buf_capacity (bf.data_size + n) over,
      )
      refl

remain_lem :
    {bf : Buf} → IsValid bf → get_remain_size (some bf) ≡ pos (bf.buf_capacity - bf.data_size)
unfolding get_remain_size of_bits
remain_lem {bf} v = rw (not_null v) (
    ground
      (arith, mod_lem (bf.buf_capacity + u32_mod - bf.data_size) u32_mod, v.capacity_lt, v.size_le))

-- Appending a number of bytes that is not negative puts them behind the contents, where they fit;
-- where they do not it returns -2, and changes nothing.
pub append_lem :
    {bf : Buf} (append_data : Bytes) (length : ℕ)
    → IsValid bf
    → length < 2 ^ 31
    → let (ret, bf') = append bf append_data length in
      ((bf.data_size + length ≤ bf.buf_capacity)
        × (ret ≡ em_success)
        × (contents bf' ≡ contents bf ++ slice append_data 0 length)
        × (get_remain_size (some bf') ≡ pos (bf.buf_capacity - (bf.data_size + length)))
        × IsValid bf')
      ⊎ ((bf.buf_capacity < bf.data_size + length) × (ret ≡ negsuc 1) × (bf' ≡ bf))
append_lem {bf} src n v h = elim (dec_le (bf.data_size + n) bf.buf_capacity) [
  | yes fits ↦
      (let v' : IsValid (appended bf src n) = record {
        address = v.address;
        allocated = v.allocated;
        capacity_lt = v.capacity_lt;
        size_le = fits;
      } in
        rw (append-fits src n v h fits) (inl (fits, refl, copied bf src n, remain_lem v', v')))
  | no over ↦ rw (append-over src n v h (omega arith)) (inr (omega arith, refl, refl))
]

-- A negative length, -`k`, with as many bytes in the buffer, passes the test: the call succeeds and
-- writes behind the `buf_capacity + 1` bytes that were allocated.
pub append_negative :
    {bf : Buf} (append_data : Bytes) (k : ℕ)
    → IsValid bf
    → 0 < k
    → k ≤ bf.data_size
    → let (ret, bf') = append bf append_data (u32_mod - k) in
      (ret ≡ em_success)
      × (bf'.bytes (bf.buf_capacity + 1) ≡ append_data (bf.buf_capacity + 1 - bf.data_size))
unfolding append sign_extend copy_at
append_negative {bf} src k v h l =
    rw
      (
        not_null v,
        mod_lem (bf.data_size + (u32_mod - k)) u32_mod (omega (arith, v.capacity_lt, v.size_le)),
        le→ltb (bf.data_size + (u32_mod - k)) u32_mod (omega (arith, v.capacity_lt, v.size_le)),
        le→ltb bf.buf_capacity (bf.data_size + (u32_mod - k) - u32_mod) (omega (arith, v.size_le)),
      )
      (refl, ground (arith, v.size_le, v.capacity_lt))

-- ===== src/Bytes.antt =====
-- The memory functions of the C library that the code calls. What a pointer gives is the function
-- from an offset to the byte there.
use native.Mathlib.Decide.{dec_lt}
use embedded_middle.Prelude.{
  fun_ext, ℕ, zero, suc, ◌+◌, ◌≤◌, ◌<◌, ◌≡◌, refl, Bool, true, false, ltb, leb, ◌&&◌, ◌-◌, ◌==◌,
  if◌then◌else◌, arith,
}

abbrev pub Bytes : Type 0
Bytes = ℕ → ℕ

-- The bytes at `dst` after `memcpy(dst, src, n)`.
unfoldable pub memcpy : Bytes → Bytes → ℕ → Bytes
memcpy dst src n i = if ltb i n then src i else dst i

-- The bytes at `dst` after `memcpy(dst + offset, src, n)`.
unfoldable pub copy_at : Bytes → ℕ → Bytes → ℕ → Bytes
copy_at dst offset src n i = if leb offset i && ltb i (offset + n) then src (i - offset) else dst i

-- `memcmp(a + i, b + i, n) == 0`.
unfoldable pub memcmp_from : ℕ → ℕ → Bytes → Bytes → Bool
memcmp_from zero i a b = true
memcmp_from (suc n) i a b = if a i == b i then memcmp_from n (i + 1) a b else false

-- `strncmp(a + i, b + i, n) == 0`: a NUL byte ends both strings.
unfoldable pub strncmp_from : ℕ → ℕ → Bytes → Bytes → Bool
strncmp_from zero i a b = true
strncmp_from (suc n) i a b =
    let rest = strncmp_from n (i + 1) a b in
    if a i == b i then (if a i == 0 then true else rest) else false

-- `a` and `b` agree from `i` on, as far as a comparison of `n` bytes looks.
abbrev pub Agree : Bytes → Bytes → ℕ → Type 0
Agree a b n = (k : ℕ) → k < n → a k ≡ b k

pub memcmp_refl : (n i : ℕ) (a : Bytes) → memcmp_from n i a a ≡ true
unfolding memcmp_from
memcmp_refl zero i a = refl
memcmp_refl (suc n) i a = ground (arith, memcmp_refl n (i + 1) a)

pub memcmp-sym : (n i : ℕ) (a b : Bytes) → memcmp_from n i a b ≡ true → memcmp_from n i b a ≡ true
unfolding memcmp_from
memcmp-sym zero i a b h = refl
memcmp-sym (suc n) i a b h = ground (arith, memcmp-sym n (i + 1) a b)

pub memcmp_trans :
    (n i : ℕ) (a b c : Bytes)
    → memcmp_from n i a b ≡ true
    → memcmp_from n i b c ≡ true
    → memcmp_from n i a c ≡ true
unfolding memcmp_from
memcmp_trans zero i a b c h k = refl
memcmp_trans (suc n) i a b c h k = ground (arith, memcmp_trans n (i + 1) a b c)

pub memcmp-Agree : (n i m : ℕ) (a b : Bytes) → i + n ≤ m → Agree a b m → memcmp_from n i a b ≡ true
unfolding memcmp_from
memcmp-Agree zero i m a b h g = refl
memcmp-Agree (suc n) i m a b h g = ground (arith, g i, memcmp-Agree n (i + 1) m a b (omega arith) g)

pub Agree_of_memcmp :
    (n i k : ℕ) (a b : Bytes) → memcmp_from n i a b ≡ true → i ≤ k → k < i + n → a k ≡ b k
unfolding memcmp_from
Agree_of_memcmp zero i k a b h l u = absurd (omega arith)
Agree_of_memcmp (suc n) i k a b h l u = elim (dec_lt i k) [
  | yes p ↦ ground (arith, Agree_of_memcmp n (i + 1) k a b)
  | no p ↦ (let e : k ≡ i = omega arith in rw e (ground arith))
]

pub strncmp_refl : (n i : ℕ) (a : Bytes) → strncmp_from n i a a ≡ true
unfolding strncmp_from
strncmp_refl zero i a = refl
strncmp_refl (suc n) i a = ground (arith, strncmp_refl n (i + 1) a)

pub strncmp-sym :
    (n i : ℕ) (a b : Bytes) → strncmp_from n i a b ≡ true → strncmp_from n i b a ≡ true
unfolding strncmp_from
strncmp-sym zero i a b h = refl
strncmp-sym (suc n) i a b h = ground (arith, strncmp-sym n (i + 1) a b)

pub strncmp_trans :
    (n i : ℕ) (a b c : Bytes)
    → strncmp_from n i a b ≡ true
    → strncmp_from n i b c ≡ true
    → strncmp_from n i a c ≡ true
unfolding strncmp_from
strncmp_trans zero i a b c h k = refl
strncmp_trans (suc n) i a b c h k = ground (arith, strncmp_trans n (i + 1) a b c)

pub strncmp-Agree :
    (n i m : ℕ) (a b : Bytes) → i + n ≤ m → Agree a b m → strncmp_from n i a b ≡ true
unfolding strncmp_from
strncmp-Agree zero i m a b h g = refl
strncmp-Agree (suc n) i m a b h g =
    ground (arith, g i, strncmp-Agree n (i + 1) m a b (omega arith) g)

pub memcpy-Agree : (dst src : Bytes) (n : ℕ) → Agree (memcpy dst src n) src n
unfolding memcpy
memcpy-Agree dst src n k h = ground arith

-- Copying out what was copied in: the first `n` bytes are the source's.
pub memcpy-memcpy :
    (dst old src : Bytes) (n : ℕ) → memcpy dst (memcpy old src n) n ≡ memcpy dst src n
unfolding memcpy
memcpy-memcpy dst old src n = fun_ext (λ i. ground arith)

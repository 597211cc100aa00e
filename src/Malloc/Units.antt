-- ===== src/Malloc/Units.antt =====
-- The units of em_malloc.c: how many a size needs, where each is, and which one an address is, with the
-- shifts and with the divisions of the code.
use native.Mathlib.Decide.{dec_le, ℕ_discrete}
use native.Mathlib.Nat.{mod-eq_of_lt, div-le_self, div-add-mod, mod-lt, div-eq_of_eq-mul_left}
use Prim.Native.Nat.{bit_and}
use embedded_middle.Prelude.{
  ℕ, zero, suc, ◌+◌, ◌-◌, ◌*◌, ◌/◌, ◌%◌, ◌^◌, ◌≤◌, ◌<◌, ◌≡◌, refl, sym, ap, arith, ◌==◌, eq→==,
  subst, some-inj, ◌∙◌, ℤ, not, ◌||◌, Bool, true, false, Bool-cases, inl, inr, if◌then◌else◌,
  Option, none, some, u32_mod, le→leb, ==_iff, lt→leb, add32, ne→==, mul-le,
}
use embedded_middle.Prelude.Bits.{bit_and-low, bit_and_step, bit_and-self_ne, pow_suc}
use embedded_middle.Oalloc.Count.{IsRounded}
use embedded_middle.Mempool.{Mpool, try_alloc_block}
use embedded_middle.Malloc.{
  Memmng, log2, set_sizes, place_memory, allocate_memory, link_initial, created, create,
}
use embedded_middle.Malloc.Calls.{block_length, unit_address, unit_index}

-- The shift by `mem_unit_bshift` is the division by `mem_unit_size`, where the code shifts.
pub record IsShiftable (mm : Memmng) : Type 0 where
  pub some_unit : 0 < mm.mem_unit_size
  pub shifts : mm.is_bshiftable ≡ true → mm.mem_unit_size ≡ 2 ^ mm.mem_unit_bshift

log2_small : (fuel n : ℕ) → n ≤ 1 → log2 fuel n ≡ 0
unfolding log2
log2_small zero n h = refl
log2_small (suc fuel) n h = rw (le→leb n 1 h) refl

log2_half : (fuel n : ℕ) → 1 < n → log2 (suc fuel) n ≡ suc (log2 fuel (n / 2))
unfolding log2
log2_half fuel n h = rw (lt→leb n 1 h) (omega arith)

-- A number with no digit in common with the one below it is a power of two.
power_of_two : (fuel n : ℕ) → 0 < n → n < 2 ^ fuel → bit_and n (n - 1) ≡ 0 → n ≡ 2 ^ log2 fuel n
power_of_two zero n pos less e = absurd (omega (arith, less))
power_of_two (suc fuel) n pos less e = elim (dec_le n 1) [
  | yes one ↦ rw (log2_small (suc fuel) n one) (omega (arith, pos, one))
  | no more ↦
      let v : ℕ = n / 2 in
      elim (ℕ_discrete (n % 2) 0) [
        | yes even ↦
            let down : (n - 1) / 2 ≡ v - 1 = omega (arith, even, pos) in
            let none_left : bit_and v (v - 1) ≡ 0 =
              omega (arith, e, even, bit_and_step n (n - 1), ap (λ x. bit_and v x) down) in
            let ih : v ≡ 2 ^ log2 fuel v =
              power_of_two fuel v (omega (arith, more)) (omega (arith, less, pow_suc fuel))
                none_left in
            rw (log2_half fuel n (omega (arith, more)))
              (omega (arith, even, ih, pow_suc (log2 fuel v)))
        | no odd ↦
            let down : (n - 1) / 2 ≡ v = omega (arith, odd) in
            absurd (
              bit_and-self_ne v (omega (arith, more))
                (omega (arith, e, bit_and_step n (n - 1), ap (λ x. bit_and v x) down)))
      ]
]

second_test : (a b : Bool) → not (a || not b) ≡ true → b ≡ true
second_test true b e = cc e
second_test false true e = refl
second_test false false e = cc e

-- What `set_sizes` puts down.
set_sizes-IsShiftable :
    (mm : Memmng) (unit num : ℕ) → 0 < unit → unit < u32_mod → IsShiftable (set_sizes mm unit num)
unfolding set_sizes
set_sizes-IsShiftable mm unit num pos less = record {
  some_unit = pos;
  shifts = λ on. power_of_two 32 unit pos less ((==_iff _ 0).0 (second_test (unit == 0) _ on));
}

block_length-shift :
    (mm : Memmng) (size : ℕ)
    → IsShiftable mm
    → block_length mm size ≡ (
        let blength = (size / mm.mem_unit_size) % u32_mod in
        if size % mm.mem_unit_size == 0 then blength else add32 blength 1)
unfolding block_length
block_length-shift mm size s = elim (Bool-cases mm.is_bshiftable) [
  | inl on ↦ rw (on, s.shifts on, bit_and-low mm.mem_unit_bshift size) refl
  | inr off ↦ rw off refl
]

rounded :
    (unit size : ℕ)
    → 0 < unit
    → unit < 2 ^ 31
    → size < 2 ^ 31
    → IsRounded unit size (
        let blength = (size / unit) % u32_mod in
        if size % unit == 0 then blength else add32 blength 1)
rounded unit size hu hl hs =
    let q : ℕ = size / unit in
    let parts : size ≡ unit * q + size % unit = sym (div-add-mod size unit) in
    let less : size % unit < unit = mod-lt size hu in
    let small : q ≤ size = div-le_self size unit in
    rw
      (
        mod-eq_of_lt {n = q} {m = u32_mod} (omega (arith, small)),
        mod-eq_of_lt {n = q + 1} {m = u32_mod} (omega (arith, small)),
      )
      (elim (ℕ_discrete (size % unit) 0) [
        | yes exact ↦ rw (eq→== (size % unit) 0 exact) (record {
          enough = omega (arith, parts, exact);
          least = omega (arith, parts, exact, hu);
          fits = omega (arith, small);
        })
        | no more ↦ rw (ne→== (size % unit) 0 more) (record {
          enough = grind (arith, parts, less);
          least = grind (arith, parts, more);
          fits = omega (arith, parts, more, mul-le q 1 unit (omega arith));
        })
      ])

quotient : (m k n : ℕ) → 0 < n → (m + k * n - m) / n ≡ k
quotient m k n h = div-eq_of_eq-mul_left {n = n} {m = m + k * n - m} {k = k} h (omega arith)

-- The units of a manager: as `set_sizes` puts them down.
abbrev HasUnits : ℕ → Memmng → Type 0
HasUnits unit mm = IsShiftable mm × (mm.mem_unit_size ≡ unit)

link_initial-HasUnits :
    (unit : ℕ) (mm : Memmng) (r : Option ℕ × Mpool) {made : Memmng}
    → HasUnits unit mm
    → link_initial mm r ≡ some made
    → HasUnits unit made
unfolding link_initial
link_initial-HasUnits unit mm (none, mp) s e = cc e
link_initial-HasUnits unit mm (some p, mp) s e =
    subst (HasUnits unit) (some-inj e)
      (record { some_unit = s.0.some_unit; shifts = s.0.shifts }, s.1)

created-some :
    {H : Type 0} {ret : ℤ} {made : Memmng} (h h' : H) (o : Option Memmng)
    → created h o ≡ some (ret, made, h')
    → o ≡ some made
unfolding created
created-some h h' none e = cc e
created-some h h' (some mm) e = ap (λ r. some r.1) (some-inj e)

module _ {H : Type 0} (alloc_func : ℕ → H → ℕ × H) (mm : Memmng) (unit num max : ℕ)
    (memory : Option ℕ) (h : H) (pos : 0 < unit) (less : unit < 2 ^ 31) (ret : ℤ) (made : Memmng)
    (h' : H) where
  made_lem : create alloc_func mm unit num max memory h ≡ some (ret, made, h') → HasUnits unit made
  unfolding create place_memory allocate_memory set_sizes
  made_lem =
      let s = set_sizes-IsShiftable mm unit num pos (omega (arith, less)) in
      elim memory
        as (λ m.
          create alloc_func mm unit num max m h ≡ some (ret, made, h') → HasUnits unit made) [
            | none ↦ λ e.
                let (m, h₁) = allocate_memory alloc_func (set_sizes mm unit num) max h in
                link_initial-HasUnits unit m (try_alloc_block m.mp_free)
                  ((record { some_unit = s.some_unit; shifts = s.shifts }, refl))
                  (created-some h₁ h' _ e)
            | some p ↦ λ e.
                let m = place_memory (set_sizes mm unit num) max p in
                link_initial-HasUnits unit m (try_alloc_block m.mp_free)
                  ((record { some_unit = s.some_unit; shifts = s.shifts }, refl))
                  (created-some h h' _ e)
          ]

  -- Whether em_memmng_create has decided for shifts or for divisions, _em_malloc takes as many units as
  -- the size needs and no more, where a unit has from 1 to 2 ^ 31 - 1 bytes and the size is below
  -- 2 ^ 31.
  pub block_length_lem :
      create alloc_func mm unit num max memory h ≡ some (ret, made, h')
      → (size : ℕ) → size < 2 ^ 31
      → IsRounded unit size (block_length made size)
  block_length_lem e size small =
      let m = made_lem e in
      rw (block_length-shift made size m.0, m.1) (rounded unit size pos less small)

  address_lem :
      HasUnits unit made
      → (k : ℕ) → k * unit < u32_mod
      → unit_address made k ≡ made.memory + k * unit
  unfolding unit_address
  address_lem m k small = elim (Bool-cases made.is_bshiftable) [
    | inl on ↦ rw (on, sym (m.0.shifts on), m.1, mod-eq_of_lt small) refl
    | inr off ↦ rw (off, m.1, mod-eq_of_lt small) refl
  ]

  index_lem :
      HasUnits unit made → (a : ℕ) → unit_index made a ≡ ((a - made.memory) / unit) % u32_mod
  unfolding unit_index
  index_lem m a = elim (Bool-cases made.is_bshiftable) [
    | inl on ↦ rw (on, sym (m.0.shifts on), m.1) refl
    | inr off ↦ rw (off, m.1) refl
  ]

  -- Where the units of a manager have at least one byte each and less than 2 ^ 31 together,
  -- _em_malloc hands out the address of a unit at the unit's number times the bytes of a unit
  -- behind the memory, whether it shifts or multiplies, and em_free finds the unit again from this
  -- address.
  pub unit_index-unit_address :
      create alloc_func mm unit num max memory h ≡ some (ret, made, h')
      → unit * num < 2 ^ 31
      → (k : ℕ) → k < num
      → (unit_address made k ≡ made.memory + k * unit) × (unit_index made (unit_address made k) ≡ k)
  unit_index-unit_address e bytes k inside =
      let m = made_lem e in
      let less : unit * (k + 1) ≤ unit * num = mul-le unit (k + 1) num (omega (arith, inside)) in
      let small : k * unit < 2 ^ 31 = omega (arith, less, bytes, pos) in
      let enough : k * 1 ≤ k * unit = mul-le k 1 unit (omega (arith, pos)) in
      let address = address_lem m k (omega (arith, small)) in
      (
        address,
        ap (unit_index made) address
            ∙ index_lem m (made.memory + k * unit)
            ∙ ap (λ q. q % u32_mod) (quotient made.memory k unit pos)
            ∙ mod-eq_of_lt (omega (arith, small, enough)),
      )

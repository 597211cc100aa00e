-- ===== src/Oalloc/Count.antt =====
-- The arithmetic of em_oalloc on `int` values that are not negative, and the count of units.
use native.Mathlib.Decide.{dec_lt}
use native.Mathlib.Nat.{
  mod-eq_of_lt, lt-div-mul-add, div-mul-le_self, div-le_self, div-eq_of_eq-mul_left, mod_self,
}
use embedded_middle.Prelude.{
  ℕ, ◌+◌, ◌-◌, ◌*◌, ◌/◌, ◌%◌, ◌^◌, ◌≤◌, ◌<◌, ◌≡◌, refl, arith, leb, u32_mod, sub32, mul-le, mod_lem,
  lt→ltb, le→ltb,
}
use embedded_middle.Oalloc.{u64_mod, unit_count}
use embedded_middle.Prelude.Int.{sign_extend, leb_int}

pub sign_extend_lem : (n : ℕ) → n < 2 ^ 31 → sign_extend n ≡ n
unfolding sign_extend
sign_extend_lem n h = ground arith

pub leb_int_lem : (a b : ℕ) → a < 2 ^ 31 → b < 2 ^ 31 → leb_int a b ≡ leb a b
unfolding leb_int
leb_int_lem a b h k = ground (arith, mod_lem (a + 2 ^ 31) u32_mod, mod_lem (b + 2 ^ 31) u32_mod)

pub sub32_lem : (a b : ℕ) → b ≤ a → a < 2 ^ 31 → sub32 a b ≡ a - b
sub32_lem a b h k = ground (arith, mod_lem (a + u32_mod - b) u32_mod)

-- As many units as the size needs and no more.
pub record IsRounded (unit size n : ℕ) : Type 0 where
  pub enough : size ≤ unit * n
  pub least : unit * n < size + unit
  pub fits : n < 2 ^ 31

-- `size - x`, where it does not go below 0.
rest_lem : (size x : ℕ) → size < u64_mod → x ≤ size → (size + u64_mod - x) % u64_mod ≡ size - x
rest_lem size x h k = ground (arith, mod_lem (size + u64_mod - x) u64_mod)

pub unit_count-IsRounded :
    (unit size : ℕ)
    → 0 < unit
    → unit < 2 ^ 31
    → size < 2 ^ 31
    → IsRounded unit size (unit_count unit size)
unfolding unit_count
unit_count-IsRounded unit size hu hl hs =
    let q : ℕ = size / unit in
    let below : q * unit ≤ size = div-mul-le_self size unit in
    let above : size < q * unit + unit = lt-div-mul-add hu in
    let small : q ≤ size = div-le_self size unit in
    rw
      (
        sign_extend_lem unit hl,
        mod-eq_of_lt {n = q} {m = u32_mod} (omega arith),
        mod-eq_of_lt {n = q * unit} {m = u32_mod} (omega arith),
        sign_extend_lem (q * unit) (omega arith),
      )
      (elim (dec_lt (q * unit) size) [
        | yes more ↦
            rw
              (
                rest_lem size (q * unit) (omega arith) below,
                lt→ltb 0 (size - q * unit) (omega arith),
                mod-eq_of_lt {n = q + 1} {m = u32_mod} (omega arith),
              )
              (record {
                enough = grind (arith, above);
                least = grind (arith, more);
                fits = omega (arith, mul-le q 1 unit (omega arith));
              })
        | no exact ↦
            rw
              (
                rest_lem size (q * unit) (omega arith) below,
                le→ltb 0 (size - q * unit) (omega arith),
              )
              (record { enough = omega arith; least = omega arith; fits = omega arith })
      ])

pub huge_count : (unit : ℕ) → 0 < unit → unit < 2 ^ 31 → unit_count unit (u32_mod * unit) ≡ 1
unfolding unit_count sign_extend
huge_count unit h k =
    let nothing : 0 * unit ≡ 0 = omega arith in
    rw
      (
        lt→ltb unit (2 ^ 31) k,
        div-eq_of_eq-mul_left {n = unit} {m = u32_mod * unit} {k = u32_mod} h refl,
        mod_self u32_mod,
        nothing,
        rest_lem (u32_mod * unit) 0 (omega arith) (omega arith),
        lt→ltb 0 (u32_mod * unit - 0) (omega arith),
      )
      refl

-- ===== src/Prelude/Bits.antt =====
-- The binary digits of numbers under the bitwise operations of C.
use Prim.Native.Nat.{
  ℕ, zero, suc, ◌+◌, ◌-◌, ◌*◌, ◌/◌, ◌%◌, ◌^◌, ◌≤◌, ◌<◌, min, max, bit_and, bit_or, digits, bitwise,
  bit_and-bitwise, bit_or-bitwise,
}
use mathlib.Core.Path.{◌≡◌, refl, ap, ◌∙◌}
use mathlib.Core.Logic.{◌≢◌, ◌↔◌, ◌⊎◌, inl, inr}
use native.Mathlib.Omega.{arith}
use native.Mathlib.Decide.{ℕ_discrete}
use native.Mathlib.Nat.{mod-eq_of_lt, mod-lt, div-add-mod, add-mul-mod_self_left}

-- The digit of `a` at place `i`.
unfoldable pub bit : ℕ → ℕ → ℕ
bit zero a = a % 2
bit (suc i) a = bit i (a / 2)

-- `~b` in a word of `w` bits.
abbrev pub complement : ℕ → ℕ → ℕ
complement w b = 2 ^ w - 1 - b

-- A bitwise operation goes on digit by digit, where `f` is what it does on one digit and `z` what is
-- left when the first number has run out.
module _ (z : ℕ → ℕ) (f : ℕ → ℕ → ℕ) (run_out : (b : ℕ) → z b ≡ z (b / 2) * 2 + f 0 (b % 2)) where
  enough_fuel : (n m a b : ℕ) → a ≤ n → a ≤ m → digits z f n a b ≡ digits z f m a b
  enough_fuel zero zero a b p q = refl
  enough_fuel zero (suc m) zero b p q = refl
  enough_fuel zero (suc m) (suc a) b p q = absurd (omega arith)
  enough_fuel (suc n) zero zero b p q = refl
  enough_fuel (suc n) zero (suc a) b p q = absurd (omega arith)
  enough_fuel (suc n) (suc m) zero b p q = refl
  enough_fuel (suc n) (suc m) (suc a) b p q =
      omega (arith, enough_fuel n m (suc a / 2) (b / 2) (omega arith) (omega arith))

  bitwise_lem : (a b : ℕ) → bitwise z f a b ≡ bitwise z f (a / 2) (b / 2) * 2 + f (a % 2) (b % 2)
  bitwise_lem zero b = run_out b
  bitwise_lem (suc a) b =
      omega (arith, enough_fuel a (suc a / 2) (suc a / 2) (b / 2) (omega arith) (omega arith))

pub bit_and_step : (a b : ℕ) → bit_and a b ≡ bit_and (a / 2) (b / 2) * 2 + min (a % 2) (b % 2)
bit_and_step a b = omega (
  arith,
  bit_and-bitwise a b,
  bit_and-bitwise (a / 2) (b / 2),
  bitwise_lem (λ b. zero) min (λ b. omega arith) a b,
)

bit_or_step : (a b : ℕ) → bit_or a b ≡ bit_or (a / 2) (b / 2) * 2 + max (a % 2) (b % 2)
bit_or_step a b = omega (
  arith,
  bit_or-bitwise a b,
  bit_or-bitwise (a / 2) (b / 2),
  bitwise_lem (λ b. b) max (λ b. omega arith) a b,
)

pub bit-bit_and : (i a b : ℕ) → bit i (bit_and a b) ≡ min (bit i a) (bit i b)
unfolding bit
bit-bit_and zero a b = omega (arith, bit_and_step a b)
bit-bit_and (suc i) a b =
    ap (bit i) (omega (arith, bit_and_step a b)) ∙ bit-bit_and i (a / 2) (b / 2)

pub bit-bit_or : (i a b : ℕ) → bit i (bit_or a b) ≡ max (bit i a) (bit i b)
unfolding bit
bit-bit_or zero a b = omega (arith, bit_or_step a b)
bit-bit_or (suc i) a b = ap (bit i) (omega (arith, bit_or_step a b)) ∙ bit-bit_or i (a / 2) (b / 2)

pub bit-zero : (i : ℕ) → bit i 0 ≡ 0
unfolding bit
bit-zero zero = refl
bit-zero (suc i) = bit-zero i

pub bit-two : (i a : ℕ) → bit i a < 2
unfolding bit
bit-two zero a = omega arith
bit-two (suc i) a = bit-two i (a / 2)

pub pow_suc : (w : ℕ) → 2 ^ suc w ≡ 2 * 2 ^ w
pow_suc w = grind arith

pub pow_pos : (w : ℕ) → 0 < 2 ^ w
pow_pos zero = omega arith
pow_pos (suc w) = omega (arith, pow_suc w, pow_pos w)

-- The complement turns each digit of the word round.
pub bit-complement : (i w b : ℕ) → i < w → b < 2 ^ w → bit i (complement w b) + bit i b ≡ 1
unfolding bit
bit-complement i zero b h l = absurd (omega arith)
bit-complement zero (suc w) b h l = omega (arith, pow_suc w)
bit-complement (suc i) (suc w) b h l =
    ap (λ x. bit i x + bit i (b / 2)) {x = complement (suc w) b / 2} {y = complement w (b / 2)}
      (omega (arith, pow_suc w))
    ∙ bit-complement i w (b / 2) (omega arith) (omega (arith, pow_suc w))

-- A number that is not 0 has a digit that is not.
nonzero_bit : (n a : ℕ) → a ≤ n → a ≢ 0 → (i : ℕ) × (bit i a ≡ 1)
unfolding bit
nonzero_bit zero a l h = absurd (h (omega arith))
nonzero_bit (suc n) a l h = elim (bit_cases a) [
  | inl odd ↦ (0, odd)
  | inr even ↦ let (i, e) = nonzero_bit n (a / 2) (omega arith) (λ z. h (omega arith)) in (suc i, e)
]
  where
    bit_cases : (a : ℕ) → (a % 2 ≡ 1) ⊎ (a % 2 ≡ 0)
    bit_cases a = ground arith

-- Two words have a digit in common just when their conjunction is not 0.
pub bit_and-common : (a b : ℕ) → (bit_and a b ≢ 0) ↔ ((i : ℕ) × (bit i a ≡ 1) × (bit i b ≡ 1))
bit_and-common a b = (
  λ h.
      (let (i, e) = nonzero_bit (bit_and a b) (bit_and a b) (omega arith) h in
        (
          i,
          omega (arith, bit-bit_and i a b, bit-two i a, bit-two i b),
          omega (arith, bit-bit_and i a b, bit-two i a, bit-two i b),
        )),
  λ (i, ea, eb) z. omega (arith, bit-bit_and i a b, ap (bit i) z, bit-zero i),
)

bit_and-zero : (a : ℕ) → bit_and a 0 ≡ 0
bit_and-zero a = elim (ℕ_discrete (bit_and a 0) 0) [
  | yes e ↦ e
  | no n ↦ let (i, _, e) = (bit_and-common a 0).0 n in absurd (omega (arith, e, bit-zero i))
]

mod_double : (a p : ℕ) → 0 < p → a % (2 * p) ≡ a / 2 % p * 2 + a % 2
mod_double a p h =
    let q : ℕ = a / 2 / p in
    let r : ℕ = a / 2 % p in
    let less : r < p = mod-lt (a / 2) h in
    let halves : p * q + r ≡ a / 2 = div-add-mod (a / 2) p in
    let whole : a ≡ r * 2 + a % 2 + 2 * p * q = grind (arith, halves) in
    ap (λ x. x % (2 * p)) {x = a} {y = r * 2 + a % 2 + 2 * p * q} whole
    ∙ add-mul-mod_self_left (r * 2 + a % 2) (2 * p) q
    ∙ mod-eq_of_lt {n = r * 2 + a % 2} {m = 2 * p} (omega (arith, less))

-- The low digits are the remainder by a power of two.
pub bit_and-low : (k a : ℕ) → bit_and a (2 ^ k - 1) ≡ a % 2 ^ k
bit_and-low zero a = omega (arith, bit_and-zero a)
bit_and-low (suc k) a =
    let p : ℕ = 2 ^ k in
    let some_p : 0 < p = pow_pos k in
    let half : (2 ^ suc k - 1) / 2 ≡ p - 1 = omega (arith, pow_suc k) in
    bit_and_step a (2 ^ suc k - 1)
    ∙ rw (half, bit_and-low k (a / 2), pow_suc k, mod_double a p some_p) (omega (arith, some_p))

pub bit_and-self_ne : (a : ℕ) → a ≢ 0 → bit_and a a ≢ 0
bit_and-self_ne a h =
    let (i, e) = nonzero_bit a a (omega arith) h in (bit_and-common a a).1 (i, e, e)

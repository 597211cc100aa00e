-- ===== src/Prelude/Numbers.antt =====
-- Products and remainders that the components share.
use Prim.Native.Nat.{ℕ, ◌+◌, ◌-◌, ◌*◌, ◌%◌, ◌≤◌, ◌<◌}
use mathlib.Core.Path.{◌≡◌}
use mathlib.Core.Logic.{◌≢◌}
use native.Mathlib.Omega.{arith}
use native.Mathlib.Decide.{dec_lt}
use native.Mathlib.Nat.{mod-eq_of_lt, mod-eq-sub-mod}
use embedded_middle.Prelude.Tests.{ltb, if◌then◌else◌}

pub mul-le : (b i j : ℕ) → i ≤ j → b * i ≤ b * j
mul-le b i j h = grind arith

pub mul-suc-le : (b i j : ℕ) → i < j → b * i + b ≤ b * j
mul-suc-le b i j h = grind arith

pub mul-ne : (b i j : ℕ) → 0 < b → i ≢ j → b * i ≢ b * j
mul-ne b i j h n e = ground (arith, mul-suc-le b i j, mul-suc-le b j i)

-- One turn round a ring of `m` places.
pub mod_lem : (a m : ℕ) → a < m + m → a % m ≡ (if ltb a m then a else a - m)
mod_lem a m h = elim (dec_lt a m) [
  | yes p ↦ rw (mod-eq_of_lt p) (ground arith)
  | no p ↦
      rw
        (
          mod-eq-sub-mod {n = a} {m = m} (omega arith),
          mod-eq_of_lt {n = a - m} {m = m} (omega arith),
        )
        (ground arith)
]

-- Two places of a ring of `m`, counted from the place `t`.
pub mod-ne : (t k n m : ℕ) → t < m → k < n → n < m → (t + k) % m ≢ (t + n) % m
mod-ne t k n m ht hk hn e = ground (arith, mod_lem (t + k) m, mod_lem (t + n) m)

-- ===== src/Prelude.antt =====
-- The names that the other modules share: the libraries', passed on, those of the children, and
-- the scalar types and return codes of src/em_cmndefs.h.
mod Tests
mod Arrays
mod Numbers
pub mod Bits
pub mod Int
pub use Tests.*
pub use Arrays.*
pub use Numbers.*
pub use Int.{ℤ, pos, negsuc}
pub use Prim.Native.Nat.{ℕ, zero, suc, ◌+◌, ◌-◌, ◌*◌, ◌/◌, ◌%◌, ◌^◌, ◌≤◌, ◌<◌, min}
pub use mathlib.Core.Path.{◌≡◌, refl, sym, ap, ap₂, ◌∙◌, fun_ext, subst}
pub use mathlib.Core.Logic.{◌≢◌, ◌↔◌, ◌⊎◌, inl, inr}
pub use mathlib.Core.Bool.{Bool, true, false, ◌&&◌, ◌||◌, not}
pub use mathlib.Core.Option.{Option, none, some}
pub use mathlib.Core.List.{List, [], ◌∷◌, ◌++◌, map, append_assoc}
pub use native.Mathlib.Omega.{arith}

-- `uint` is 32 bits wide.
abbrev pub u32_mod : ℕ
u32_mod = 2 ^ 32

-- `uint` addition.
abbrev pub add32 : ℕ → ℕ → ℕ
add32 a b = (a + b) % u32_mod

-- `uint` subtraction, which wraps below 0.
abbrev pub sub32 : ℕ → ℕ → ℕ
sub32 a b = (a + u32_mod - b) % u32_mod

-- `uint` multiplication.
abbrev pub mul32 : ℕ → ℕ → ℕ
mul32 a b = (a * b) % u32_mod

-- EM_SUCCESS, EM_ERROR, EM_ERR_TIMEOUT, EM_ERR_PARAM, EM_ERR_SYS and EM_ERR_OTHER.
abbrev pub em_success : ℤ
em_success = pos 0

abbrev pub em_error : ℤ
em_error = negsuc 0

abbrev pub em_err_timeout : ℤ
em_err_timeout = negsuc 1

abbrev pub em_err_param : ℤ
em_err_param = negsuc 10

abbrev pub em_err_sys : ℤ
em_err_sys = negsuc 50

abbrev pub em_err_other : ℤ
em_err_other = negsuc 98

-- EM_NO_TIMEOUT (also EM_WAIT) and EM_NO_WAIT, the two special timeouts.
abbrev pub em_no_timeout : ℤ
em_no_timeout = negsuc 0

abbrev pub em_no_wait : ℤ
em_no_wait = pos 0

-- ===== src/Time.antt =====
-- src/em_time.c: time stamps of seconds and nanoseconds. A `long` and a `time_t` are integers, since C
-- leaves their overflow undefined; an `int` result is cut to 32 bits. The clock is a parameter.
pub mod Stamps
mod Examples
use embedded_middle.Prelude.{
  ℕ, suc, ◌+◌, ◌-◌, ◌*◌, ◌/◌, ◌%◌, ◌^◌, ◌≡◌, Bool, true, false, not, Option, none, some, ℤ, pos,
  negsuc, ltb, ◌==◌, if◌then◌else◌, u32_mod, em_success, em_error,
}
use embedded_middle.Prelude.Int.{◌+ℤ◌, ◌-ℤ◌, ◌*ℤ◌, ltb_ℤ, of_bits}

-- `struct timespec`.
pub record Timespec : Type 0 where
  pub tv_sec : ℤ
  pub tv_nsec : ℤ

-- `struct timeval`.
pub record Timeval : Type 0 where
  pub tv_sec : ℤ
  pub tv_usec : ℤ

-- `em_timemng_t`.
pub record Timemng : Type 0 where
  pub is_initialized : ℕ
  pub init_time : Timespec

-- The integer of a number and a sign.
unfoldable pub neg : ℕ → ℤ
neg n = pos 0 -ℤ pos n

-- `a / n` and `a % n` for a positive `n`: the quotient is cut towards 0.
unfoldable pub div_int : ℤ → ℕ → ℤ
unfolding neg
div_int (pos a) n = pos (a / n)
div_int (negsuc a) n = neg (suc a / n)

mod_int : ℤ → ℕ → ℤ
unfolding neg
mod_int (pos a) n = pos (a % n)
mod_int (negsuc a) n = neg (suc a % n)

-- An `int` from a `long`.
unfoldable pub int_of_long : ℤ → ℤ
unfolding of_bits
int_of_long (pos n) = of_bits (n % u32_mod)
int_of_long (negsuc n) = of_bits (u32_mod - 1 - n % u32_mod)

abbrev pub nsec_per_sec : ℕ
nsec_per_sec = 1000000000

-- The carry of the three functions that add.
carry : Timespec → Timespec
carry ts =
    if not (ltb_ℤ ts.tv_nsec (pos nsec_per_sec))
    then record { tv_sec = ts.tv_sec +ℤ pos 1; tv_nsec = ts.tv_nsec -ℤ pos nsec_per_sec }
    else ts

pub timespec_add : Timespec → Timespec → Timespec
unfolding carry
timespec_add a b =
    carry (record { tv_sec = a.tv_sec +ℤ b.tv_sec; tv_nsec = a.tv_nsec +ℤ b.tv_nsec })

unfoldable pub timespec_sub : Timespec → Timespec → Timespec
timespec_sub a b =
    let sec = a.tv_sec -ℤ b.tv_sec in
    let nsec = a.tv_nsec -ℤ b.tv_nsec in
    if ltb_ℤ nsec (pos 0)
    then record { tv_sec = sec -ℤ pos 1; tv_nsec = nsec +ℤ pos nsec_per_sec }
    else record { tv_sec = sec; tv_nsec = nsec }

-- `ts` is what `em_get_timestamp` returns.
pub get_offset_timestamp : Timespec → ℤ → Timespec
unfolding carry div_int mod_int
get_offset_timestamp ts milliseconds = carry (record {
  tv_sec = ts.tv_sec +ℤ div_int milliseconds 1000;
  tv_nsec = ts.tv_nsec +ℤ mod_int milliseconds 1000 *ℤ pos 1000000;
})

unfoldable pub calc_timespec2ms : Timespec → ℤ
unfolding int_of_long div_int
calc_timespec2ms ts = int_of_long (ts.tv_sec *ℤ pos 1000 +ℤ div_int ts.tv_nsec 1000000)

pub calc_timespec : ℤ → Timespec
unfolding div_int mod_int
calc_timespec milliseconds = record {
  tv_sec = div_int milliseconds 1000;
  tv_nsec = mod_int milliseconds 1000 *ℤ pos 1000000;
}

pub calc_timeval : ℤ → Timeval
unfolding div_int mod_int
calc_timeval milliseconds = record {
  tv_sec = div_int milliseconds 1000;
  tv_usec = mod_int milliseconds 1000 *ℤ pos 1000;
}

-- `none` is a clock that fails.
unfoldable pub tick_init : Timemng → Option Timespec → ℤ × Timemng
tick_init tm none = (em_error, record tm { is_initialized = 0 })
tick_init tm (some ts) = (em_success, record { is_initialized = 1; init_time = ts })

pub get_tick_count : Timemng → Timespec → ℤ
unfolding timespec_sub int_of_long div_int
get_tick_count tm current_ts =
    let ret = timespec_sub current_ts tm.init_time in
    if tm.is_initialized == 0
    then em_error
    else int_of_long (ret.tv_sec *ℤ pos 1000 +ℤ div_int ret.tv_nsec 1000000)

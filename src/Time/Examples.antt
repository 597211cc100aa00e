-- ===== src/Time/Examples.antt =====
-- Tests of em_time.c, and the theorems about it at stamps of a few seconds.
use embedded_middle.Prelude.{ℕ, ◌<◌, ◌≡◌, refl, pos, negsuc}
use embedded_middle.Prelude.Int.{◌+ℤ◌, ◌-ℤ◌, ◌*ℤ◌}
use embedded_middle.Time.{
  Timespec, timespec_add, timespec_sub, carry, calc_timespec, nsec_per_sec, div_int, mod_int, neg,
}
use embedded_middle.Time.Stamps.{IsNormal}

abbrev at : ℕ → ℕ → Timespec
at sec nsec = record { tv_sec = pos sec; tv_nsec = pos nsec }

at-IsNormal : (sec nsec : ℕ) → nsec < nsec_per_sec → IsNormal (at sec nsec)
at-IsNormal sec nsec h = record { nsec = nsec; is_nsec = refl; nsec_lt = h }

carries : timespec_add (at 1 600000000) (at 2 500000000) ≡ at 4 100000000
unfolding timespec_add carry ◌+ℤ◌ ◌-ℤ◌
carries = refl

borrows : timespec_sub (at 3 100) (at 1 200) ≡ at 1 999999900
unfolding timespec_sub ◌+ℤ◌ ◌-ℤ◌
borrows = refl

-- A negative number of milliseconds gives a stamp that is not normal.
not_normal : calc_timespec (negsuc 1499) ≡ record { tv_sec = negsuc 0; tv_nsec = negsuc 499999999 }
unfolding calc_timespec div_int mod_int neg ◌-ℤ◌ ◌*ℤ◌
not_normal = refl

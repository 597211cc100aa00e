-- ===== src/Eventflag/Examples.antt =====
-- Tests of the event flags, and the theorems about them at flags 0b0101.
use embedded_middle.Prelude.{
  ℕ, ◌<◌, ◌≡◌, ◌≢◌, ◌⊎◌, refl, arith, true, Option, none, some, [], ◌∷◌, pos, if◌then◌else◌, ◌==◌,
  em_success, em_err_timeout, em_err_param, em_no_timeout,
}
use embedded_middle.Prelude.Bits.{bit}
use embedded_middle.Eventflag.{
  Eventflg, sets, clears, resets, act, acts, Wakeup, set_locked, reset_locked, wait_loop,
  wait_reset, wait,
}
use embedded_middle.Eventflag.Waits.{Ends, wait_lem}
use embedded_middle.Eventflag.Liveness.{wait_after_set}

abbrev five : Eventflg
five = record { flags = 5 }

-- A wait for a flag that is there takes it, and leaves the other.
takes_one :
    wait (some five) 4 em_no_timeout true [] [] ≡ some (em_success, some (record { flags = 1 }))
unfolding wait wait_loop wait_reset acts reset_locked
takes_one = refl

-- Nobody sets the flag: the call has not returned.
still_waits : wait (some five) 2 em_no_timeout true [] [] ≡ none
unfolding wait wait_loop wait_reset
still_waits = refl

abbrev late : Wakeup
late = record { others = sets 2 ∷ []; answer = 110 }

-- A flag that is set while the wait runs out of time is not seen.
too_late :
    wait (some five) 2 (pos 10) true (late ∷ []) []
    ≡ some (em_err_timeout, some (record { flags = 7 }))
unfolding wait wait_loop wait_reset acts act set_locked
too_late = refl

-- Another task takes the same flag before the reset: both calls return with success.
taken_twice :
    wait (some five) 4 em_no_timeout true [] (resets 4 ∷ [])
    ≡ some (em_success, some (record { flags = 1 }))
unfolding wait wait_loop wait_reset acts act reset_locked
taken_twice = refl

-- A flag that is set again between the end of the wait and the reset is lost.
set_is_lost :
    wait (some five) 4 em_no_timeout true [] (resets 4 ∷ sets 4 ∷ [])
    ≡ some (em_success, some (record { flags = 1 }))
unfolding wait wait_loop wait_reset acts act reset_locked set_locked
set_is_lost = refl

no_flags : wait none 4 em_no_timeout true [] [] ≡ some (em_err_param, none)
unfolding wait
no_flags = refl

returned :
    wait (some five) 4 em_no_timeout true [] (sets 4 ∷ [])
    ≡ some (em_success, some (record { flags = 1 }))
unfolding wait wait_loop wait_reset acts act set_locked reset_locked
returned = refl

two : bit 1 2 ≡ 1
unfolding bit
two = refl

wait_lem_example :
    (m : Eventflg) × Ends 4 em_no_timeout five [] em_success m
    × (((em_success ≡ em_success)
          × (true ≡ true)
          × ((i : ℕ)
              → i < 32
              → bit i 1 ≡ (if bit i 4 == 1 then 0 else bit i (acts (sets 4 ∷ []) m).flags)))
        ⊎ (((em_success ≢ em_success) ⊎ (true ≢ true)) × (record { flags = 1 } ≡ m)))
wait_lem_example =
    wait_lem 4 em_no_timeout true five (record { flags = 1 }) [] (sets 4 ∷ []) em_success
      (omega arith) returned

wait_after_set_example :
    (ef' : Option Eventflg) × (wait
        (some five)
        2
        (pos 10)
        true
        (record { others = sets 8 ∷ []; answer = 0 }
          ∷ record { others = clears ∷ sets 2 ∷ sets 8 ∷ []; answer = 0 }
          ∷ [])
        (clears ∷ [])
      ≡ some (em_success, ef'))
wait_after_set_example =
    wait_after_set 2 2 1 (pos 10) true five (record { others = sets 8 ∷ []; answer = 0 } ∷ []) []
      (clears ∷ []) (sets 8 ∷ []) (clears ∷ []) two two (refl, tt) tt

-- ===== src/Eventflag/Liveness.antt =====
-- That a task which waits for event flags gets them.
use Prim.Native.Nat.{bit_and}
use embedded_middle.Prelude.{
  ℕ, ◌≡◌, ◌≢◌, inl, inr, refl, ap, ◌∙◌, arith, Bool, true, false, List, [], ◌∷◌, ◌++◌, ℤ, some,
  Option, em_success,
}
use embedded_middle.Prelude.Bits.{bit, bit-bit_or, bit-two, bit_and-common}
use embedded_middle.Eventflag.{
  Eventflg, Other, sets, clears, resets, act, acts, Wakeup, wait_loop, wait_reset, wait, set_locked,
}
use embedded_middle.Eventflag.Waits.{IsFlagged, round_cases}

-- Every return of a wait is a success.
abbrev pub IsWoken : List Wakeup → Type 0
IsWoken [] = Unit
IsWoken (w ∷ ws) = (w.answer ≡ 0) × IsWoken ws

-- Other tasks only set flags.
abbrev pub IsSetOnly : List Other → Type 0
IsSetOnly [] = Unit
IsSetOnly (sets flags ∷ os) = IsSetOnly os
IsSetOnly (clears ∷ os) = ⊥
IsSetOnly (resets flags ∷ os) = ⊥

set_locked-IsFlagged :
    (wanted g i : ℕ) (ef : Eventflg)
    → bit i g ≡ 1
    → bit i wanted ≡ 1
    → IsFlagged wanted (set_locked ef g)
unfolding set_locked
set_locked-IsFlagged wanted g i ef hg hw =
    (i, omega (arith, bit-bit_or i ef.flags g, bit-two i ef.flags), hw)

keeps-IsFlagged :
    (wanted : ℕ) (os : List Other) (ef : Eventflg)
    → IsSetOnly os
    → IsFlagged wanted ef
    → IsFlagged wanted (acts os ef)
unfolding acts act set_locked
keeps-IsFlagged wanted [] ef o f = f
keeps-IsFlagged wanted (sets g ∷ os) ef o (i, on, hw) =
    keeps-IsFlagged wanted os (set_locked ef g) o
      (i, omega (arith, bit-bit_or i ef.flags g, bit-two i g), hw)
keeps-IsFlagged wanted (clears ∷ os) ef o f = absurd o
keeps-IsFlagged wanted (resets g ∷ os) ef o f = absurd o

acts-IsFlagged :
    (wanted g i : ℕ) (before later : List Other) (ef : Eventflg)
    → bit i g ≡ 1
    → bit i wanted ≡ 1
    → IsSetOnly later
    → IsFlagged wanted (acts (before ++ (sets g ∷ later)) ef)
unfolding acts act
acts-IsFlagged wanted g i [] later ef hg hw o =
    keeps-IsFlagged wanted later (set_locked ef g) o (set_locked-IsFlagged wanted g i ef hg hw)
acts-IsFlagged wanted g i (b ∷ before) later ef hg hw o =
    acts-IsFlagged wanted g i before later (act b ef) hg hw o

-- The loop ends where it finds a wanted flag.
flagged_loop :
    (wanted : ℕ) (timeout_ms : ℤ) (ef : Eventflg) (ws : List Wakeup)
    → bit_and ef.flags wanted ≢ 0
    → wait_loop wanted timeout_ms ef ws ≡ some (em_success, ef)
unfolding wait_loop
flagged_loop wanted timeout_ms ef [] h = ground (arith, h)
flagged_loop wanted timeout_ms ef (w ∷ ws) h = ground (arith, h)

module _ (wanted : ℕ) (timeout_ms : ℤ) (w : Wakeup) (post : List Wakeup) (woken : w.answer ≡ 0)
    (finds : (ef : Eventflg) → IsFlagged wanted (acts w.others ef)) where
  loop_ends :
      (pre : List Wakeup) (ef : Eventflg)
      → IsWoken pre
      → (m : Eventflg) × (wait_loop wanted timeout_ms ef (pre ++ (w ∷ post)) ≡ some (em_success, m))
  loop_ends [] ef a = elim (round_cases wanted timeout_ms ef w post) [
    | inl (_, r) ↦ (ef, r)
    | inr (inl (_, r)) ↦ (
      acts w.others ef,
      r
          ∙ flagged_loop wanted timeout_ms (acts w.others ef) post
              ((bit_and-common _ wanted).1 (finds ef)),
    )
    | inr (inr (inl (late, _, r))) ↦ absurd (omega (arith, late, woken))
    | inr (inr (inr (fails, _, r))) ↦ absurd (fails woken)
  ]
  loop_ends (v ∷ pre) ef a = elim (round_cases wanted timeout_ms ef v (pre ++ (w ∷ post))) [
    | inl (_, r) ↦ (ef, r)
    | inr (inl (_, r)) ↦ let (m, e) = loop_ends pre (acts v.others ef) a.1 in (m, r ∙ e)
    | inr (inr (inl (late, _, r))) ↦ absurd (omega (arith, late, a.0))
    | inr (inr (inr (fails, _, r))) ↦ absurd (fails a.0)
  ]

wait_reset_success :
    (wanted : ℕ) (reset_flag : Bool) (between : List Other) (m : Eventflg)
    → (ef' : Option Eventflg) × (wait_reset wanted reset_flag between (some (em_success, m))
        ≡ some (em_success, ef'))
unfolding wait_reset
wait_reset_success wanted true between m = (_, refl)
wait_reset_success wanted false between m = (_, refl)

-- A task that waits for event flags returns with EM_SUCCESS at the latest from the first wait that is
-- woken after another task has set a flag that it waits for, if no other task clears or resets flags
-- between the two; whatever its timeout, however many waits have been woken before that, and
-- whatever comes after.
pub wait_after_set :
    (wanted g i : ℕ) (timeout_ms : ℤ) (reset_flag : Bool) (ef : Eventflg) (pre post : List Wakeup)
    (before later between : List Other)
    → bit i g ≡ 1
    → bit i wanted ≡ 1
    → IsWoken pre
    → IsSetOnly later
    → (ef' : Option Eventflg) × (wait
          (some ef)
          wanted
          timeout_ms
          reset_flag
          (pre ++ (record { others = before ++ (sets g ∷ later); answer = 0 } ∷ post))
          between
        ≡ some (em_success, ef'))
unfolding wait
wait_after_set wanted g i timeout_ms reset_flag ef pre post before later between hg hw a o =
    let (m, e) =
      loop_ends wanted timeout_ms (record { others = before ++ (sets g ∷ later); answer = 0 }) post
        refl (λ f. acts-IsFlagged wanted g i before later f hg hw o) pre ef a in
    let (ef', e') = wait_reset_success wanted reset_flag between m in
    (ef', ap (wait_reset wanted reset_flag between) e ∙ e')

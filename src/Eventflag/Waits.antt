-- ===== src/Eventflag/Waits.antt =====
-- When em_eventflag_wait returns, and with what.
use Prim.Native.Nat.{bit_and}
use embedded_middle.Prelude.{
  ℕ, zero, suc, ◌<◌, ◌^◌, ◌≡◌, ◌≢◌, ◌⊎◌, inl, inr, refl, sym, ap, ◌∙◌, subst, Option-cases, arith,
  Bool, true, some, List, [], ◌∷◌, ℤ, ◌==◌, if◌then◌else◌, get_elem?, em_success, em_error,
  em_err_timeout, em_no_timeout,
}
use embedded_middle.Prelude.Bits.{
  bit, complement, bit-bit_and, bit-complement, bit-two, bit_and-common,
}
use embedded_middle.Eventflag.{
  Eventflg, Other, acts, Wakeup, etimedout, wait_loop, wait_reset, wait, reset_locked,
}

-- The flags have one of the wanted flags.
abbrev pub IsFlagged : ℕ → Eventflg → Type 0
IsFlagged wanted ef = (i : ℕ) × (bit i ef.flags ≡ 1) × (bit i wanted ≡ 1)

-- The flags when the first `k` waits have returned.
abbrev pub after : ℕ → List Wakeup → Eventflg → Eventflg
after zero ws ef = ef
after (suc k) [] ef = ef
after (suc k) (w ∷ ws) ef = after k ws (acts w.others ef)

-- How a call comes to its end: it finds a wanted flag, or wait number `k` has answered with an error.
pub data Ends (wanted : ℕ) (timeout_ms : ℤ) (ef : Eventflg) (ws : List Wakeup) (ret : ℤ)
    (m : Eventflg) : Type 0 where
  woken :
      (k : ℕ)
      → m ≡ after k ws ef
      → IsFlagged wanted m
      → ret ≡ em_success
      → Ends wanted timeout_ms ef ws ret m
  timed_out :
      (k : ℕ) (w : Wakeup)
      → get_elem? ws k ≡ some w
      → w.answer ≡ etimedout
      → timeout_ms ≢ em_no_timeout
      → m ≡ after (suc k) ws ef
      → ret ≡ em_err_timeout
      → Ends wanted timeout_ms ef ws ret m
  failed :
      (k : ℕ) (w : Wakeup)
      → get_elem? ws k ≡ some w
      → w.answer ≢ 0
      → (timeout_ms ≡ em_no_timeout) ⊎ (w.answer ≢ etimedout)
      → m ≡ after (suc k) ws ef
      → ret ≡ em_error
      → Ends wanted timeout_ms ef ws ret m

-- One round of the loop.
pub round_cases :
    (wanted : ℕ) (timeout_ms : ℤ) (ef : Eventflg) (w : Wakeup) (ws : List Wakeup)
    → ((bit_and ef.flags wanted ≢ 0)
        × (wait_loop wanted timeout_ms ef (w ∷ ws) ≡ some (em_success, ef)))
      ⊎ ((w.answer ≡ 0)
          × (wait_loop wanted timeout_ms ef (w ∷ ws)
              ≡ wait_loop wanted timeout_ms (acts w.others ef) ws))
      ⊎ ((w.answer ≡ etimedout)
          × (timeout_ms ≢ em_no_timeout)
          × (wait_loop wanted timeout_ms ef (w ∷ ws) ≡ some (em_err_timeout, acts w.others ef)))
      ⊎ ((w.answer ≢ 0)
          × ((timeout_ms ≡ em_no_timeout) ⊎ (w.answer ≢ etimedout))
          × (wait_loop wanted timeout_ms ef (w ∷ ws) ≡ some (em_error, acts w.others ef)))
unfolding wait_loop
round_cases wanted timeout_ms ef w ws = ground arith

-- A round later, the same end.
Ends-later :
    {wanted : ℕ} {timeout_ms : ℤ} {ef : Eventflg} {w : Wakeup} {ws : List Wakeup} {ret : ℤ}
    {m : Eventflg}
    → Ends wanted timeout_ms (acts w.others ef) ws ret m
    → Ends wanted timeout_ms ef (w ∷ ws) ret m
Ends-later (woken k at h r) = woken (suc k) at h r
Ends-later (timed_out k v e a t at r) = timed_out (suc k) v e a t at r
Ends-later (failed k v e a o at r) = failed (suc k) v e a o at r

wait_loop-Ends :
    (wanted : ℕ) (timeout_ms : ℤ) (ef : Eventflg) (ws : List Wakeup) (ret : ℤ) (m : Eventflg)
    → wait_loop wanted timeout_ms ef ws ≡ some (ret, m)
    → Ends wanted timeout_ms ef ws ret m
unfolding wait_loop
wait_loop-Ends wanted timeout_ms ef [] ret m e =
    let found : (bit_and ef.flags wanted ≢ 0) × (ret ≡ em_success) × (m ≡ ef) = ground (arith, e) in
    woken 0 found.2
      (subst (IsFlagged wanted) (sym found.2) ((bit_and-common ef.flags wanted).0 found.0)) found.1
wait_loop-Ends wanted timeout_ms ef (w ∷ ws) ret m e =
    elim (round_cases wanted timeout_ms ef w ws) [
      | inl (h, r) ↦
          let same : (ret ≡ em_success) × (m ≡ ef) = ground (arith, r, e) in
          woken 0 same.1
            (subst (IsFlagged wanted) (sym same.1) ((bit_and-common ef.flags wanted).0 h)) same.0
      | inr (inl (_, r)) ↦
          Ends-later (wait_loop-Ends wanted timeout_ms (acts w.others ef) ws ret m (sym r ∙ e))
      | inr (inr (inl (a, t, r))) ↦
          let same : (ret ≡ em_err_timeout) × (m ≡ acts w.others ef) = ground (arith, r, e) in
          timed_out 0 w refl a t same.1 same.0
      | inr (inr (inr (a, o, r))) ↦
          let same : (ret ≡ em_error) × (m ≡ acts w.others ef) = ground (arith, r, e) in
          failed 0 w refl a o same.1 same.0
    ]

pub bit-reset_locked :
    (ef : Eventflg) (flags i : ℕ)
    → flags < 2 ^ 32
    → i < 32
    → bit i (reset_locked ef flags).flags ≡ (if bit i flags == 1 then 0 else bit i ef.flags)
unfolding reset_locked
bit-reset_locked ef flags i h l = ground (
  arith,
  bit-bit_and i ef.flags (complement 32 flags),
  bit-complement i 32 flags l h,
  bit-two i flags,
  bit-two i ef.flags,
)

-- What the second time under the mutex does.
wait_reset_cases :
    (wanted : ℕ) (reset_flag : Bool) (between : List Other) (ret ret' : ℤ) (m ef' : Eventflg)
    → wait_reset wanted reset_flag between (some (ret', m)) ≡ some (ret, some ef')
    → (ret' ≡ ret)
      × (((ret ≡ em_success) × (reset_flag ≡ true) × (ef' ≡ reset_locked (acts between m) wanted))
          ⊎ (((ret ≢ em_success) ⊎ (reset_flag ≢ true)) × (ef' ≡ m)))
unfolding wait_reset
wait_reset_cases wanted reset_flag between ret ret' m ef' e = ground (arith, e)

-- A call of em_eventflag_wait that returns returns EM_SUCCESS when it finds one of the flags that it
-- waits for, EM_ERR_TIMEOUT when it has a timeout and its wait answers ETIMEDOUT, and EM_ERROR when its
-- wait answers another error, or ETIMEDOUT to a call without a timeout. After a success the call with reset_flag takes exactly the flags that
-- it waits for from what the other tasks leave between its two times under the mutex; any other
-- call leaves the flags as they are.
pub wait_lem :
    (wanted : ℕ) (timeout_ms : ℤ) (reset_flag : Bool) (ef ef' : Eventflg) (ws : List Wakeup)
    (between : List Other) (ret : ℤ)
    → wanted < 2 ^ 32
    → wait (some ef) wanted timeout_ms reset_flag ws between ≡ some (ret, some ef')
    → (m : Eventflg) × Ends wanted timeout_ms ef ws ret m
      × (((ret ≡ em_success)
            × (reset_flag ≡ true)
            × ((i : ℕ)
                → i < 32
                → bit i ef'.flags
                  ≡ (if bit i wanted == 1 then 0 else bit i (acts between m).flags)))
          ⊎ (((ret ≢ em_success) ⊎ (reset_flag ≢ true)) × (ef' ≡ m)))
unfolding wait wait_reset
wait_lem wanted timeout_ms reset_flag ef ef' ws between ret h e =
    elim (Option-cases (wait_loop wanted timeout_ms ef ws)) [
      | inl r ↦ absurd (cc (e, r))
      | inr ((ret', m), r) ↦
          let (same, cases) =
            wait_reset_cases wanted reset_flag between ret ret' m ef'
              (sym (ap (wait_reset wanted reset_flag between) r) ∙ e) in
          (
            m,
            wait_loop-Ends wanted timeout_ms ef ws ret m (r ∙ ap (λ x. some (x, m)) same),
            elim cases [
              | inl (ok, on, at) ↦
                  inl (ok, on, λ i l. rw at (bit-reset_locked (acts between m) wanted i h l))
              | inr rest ↦ inr rest
            ],
          )
    ]

-- ===== src/Timer/Numbers.antt =====
-- The numbers of timers, and what is behind them.
use embedded_middle.Prelude.{
  ℕ, ◌+◌, ◌-◌, ◌%◌, ◌<◌, ◌≡◌, ◌≢◌, ◌⊎◌, inl, inr, refl, sym, ap, ◌∙◌, arith, Bool, true, false,
  Option, none, some, Option-cases, [], ◌∷◌, ℤ, negsuc, update_self, update_ne, add32, sub32,
  u32_mod, em_success, em_error,
}
use native.Mathlib.Nat.{mod-eq_of_lt, mod-eq-sub-mod}
use embedded_middle.Time.{calc_timespec}
use embedded_middle.Mempool.{get_dataptr, get_dataidx}
use embedded_middle.Mempool.Valid.{IsValid, num_max-lt}
use embedded_middle.Mempool.Blocks.{address, try_alloc_block_lem}
use embedded_middle.Mempool.Ids.{new_id, old_id, id_of_new, restored, free_found}
use embedded_middle.Timer.{
  Timermng, TimerSetting, setting_offset, creates, sets_time, deletes, cbfunc, free_info,
  create_timer, create_block, create, delete, set_interval,
}

-- Timer number `n` has its record at `p`.
abbrev pub IsTimer : Timermng → ℕ → ℕ → Type 0
IsTimer tmrmng n p = get_dataptr tmrmng.mp_timerinfo (sub32 n 1) ≡ some p

-- The timer with its record at `p` calls back and is known as before.
abbrev pub IsSame : Timermng → Timermng → ℕ → Type 0
IsSame tmrmng tmrmng' p =
    (tmrmng'.linux_timer_id p ≡ tmrmng.linux_timer_id p)
    × (cbfunc tmrmng' (p + setting_offset) ≡ cbfunc tmrmng (p + setting_offset))

-- A number and the place of its block.
add32-one : (j m : ℕ) → j < m → m < u32_mod → (add32 1 j ≡ j + 1) × (sub32 (j + 1) 1 ≡ j)
add32-one j m h l = (
  omega (arith, mod-eq_of_lt {n = 1 + j} {m = u32_mod} (omega arith)),
  omega (
    arith,
    mod-eq-sub-mod {n = j + 1 + u32_mod - 1} {m = u32_mod} (omega arith),
    mod-eq_of_lt {n = j} {m = u32_mod} (omega arith),
    (let e : j + 1 + u32_mod - 1 - u32_mod ≡ j = omega arith in ap (λ x. x % u32_mod) e),
  ),
)

called :
    {s s' : TimerSetting} → s ≡ s' → ◌≡◌ {A = ℕ × ℕ} (s.timer_func, s.arg) (s'.timer_func, s'.arg)
called e = ap (λ s. (s.timer_func, s.arg)) e

-- With a free block, and an operating system that makes the timer and sets its time, em_timer_create
-- succeeds. The number that it writes is not 0 and that of the new timer, which calls the function of
-- the setting with its argument; every other timer keeps its number and calls what it called.
pub create_lem :
    (tmrmng : Timermng) (setting : TimerSetting) (timer : ℕ)
    → IsValid tmrmng.mp_timerinfo
    → tmrmng.mp_timerinfo.num_used < tmrmng.mp_timerinfo.num_max
    → let (ret, timer_id, tmrmng', calls) = create tmrmng setting (some timer) true in
      (ret ≡ em_success)
      × ((n p : ℕ) × (timer_id ≡ some n)
          × (0 < n)
          × IsTimer tmrmng' n p
          × (calls
              ≡ creates (p + setting_offset)
                ∷ sets_time timer (calc_timespec setting.interval_ms)
                ∷ [])
          × (tmrmng'.linux_timer_id p ≡ timer)
          × (cbfunc tmrmng' (p + setting_offset) ≡ (setting.timer_func, setting.arg))
          × ((k q : ℕ) → IsTimer tmrmng k q → IsTimer tmrmng' k q × IsSame tmrmng tmrmng' q))
      × IsValid tmrmng'.mp_timerinfo
unfolding create create_block create_timer cbfunc
create_lem tmrmng setting timer v room = elim (try_alloc_block_lem v) [
  | inr (full, r) ↦ absurd (omega arith)
  | inl (j, mp', r, t) ↦
      let p : ℕ = address tmrmng.mp_timerinfo j in
      let wraps = add32-one j tmrmng.mp_timerinfo.num_max t.in_pool (num_max-lt v) in
      rw r (
        refl,
        (
          add32 1 (get_dataidx mp' p),
          p,
          refl,
          rw (id_of_new v t, wraps.0) (omega arith),
          rw (id_of_new v t, wraps.0, wraps.1)
              (ap (get_dataptr mp') (sym (id_of_new v t)) ∙ new_id v t),
          refl,
          update_self tmrmng.linux_timer_id p timer,
          called (update_self tmrmng.setting (p + setting_offset) setting),
          λ k q e.
              (let old = old_id v t (sub32 k 1) q e in
                (
                  old.0,
                  (
                    update_ne tmrmng.linux_timer_id p q timer old.1,
                    called (
                        update_ne tmrmng.setting (p + setting_offset) (q + setting_offset) setting
                          (λ s. old.1 (omega (arith, s)))),
                  ),
                )),
        ),
        t.valid,
      )
]

-- Where the operating system does not make the timer, or does not set its time, em_timer_create fails
-- with -1 or -2 and gives back the block that it took; every timer keeps its number. The
-- operating system is not asked to delete the timer that was made and not set.
pub create_fails :
    (tmrmng : Timermng) (setting : TimerSetting) (timer : Option ℕ) (settime_ok : Bool)
    → IsValid tmrmng.mp_timerinfo
    → tmrmng.mp_timerinfo.num_used < tmrmng.mp_timerinfo.num_max
    → (timer ≡ none) ⊎ (settime_ok ≡ false)
    → let (ret, timer_id, tmrmng', calls) = create tmrmng setting timer settime_ok in
      (((timer ≡ none) × (ret ≡ em_error))
        ⊎ ((t p : ℕ) × (timer ≡ some t)
            × (ret ≡ negsuc 1)
            × (calls
                ≡ creates (p + setting_offset)
                  ∷ sets_time t (calc_timespec setting.interval_ms)
                  ∷ [])))
      × (tmrmng'.mp_timerinfo.num_used ≡ tmrmng.mp_timerinfo.num_used)
      × ((k q : ℕ) → IsTimer tmrmng k q → IsTimer tmrmng' k q)
      × IsValid tmrmng'.mp_timerinfo
unfolding create create_block create_timer free_info
create_fails tmrmng setting none ok v room h = elim (try_alloc_block_lem v) [
  | inr (full, r) ↦ absurd (omega arith)
  | inl (j, mp', r, t) ↦
      let (back, b) = restored v t in
      rw (r, b.freed) (inl (refl, refl), b.same_used, λ k q. b.kept (sub32 k 1) q, b.valid)
]
create_fails tmrmng setting (some timer) true v room (inl h) = absurd (cc h)
create_fails tmrmng setting (some timer) true v room (inr h) = absurd (cc h)
create_fails tmrmng setting (some timer) false v room h = elim (try_alloc_block_lem v) [
  | inr (full, r) ↦ absurd (omega arith)
  | inl (j, mp', r, t) ↦
      let (back, b) = restored v t in
      rw (r, b.freed)
        (
          inr (timer, address tmrmng.mp_timerinfo j, refl, refl, refl),
          b.same_used,
          λ k q. b.kept (sub32 k 1) q,
          b.valid,
        )
]

-- em_timer_delete on the number of a timer asks the operating system to delete it, gives back its block
-- whatever the answer, and returns the answer: the number has no timer after that, and every number
-- with another place keeps its timer. Any other number gives EM_ERROR, and nothing is done.
pub delete_lem :
    (tmrmng : Timermng) (n : ℕ) (answer : ℤ)
    → IsValid tmrmng.mp_timerinfo
    → ((p : ℕ) × IsTimer tmrmng n p
        × (let (ret, tmrmng', calls) = delete tmrmng n answer in
            (ret ≡ answer)
            × (calls ≡ deletes (tmrmng.linux_timer_id p) ∷ [])
            × ((q : ℕ) → ¬ IsTimer tmrmng' n q)
            × ((k q : ℕ) → sub32 k 1 ≢ sub32 n 1 → IsTimer tmrmng k q → IsTimer tmrmng' k q)
            × IsValid tmrmng'.mp_timerinfo))
      ⊎ (((p : ℕ) → ¬ IsTimer tmrmng n p) × (delete tmrmng n answer ≡ (em_error, tmrmng, [])))
unfolding delete free_info
delete_lem tmrmng n answer v = elim (Option-cases (get_dataptr tmrmng.mp_timerinfo (sub32 n 1))) [
  | inl e ↦ inr (λ p e'. cc (e, e'), rw (e, delete) refl)
  | inr (p, e) ↦
      let (back, f, d) = free_found (sub32 n 1) p v e in
      inl (
        p,
        e,
        rw (e, delete, f)
            (refl, refl, λ q e'. cc (d.gone, e'), λ k q other. d.kept (sub32 k 1) q other, d.valid),
      )
]

-- When the operating system refuses the new time of a timer, em_timer_set_interval gives back the block
-- of the timer, and its number has no timer any more, but the operating system is not asked to
-- delete the timer.
pub set_interval_refused :
    (tmrmng : Timermng) (n p : ℕ) (interval_ms : ℤ)
    → IsValid tmrmng.mp_timerinfo
    → IsTimer tmrmng n p
    → let (ret, tmrmng', calls) = set_interval tmrmng n interval_ms em_error in
      (ret ≡ negsuc 1)
      × (calls ≡ sets_time (tmrmng.linux_timer_id p) (calc_timespec interval_ms) ∷ [])
      × ((q : ℕ) → ¬ IsTimer tmrmng' n q)
      × (tmrmng'.mp_timerinfo.num_used + 1 ≡ tmrmng.mp_timerinfo.num_used)
unfolding set_interval free_info
set_interval_refused tmrmng n p interval_ms v e =
    let (back, f, d) = free_found (sub32 n 1) p v e in
    rw (e, set_interval, f) (refl, refl, λ q e'. cc (d.gone, e'), d.one_less)

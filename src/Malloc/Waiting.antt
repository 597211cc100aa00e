-- ===== src/Malloc/Waiting.antt =====
-- What em_trymalloc returns.
use embedded_middle.Prelude.{
  ℕ, ◌+◌, some-inj, not, Bool-cases, false, if◌then◌else◌, ◌≡◌, ◌⊎◌, ◌==◌, refl, sym, subst, ap,
  ◌∙◌, inl, inr, Option, none, some, List, [], ◌∷◌, ◌++◌, ℤ, em_success, em_no_wait,
}
use embedded_middle.Prelude.Int.{eqb_ℤ, ltb_ℤ}
use embedded_middle.Time.{Timespec}
use embedded_middle.Mempool.{Mpool, try_alloc_block}
use embedded_middle.Malloc.{Memmng}
use embedded_middle.Malloc.Calls.{
  malloc_locked, malloc_searched, malloc_found, find_free, block_length,
}
use embedded_middle.Malloc.Tries.{Wakeup, acts, passed_ms, try_loop, trymalloc}

found_cases :
    (mm : Memmng) (blength p : ℕ) (r : Option ℕ × Mpool)
    → ((malloc_found mm blength p r).0 ≡ em_success)
      ⊎ (eqb_ℤ (malloc_found mm blength p r).0 em_success ≡ false)
        × ((malloc_found mm blength p r).1 ≡ 0)
unfolding malloc_found
found_cases mm blength p (none, mp) = inr (refl, refl)
found_cases mm blength p (some q, mp) = inl refl

searched_cases :
    (mm : Memmng) (blength : ℕ) (r : Option ℕ)
    → ((malloc_searched mm blength r).0 ≡ em_success)
      ⊎ (eqb_ℤ (malloc_searched mm blength r).0 em_success ≡ false)
        × ((malloc_searched mm blength r).1 ≡ 0)
unfolding malloc_searched
searched_cases mm blength none = inr (refl, refl)
searched_cases mm blength (some p) =
    found_cases (record mm { mem_used_bsize = mm.mem_used_bsize + blength }) blength p
      (try_alloc_block mm.mp_used)

malloc_cases :
    (mm : Memmng) (size : ℕ)
    → ((malloc_locked mm size).0 ≡ em_success)
      ⊎ (eqb_ℤ (malloc_locked mm size).0 em_success ≡ false) × ((malloc_locked mm size).1 ≡ 0)
unfolding malloc_locked
malloc_cases mm size = elim (Bool-cases (size == 0)) [
  | inl e ↦ rw e (inr (refl, refl))
  | inr e ↦ rw e (
      searched_cases mm (block_length mm size)
        (find_free mm (block_length mm size) mm.mp_free.num_used))
]

-- A test of the clock, and the rounds behind it, where an attempt has failed.
module _ (mm : Memmng) (size : ℕ) (timeout_ms : ℤ) (start_ts : Timespec)
    (failed : eqb_ℤ (malloc_locked mm size).0 em_success ≡ false) where
  last_round : try_loop size timeout_ms start_ts [] mm ≡ (
      if eqb_ℤ timeout_ms em_no_wait
      then some ((malloc_locked mm size).1, (malloc_locked mm size).2)
      else none)
  unfolding try_loop
  last_round = rw failed refl

  next_round :
      (w : Wakeup) (ws : List Wakeup)
      → let mm' = acts w.others (malloc_locked mm size).2 in
        try_loop size timeout_ms start_ts (w ∷ ws) mm ≡ (
          if eqb_ℤ timeout_ms em_no_wait
          then some ((malloc_locked mm size).1, (malloc_locked mm size).2)
          else (if not (ltb_ℤ (passed_ms start_ts w.now) timeout_ms)
              then some ((malloc_locked mm size).1, mm')
              else try_loop size timeout_ms start_ts ws mm'))
  unfolding try_loop
  next_round w ws = rw failed refl

first_round :
    (mm : Memmng) (size : ℕ) (timeout_ms : ℤ) (start_ts : Timespec) (ws : List Wakeup)
    → (malloc_locked mm size).0 ≡ em_success
    → try_loop size timeout_ms start_ts ws mm
      ≡ some ((malloc_locked mm size).1, (malloc_locked mm size).2)
unfolding try_loop
first_round mm size timeout_ms start_ts [] e = rw e refl
first_round mm size timeout_ms start_ts (w ∷ ws) e = rw e refl

-- The wait ends after the timeout, so that no round follows.
late_round :
    (mm : Memmng) (size : ℕ) (timeout_ms : ℤ) (start_ts : Timespec) (w : Wakeup) (ws : List Wakeup)
    → ltb_ℤ (passed_ms start_ts w.now) timeout_ms ≡ false
    → (result : ℕ × Memmng) × (try_loop size timeout_ms start_ts (w ∷ ws) mm ≡ some result)
late_round mm size timeout_ms start_ts w ws late =
    let (_, ret, mm') = malloc_locked mm size in
    elim (malloc_cases mm size) [
      | inl e ↦ ((ret, mm'), first_round mm size timeout_ms start_ts (w ∷ ws) e)
      | inr (e, _) ↦ elim (Bool-cases (eqb_ℤ timeout_ms em_no_wait)) [
        | inl at_once ↦
            ((ret, mm'), next_round mm size timeout_ms start_ts e w ws ∙ rw at_once refl)
        | inr waits ↦ (
          (ret, acts w.others mm'),
          next_round mm size timeout_ms start_ts e w ws ∙ rw (waits, late) refl,
        )
      ]
    ]

-- Whatever em_malloc answers and the other tasks do, em_trymalloc returns at the latest when a wait
-- ends with at least the timeout passed.
pub trymalloc_returns :
    (mm : Memmng) (size : ℕ) (timeout_ms : ℤ) (start_ts : Timespec) (pre : List Wakeup) (w : Wakeup)
    (post : List Wakeup)
    → ltb_ℤ (passed_ms start_ts w.now) timeout_ms ≡ false
    → (result : ℕ × Memmng) × (trymalloc mm size timeout_ms start_ts (pre ++ (w ∷ post))
        ≡ some result)
unfolding trymalloc
trymalloc_returns mm size timeout_ms start_ts [] w post late =
    late_round mm size timeout_ms start_ts w post late
trymalloc_returns mm size timeout_ms start_ts (v ∷ pre) w post late =
    let (_, ret, mm') = malloc_locked mm size in
    let rest = pre ++ (w ∷ post) in
    let (result, r) =
      trymalloc_returns (acts v.others mm') size timeout_ms start_ts pre w post late in
    elim (malloc_cases mm size) [
      | inl e ↦ ((ret, mm'), first_round mm size timeout_ms start_ts (v ∷ rest) e)
      | inr (e, _) ↦ elim (Bool-cases (ltb_ℤ (passed_ms start_ts v.now) timeout_ms)) [
        | inl early ↦ elim (Bool-cases (eqb_ℤ timeout_ms em_no_wait)) [
          | inl at_once ↦
              ((ret, mm'), next_round mm size timeout_ms start_ts e v rest ∙ rw at_once refl)
          | inr waits ↦
              (result, next_round mm size timeout_ms start_ts e v rest ∙ rw (waits, early) r)
        ]
        | inr now_late ↦ late_round mm size timeout_ms start_ts v rest now_late
      ]
    ]

-- The state before the attempt that follows some failed ones and the waits behind them.
pub waited : ℕ → List Wakeup → Memmng → Memmng
waited size [] mm = mm
waited size (w ∷ ws) mm = waited size ws (acts w.others (malloc_locked mm size).2)

-- An attempt after waits that are some of the first in `ws` has succeeded with this result.
pub record IsHad (mm : Memmng) (size : ℕ) (ws : List Wakeup) (ret : ℕ) (mm' : Memmng) : Type 0 where
  pub pre : List Wakeup
  pub post : List Wakeup
  pub split : ws ≡ pre ++ post
  pub made : malloc_locked (waited size pre mm) size ≡ (em_success, ret, mm')

IsHad-at_once :
    (mm : Memmng) (size : ℕ) (ws : List Wakeup)
    → (malloc_locked mm size).0 ≡ em_success
    → IsHad mm size ws (malloc_locked mm size).1 (malloc_locked mm size).2
unfolding waited
IsHad-at_once mm size ws e = record {
  pre = [];
  post = ws;
  split = refl;
  made = ap (λ (r : ℤ). (r, (malloc_locked mm size).1, (malloc_locked mm size).2)) e;
}

IsHad-first :
    (mm : Memmng) (size : ℕ) (timeout_ms : ℤ) (start_ts : Timespec) (ws : List Wakeup) (ret : ℕ)
    (mm' : Memmng)
    → (malloc_locked mm size).0 ≡ em_success
    → try_loop size timeout_ms start_ts ws mm ≡ some (ret, mm')
    → IsHad mm size ws ret mm' ⊎ (ret ≡ 0)
IsHad-first mm size timeout_ms start_ts ws ret mm' e r = inl (
    subst (λ (q : ℕ × Memmng). IsHad mm size ws q.0 q.1)
      (some-inj (sym (first_round mm size timeout_ms start_ts ws e) ∙ r))
      (IsHad-at_once mm size ws e))

IsHad-later :
    (mm : Memmng) (size : ℕ) (w : Wakeup) (ws : List Wakeup) (ret : ℕ) (mm' : Memmng)
    → IsHad (acts w.others (malloc_locked mm size).2) size ws ret mm'
    → IsHad mm size (w ∷ ws) ret mm'
unfolding waited
IsHad-later mm size w ws ret mm' had = record {
  pre = w ∷ had.pre;
  post = had.post;
  split = ap (◌∷◌ w) had.split;
  made = had.made;
}

-- What em_trymalloc returns is either what a successful attempt of em_malloc has returned, made in the
-- state that the failed attempts and the other tasks have left after some of the waits, or
-- NULL.
pub trymalloc_lem :
    (mm : Memmng) (size : ℕ) (timeout_ms : ℤ) (start_ts : Timespec) (ws : List Wakeup) (ret : ℕ)
    (mm' : Memmng)
    → trymalloc mm size timeout_ms start_ts ws ≡ some (ret, mm')
    → IsHad mm size ws ret mm' ⊎ (ret ≡ 0)
unfolding trymalloc
trymalloc_lem mm size timeout_ms start_ts [] ret mm' r = elim (malloc_cases mm size) [
  | inl e ↦ IsHad-first mm size timeout_ms start_ts [] ret mm' e r
  | inr (failed, nothing) ↦
      let none_left = sym (last_round mm size timeout_ms start_ts failed) ∙ r in
      elim (Bool-cases (eqb_ℤ timeout_ms em_no_wait)) [
        | inl at_once ↦ inr (cc (rw at_once at none_left, nothing))
        | inr waits ↦ cc (rw waits at none_left)
      ]
]
trymalloc_lem mm size timeout_ms start_ts (w ∷ ws) ret mm' r = elim (malloc_cases mm size) [
  | inl e ↦ IsHad-first mm size timeout_ms start_ts (w ∷ ws) ret mm' e r
  | inr (failed, nothing) ↦
      let round = sym (next_round mm size timeout_ms start_ts failed w ws) ∙ r in
      elim (Bool-cases (eqb_ℤ timeout_ms em_no_wait)) [
        | inl at_once ↦ inr (cc (rw at_once at round, nothing))
        | inr waits ↦ elim (Bool-cases (ltb_ℤ (passed_ms start_ts w.now) timeout_ms)) [
          | inl early ↦
              elim (trymalloc_lem (acts w.others (malloc_locked mm size).2) size timeout_ms start_ts
                ws ret mm' (rw (waits, early) at round)) [
                  | inl had ↦ inl (IsHad-later mm size w ws ret mm' had)
                  | inr null ↦ inr null
                ]
          | inr late ↦ inr (cc (rw (waits, late) at round, nothing))
        ]
      ]
]

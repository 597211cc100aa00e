-- ===== src/Task/Threads.antt =====
-- From the thread that calls to the number of its task.
use embedded_middle.Prelude.{
  ℕ, ◌-◌, ◌%◌, ◌^◌, ◌<◌, ◌≡◌, ◌≢◌, refl, sym, ap₂, ◌∙◌, inl, inr, arith, true, ltb, if◌then◌else◌,
  u32_mod, ==_iff,
}
use native.Mathlib.Nat.{mod-eq_of_lt}
use embedded_middle.Prelude.Int.{sign_extend}
use embedded_middle.Bytes.{Agree_of_memcmp, memcmp_from}
use embedded_middle.Mempool.Valid.{IsUsed}
use embedded_middle.Gdatamng.{Datamng, get_data_index_by_func, get_key_by_func, em_dmng_key_integer}
use embedded_middle.Gdatamng
use embedded_middle.Gdatamng.Find.{Holds, keycmp_integer}
use embedded_middle.Gdatamng.Valid.{stored}
use embedded_middle.Gdatamng.ByFunc.{index_by_func_cases}
use embedded_middle.Idatamng.{key_of, of_key, sizeof_ulong, id_of, get_id_by_func}
use embedded_middle.Idatamng.Ids.{IsIdTable, of_key-key_of, of_key-Agree}
use embedded_middle.Task.{Taskmng, task_key, threadid_comparator, get_task_id}

-- The thread of the info in block `j`.
abbrev pub thread_at : Taskmng → ℕ → ℕ
thread_at tm j = of_key sizeof_ulong (stored tm.taskinfo_mng j)

-- The table is one with integer keys, and no two tasks have the same thread.
pub record IsTaskTable (tm : Taskmng) : Type 0 where
  pub table : IsIdTable tm.taskinfo_mng
  pub threads :
      (i j : ℕ)
      → IsUsed tm.taskinfo_mng.mp i
      → IsUsed tm.taskinfo_mng.mp j
      → thread_at tm i ≡ thread_at tm j
      → i ≡ j

-- The info of the task is in block `j`, and its thread is `thread_id`.
abbrev pub Runs : Taskmng → ℕ → ℕ → ℕ → Type 0
Runs tm task_id thread_id j =
    Holds tm.taskinfo_mng (key_of (task_key task_id)) j × (thread_at tm j ≡ thread_id)

pub sign_extend-u32 : (n : ℕ) → n < 2 ^ 31 → (sign_extend n ≡ n) × (n % u32_mod ≡ n)
unfolding sign_extend
sign_extend-u32 n h = (ground (arith, h), mod-eq_of_lt {n = n} {m = u32_mod} (omega arith))

-- The key that a block holds, read back.
held_id :
    (tm : Taskmng) (task_id j : ℕ)
    → IsIdTable tm.taskinfo_mng
    → task_id < 2 ^ 31
    → Holds tm.taskinfo_mng (key_of (task_key task_id)) j
    → of_key sizeof_ulong (tm.taskinfo_mng.key j) ≡ task_id
held_id tm task_id j t small h =
    let dm = tm.taskinfo_mng in
    let same : memcmp_from sizeof_ulong 0 (dm.key j) (key_of (task_key task_id)) ≡ true =
      sym (keycmp_integer (dm.key j) (key_of (task_key task_id)) sizeof_ulong)
      ∙ sym (
          ap₂ (λ k n. Gdatamng.keycmp k (dm.key j) (key_of (task_key task_id)) n) t.integers
            t.longs)
      ∙ h.1 in
    of_key-Agree sizeof_ulong (dm.key j) (key_of (task_key task_id)) (λ k l.
      Agree_of_memcmp sizeof_ulong 0 k (dm.key j) (key_of (task_key task_id)) same (omega arith) l)
    ∙ of_key-key_of (task_key task_id) (omega (arith, (sign_extend-u32 task_id small).0))
    ∙ (sign_extend-u32 task_id small).0

-- What the comparator accepts.
same_thread :
    (tm : Taskmng) (thread_id i : ℕ)
    → thread_id < 2 ^ 64
    → threadid_comparator (stored tm.taskinfo_mng i) (key_of thread_id) ≡ true
    → thread_at tm i ≡ thread_id
unfolding threadid_comparator
same_thread tm thread_id i fits accepted =
    sym ((==_iff (of_key sizeof_ulong (key_of thread_id)) (thread_at tm i)).0 accepted)
    ∙ of_key-key_of thread_id fits

accepts_own :
    (tm : Taskmng) (thread_id j : ℕ)
    → thread_id < 2 ^ 64
    → thread_at tm j ≡ thread_id
    → threadid_comparator (stored tm.taskinfo_mng j) (key_of thread_id) ≡ true
unfolding threadid_comparator
accepts_own tm thread_id j fits at =
    (==_iff (of_key sizeof_ulong (key_of thread_id)) (thread_at tm j)).1
      (of_key-key_of thread_id fits ∙ sym at)

-- An `int` that is not negative, and the invalid number, cut from a `ulong`.
cut_small :
    (n : ℕ) → n < 2 ^ 31 → (if ltb (n % u32_mod) (2 ^ 31) then n % u32_mod else u32_mod - 1) ≡ n
cut_small n h = ground (arith, sign_extend-u32 n h)

-- em_get_task_id gives the thread of a task the number of that task.
pub get_task_id_lem :
    (tm : Taskmng) (task_id thread_id j : ℕ)
    → IsTaskTable tm
    → task_id < 2 ^ 31
    → thread_id < 2 ^ 64
    → Runs tm task_id thread_id j
    → get_task_id tm thread_id ≡ task_id
unfolding get_task_id get_id_by_func get_key_by_func threadid_comparator
get_task_id_lem tm task_id thread_id j t small fits (h, at) =
    elim (index_by_func_cases tm.taskinfo_mng (key_of thread_id) threadid_comparator
      t.table.valid.pool) [
        | inr (_, nobody) ↦ cc (nobody j h.0, accepts_own tm thread_id j fits at)
        | inl (i, e, used, accepted) ↦
            let same : i ≡ j =
              t.threads i j used h.0 (same_thread tm thread_id i fits accepted ∙ sym at) in
            rw (e, id_of, same, held_id tm task_id j t.table small h) (cut_small task_id small)
      ]

-- For any other thread it returns -1.
pub get_task_id_unknown :
    (tm : Taskmng) (thread_id : ℕ)
    → IsTaskTable tm
    → thread_id < 2 ^ 64
    → ((j : ℕ) → IsUsed tm.taskinfo_mng.mp j → thread_at tm j ≢ thread_id)
    → get_task_id tm thread_id ≡ u32_mod - 1
unfolding get_task_id get_id_by_func get_key_by_func threadid_comparator
get_task_id_unknown tm thread_id t fits nobody =
    elim (index_by_func_cases tm.taskinfo_mng (key_of thread_id) threadid_comparator
      t.table.valid.pool) [
        | inr (e, _) ↦ rw (e, id_of) refl
        | inl (i, e, used, accepted) ↦
            absurd (nobody i used (same_thread tm thread_id i fits accepted))
      ]

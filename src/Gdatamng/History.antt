-- ===== src/Gdatamng/History.antt =====
-- Every sequence of additions and removals, from a new table on.
use embedded_middle.Prelude.{◌^◌, ◌≡◌, ◌≤◌, ℕ, ◌*◌, ◌<◌, List, [], ◌∷◌, pos, u32_mod, arith}
use embedded_middle.Bytes.{Bytes}
use embedded_middle.Mempool.Valid.{IsUsed}
use embedded_middle.Mempool.Valid
use embedded_middle.Gdatamng.{Datamng, get_data_cnt, create, add_data, remove_data}
use embedded_middle.Gdatamng.Valid.{IsValid}

-- The calls that change a table.
pub data Call : Type 0 where
  adds : Bytes → Bytes → Call
  removes : Bytes → Call

unfoldable pub step : Datamng → Call → Datamng
step dm (adds key bytes) = (add_data dm key bytes).1
step dm (removes key) = (remove_data dm key).1

unfoldable pub run : Datamng → List Call → Datamng
run dm [] = dm
run dm (c ∷ cs) = run (step dm c) cs

-- No key counts more than `n`.
AtMost : Datamng → ℕ → Type 0
AtMost dm n = (k : Bytes) (c : ℕ) → get_data_cnt dm k ≡ pos c → c ≤ n

-- What a call keeps: a key counts at most one more than before.
Counts : Datamng → ℕ → Type 0
Counts dm n = IsValid dm × AtMost dm n

pub create-IsValid :
    {H : Type 0} (alloc_func : ℕ → H → ℕ × H) (dm : Datamng)
    (data_size data_num key_type key_size duplicate_mode : ℕ) (h : H)
    → 0 < data_size
    → 0 < data_num
    → data_size * data_num < u32_mod
    → data_num ≤ 2 ^ 31
    → IsValid (create alloc_func dm data_size data_num key_type key_size duplicate_mode h).1
unfolding create
create-IsValid alloc_func dm ds dn t ks m h hs hn hr hf =
    let fresh = Valid.create-IsValid alloc_func dm.mp ds dn _ hs hn hr in
    record {
      pool = fresh.1;
      distinct = λ i j u w e. absurd (fresh.3 i u);
      counted = λ j u. absurd (fresh.3 j u);
      bounded = λ j u. absurd (fresh.3 j u);
      few = omega (arith, fresh.2, hf);
    }

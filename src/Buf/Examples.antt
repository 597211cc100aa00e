-- ===== src/Buf/Examples.antt =====
-- Tests of em_buf.c, and the theorems about it at a buffer of eight bytes.
use embedded_middle.Prelude.{ℕ, ◌≤◌, ◌≡◌, refl, arith, some, [], ◌∷◌}
use embedded_middle.Bytes.{Bytes, copy_at}
use embedded_middle.Buf.{Buf, append, is_null}
use embedded_middle.Prelude.Int.{sign_extend}
use embedded_middle.Buf.Append.{IsValid, contents}

abbrev holding : ℕ → Buf
holding size = record { buf_capacity = 8; data_size = size; data_ptr = some 4096; bytes = λ i. i }

holding-IsValid : (size : ℕ) → size ≤ 8 → IsValid (holding size)
holding-IsValid size h = record {
  address = 4096;
  allocated = refl;
  capacity_lt = omega arith;
  size_le = h;
}

abbrev sevens : Bytes
sevens i = 7

two_more : contents (append (holding 2) sevens 2).1 ≡ 0 ∷ 1 ∷ 7 ∷ 7 ∷ []
unfolding append is_null sign_extend copy_at
two_more = refl

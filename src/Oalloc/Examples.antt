-- ===== src/Oalloc/Examples.antt =====
-- Tests of em_oalloc.c, and the theorems about it at a memory of four units of eight bytes.
use embedded_middle.Prelude.{ℕ, ◌+◌, ◌*◌, ◌≤◌, ◌≡◌, refl, arith, false, none, some}
use embedded_middle.Oalloc.{Omemmng, create, oalloc, unit_count}
use embedded_middle.Prelude.Int.{sign_extend, leb_int}
use embedded_middle.Oalloc.Blocks.{IsValid, now, call, oalloc_disjoint}

abbrev units : ℕ → Omemmng
units next = record {
  is_malloc = false;
  mem_unit_size = 8;
  mem_total_bnum = 4;
  next_alloc_index = next;
  memory = 4096;
}

made : (create (λ (size h : ℕ). (h, h + size)) 35 8 (some 4096) 0).1 ≡ units 0
unfolding create
made = refl

-- Nine bytes take two units; then three units are too many.
nine : oalloc (units 0) 9 ≡ (some 4096, units 2)
unfolding oalloc unit_count sign_extend leb_int
nine = refl

three : oalloc (units 2) 24 ≡ (none, units 2)
unfolding oalloc unit_count sign_extend leb_int
three = refl

units-IsValid : (next : ℕ) → next ≤ 4 → IsValid (units next)
units-IsValid next h = record {
  unit_pos = omega arith;
  unit_lt = omega arith;
  next_le = h;
  room = omega arith;
  inside = omega arith;
}

oalloc_disjoint_example : (4096 ≤ 4096) × (4096 + 9 ≤ 4120) × (4120 + 7 ≤ 4096 + 8 * 4)
unfolding oalloc unit_count sign_extend leb_int
oalloc_disjoint_example =
    oalloc_disjoint {mm = units 0} {m = (oalloc (units 2) 5).1} 4096 4120 9 7
      (units-IsValid 0 (omega arith)) (omega arith) (omega arith) refl (call 5 now (omega arith))
      refl

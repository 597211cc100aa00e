-- ===== src/Oalloc/Blocks.antt =====
-- What em_oalloc hands out: blocks inside the memory, each behind the ones before.
use native.Mathlib.Decide.{dec_le}
use native.Mathlib.Nat.{mod-eq_of_lt}
use embedded_middle.Prelude.{
  ℕ, ◌+◌, ◌-◌, ◌*◌, ◌%◌, ◌^◌, ◌≤◌, ◌<◌, ◌≡◌, ◌⊎◌, inl, inr, refl, subst, ap, ap₂, ◌∙◌, arith, none,
  some, leb, if◌then◌else◌, u32_mod, mul-le, lt→leb, le→leb, mul-suc-le,
}
use embedded_middle.Oalloc.{Omemmng, u64_mod, unit_count, oalloc}
use embedded_middle.Oalloc.Count.{
  IsRounded, sign_extend_lem, leb_int_lem, sub32_lem, unit_count-IsRounded, huge_count,
}

pub record IsValid (mm : Omemmng) : Type 0 where
  pub unit_pos : 0 < mm.mem_unit_size
  pub unit_lt : mm.mem_unit_size < 2 ^ 31
  pub next_le : mm.next_alloc_index ≤ mm.mem_total_bnum
  pub room : mm.mem_unit_size * mm.mem_total_bnum < 2 ^ 31
  pub inside : mm.memory + mm.mem_unit_size * mm.mem_total_bnum < u64_mod

-- The address of a unit.
abbrev pub address : Omemmng → ℕ → ℕ
address mm i = mm.memory + mm.mem_unit_size * i

total-lt : {mm : Omemmng} → IsValid mm → mm.mem_total_bnum < 2 ^ 31
total-lt {mm} v = omega (arith, v.room, mul-le mm.mem_total_bnum 1 mm.mem_unit_size v.unit_pos)

-- The call, where the count of units is `n`.
oalloc_of_count :
    {mm : Omemmng} (size n : ℕ)
    → IsValid mm
    → unit_count mm.mem_unit_size size ≡ n
    → n < 2 ^ 31
    → oalloc mm size ≡ (
        if leb n (mm.mem_total_bnum - mm.next_alloc_index)
        then (
          some (address mm mm.next_alloc_index),
          record mm { next_alloc_index = mm.next_alloc_index + n },
        )
        else (none, mm))
unfolding oalloc
oalloc_of_count {mm} size n v e fits =
    let used : mm.mem_unit_size * mm.next_alloc_index ≤ mm.mem_unit_size * mm.mem_total_bnum =
      mul-le mm.mem_unit_size mm.next_alloc_index mm.mem_total_bnum v.next_le in
    let at : (mm.next_alloc_index * mm.mem_unit_size) % u32_mod
        ≡ mm.mem_unit_size * mm.next_alloc_index =
      mod-eq_of_lt {n = mm.next_alloc_index * mm.mem_unit_size} {m = u32_mod}
        (omega (arith, v.room))
      ∙ omega arith in
    rw
      (
        e,
        sub32_lem mm.mem_total_bnum mm.next_alloc_index v.next_le (total-lt v),
        leb_int_lem n (mm.mem_total_bnum - mm.next_alloc_index) fits (omega (arith, total-lt v)),
        at,
        sign_extend_lem (mm.mem_unit_size * mm.next_alloc_index) (omega (arith, v.room)),
        mod-eq_of_lt {n = mm.memory + mm.mem_unit_size * mm.next_alloc_index} {m = u64_mod}
            (omega (arith, v.inside)),
        mod-eq_of_lt {n = mm.next_alloc_index + n} {m = u32_mod}
            (omega (arith, fits, total-lt v, v.next_le)),
      )
      refl

module _ {mm : Omemmng} (v : IsValid mm) (size : ℕ) (hs : size < 2 ^ 31) where
  abbrev wanted : ℕ
  wanted = unit_count mm.mem_unit_size size

  wanted-IsRounded : IsRounded mm.mem_unit_size size wanted
  wanted-IsRounded = unit_count-IsRounded mm.mem_unit_size size v.unit_pos v.unit_lt hs

  oalloc-wanted : oalloc mm size ≡ (
      if leb wanted (mm.mem_total_bnum - mm.next_alloc_index)
      then (
        some (address mm mm.next_alloc_index),
        record mm { next_alloc_index = mm.next_alloc_index + wanted },
      )
      else (none, mm))
  oalloc-wanted = oalloc_of_count size wanted v refl wanted-IsRounded.fits

  -- The block starts at the first unit that has not been handed out, has as many units as the size
  -- needs and no more, and lies before the next; or the units that are left are too few, and nothing
  -- changes.
  pub oalloc_lem :
      let (ptr, mm') = oalloc mm size in
      ((n : ℕ) × (ptr ≡ some (address mm mm.next_alloc_index))
        × IsRounded mm.mem_unit_size size n
        × (mm' ≡ record mm { next_alloc_index = mm.next_alloc_index + n })
        × IsValid mm')
      ⊎ ((ptr ≡ none)
          × (mm' ≡ mm)
          × (mm.mem_unit_size * (mm.mem_total_bnum - mm.next_alloc_index) < size))
  oalloc_lem = elim (dec_le wanted (mm.mem_total_bnum - mm.next_alloc_index)) [
    | yes h ↦
        rw (oalloc-wanted, le→leb wanted (mm.mem_total_bnum - mm.next_alloc_index) h)
          (inl (
            wanted,
            refl,
            wanted-IsRounded,
            refl,
            record {
              unit_pos = v.unit_pos;
              unit_lt = v.unit_lt;
              next_le = omega (arith, v.next_le);
              room = v.room;
              inside = v.inside;
            },
          ))
    | no h ↦
        rw (oalloc-wanted, lt→leb wanted (mm.mem_total_bnum - mm.next_alloc_index) (omega arith))
          (inr (
            refl,
            refl,
            omega (
              arith,
              wanted-IsRounded.least,
              mul-suc-le mm.mem_unit_size (mm.mem_total_bnum - mm.next_alloc_index) wanted
                  (omega arith),
            ),
          ))
  ]

-- What the allocator comes to by calls with sizes that an `int` holds.
pub data Later (mm : Omemmng) : Omemmng → Type 0 where
  now : Later mm mm
  call : {m : Omemmng} (size : ℕ) → Later mm m → size < 2 ^ 31 → Later mm (oalloc m size).1

record IsAhead (mm m : Omemmng) : Type 0 where
  valid : IsValid m
  same_unit : m.mem_unit_size ≡ mm.mem_unit_size
  same_total : m.mem_total_bnum ≡ mm.mem_total_bnum
  same_memory : m.memory ≡ mm.memory
  ahead : mm.next_alloc_index ≤ m.next_alloc_index

Later-IsAhead : {mm m : Omemmng} → IsValid mm → Later mm m → IsAhead mm m
Later-IsAhead v now = record {
  valid = v;
  same_unit = refl;
  same_total = refl;
  same_memory = refl;
  ahead = omega arith;
}
Later-IsAhead {mm} v (call {m} size l h) =
    let a = Later-IsAhead v l in
    elim (oalloc_lem a.valid size h) [
      | inl (n, _, _, e, v') ↦ record {
        valid = v';
        same_unit = ap (λ (x : Omemmng). x.mem_unit_size) e ∙ a.same_unit;
        same_total = ap (λ (x : Omemmng). x.mem_total_bnum) e ∙ a.same_total;
        same_memory = ap (λ (x : Omemmng). x.memory) e ∙ a.same_memory;
        ahead = omega (arith, a.ahead, ap (λ (x : Omemmng). x.next_alloc_index) e);
      }
      | inr (_, e, _) ↦ rw e a
    ]

-- `i` units, `n` after them, and the place of the unit `j` that follows.
units_lem : (unit i n j size : ℕ) → i + n ≤ j → size ≤ unit * n → unit * i + size ≤ unit * j
units_lem unit i n j size h k =
    let step : unit * (i + n) ≤ unit * j = mul-le unit (i + n) j h in
    let split : unit * (i + n) ≡ unit * i + unit * n = grind arith in omega arith

Later-oalloc :
    (mm m : Omemmng) (size n : ℕ)
    → (oalloc mm size).1 ≡ record mm { next_alloc_index = mm.next_alloc_index + n }
    → IsAhead (oalloc mm size).1 m
    → IsAhead (record mm { next_alloc_index = mm.next_alloc_index + n }) m
Later-oalloc mm m size n e a = subst (λ (x : Omemmng). IsAhead x m) e a

-- A block and any block handed out later, by calls with sizes that an `int` holds, do not overlap,
-- and lie inside the memory.
pub oalloc_disjoint :
    {mm m : Omemmng} (p q size₁ size₂ : ℕ)
    → IsValid mm
    → size₁ < 2 ^ 31
    → size₂ < 2 ^ 31
    → (oalloc mm size₁).0 ≡ some p
    → Later (oalloc mm size₁).1 m
    → (oalloc m size₂).0 ≡ some q
    → (mm.memory ≤ p)
      × (p + size₁ ≤ q)
      × (q + size₂ ≤ mm.memory + mm.mem_unit_size * mm.mem_total_bnum)
oalloc_disjoint {mm} {m} p q size₁ size₂ v h₁ h₂ ep l eq = elim (oalloc_lem v size₁ h₁) [
  | inr (e, _, _) ↦ cc (e, ep)
  | inl (n, at, r, e, v') ↦
      (let a = Later-IsAhead v' l in
        elim (oalloc_lem a.valid size₂ h₂) [
          | inr (e', _, _) ↦ cc (e', eq)
          | inl (k, at', r', e', w) ↦
              (let b = Later-oalloc mm m size₁ n e a in
                let next : m.next_alloc_index + k ≤ mm.mem_total_bnum = omega (
                  arith,
                  w.next_le,
                  b.same_total,
                  ap (λ (x : Omemmng). x.next_alloc_index) e',
                  ap (λ (x : Omemmng). x.mem_total_bnum) e',
                ) in
                let first : p ≡ address mm mm.next_alloc_index = cc (ep, at) in
                let second : q ≡ mm.memory + mm.mem_unit_size * m.next_alloc_index =
                  cc (eq, at')
                  ∙ ap₂ (λ x y. x + y * m.next_alloc_index) b.same_memory b.same_unit in
                let enough : size₂ ≤ mm.mem_unit_size * k =
                  subst (λ u. size₂ ≤ u * k) b.same_unit r'.enough in
                (
                  omega (arith, first),
                  omega (
                    arith,
                    first,
                    second,
                    units_lem mm.mem_unit_size mm.next_alloc_index n m.next_alloc_index size₁
                        b.ahead r.enough,
                  ),
                  omega (
                    arith,
                    second,
                    units_lem mm.mem_unit_size m.next_alloc_index k mm.mem_total_bnum size₂ next
                        enough,
                  ),
                ))
        ])
]

-- A size of `2 ^ 32` units is cut to 0 when it is counted in an `int`, then rounded up: where a unit
-- is left, the call succeeds and hands out one unit.
pub oalloc_huge :
    {mm : Omemmng}
    → IsValid mm
    → mm.next_alloc_index < mm.mem_total_bnum
    → oalloc mm (u32_mod * mm.mem_unit_size) ≡ (
      some (address mm mm.next_alloc_index),
      record mm { next_alloc_index = mm.next_alloc_index + 1 },
    )
oalloc_huge {mm} v h =
    oalloc_of_count (u32_mod * mm.mem_unit_size) 1 v
      (huge_count mm.mem_unit_size v.unit_pos v.unit_lt) (omega arith)
    ∙ rw (le→leb 1 (mm.mem_total_bnum - mm.next_alloc_index) (omega arith)) refl

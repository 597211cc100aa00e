-- ===== src/Time/Stamps.antt =====
-- Sums and differences of time stamps, and milliseconds as time stamps.
use native.Mathlib.Nat.{mod-eq_of_lt}
use native.Mathlib.Decide.{dec_lt}
use embedded_middle.Prelude.{
  ℕ, ◌+◌, ◌-◌, ◌*◌, ◌/◌, ◌%◌, ◌^◌, ◌≤◌, ◌<◌, ◌≡◌, refl, subst, ap, ap₂, sym, ◌∙◌, arith, ℤ, pos,
  u32_mod, if◌then◌else◌, ltb, em_error, ◌==◌, lt→ltb, le→ltb,
}
use embedded_middle.Prelude.Int.{
  of_bits, ◌+ℤ◌, ◌-ℤ◌, ◌*ℤ◌, ltb_ℤ, pos_part, neg_part, +ℤ_parts, -ℤ_parts, eq_of_parts,
}
use embedded_middle.Time.{
  Timespec, Timemng, timespec_add, timespec_sub, carry, calc_timespec, calc_timespec2ms,
  get_offset_timestamp, get_tick_count, nsec_per_sec, div_int, mod_int, int_of_long,
}

-- The nanoseconds are those of one second.
pub record IsNormal (ts : Timespec) : Type 0 where
  pub nsec : ℕ
  pub is_nsec : ts.tv_nsec ≡ pos nsec
  pub nsec_lt : nsec < nsec_per_sec

-- The time in nanoseconds.
unfoldable pub total : Timespec → ℤ
total ts = ts.tv_sec *ℤ pos nsec_per_sec +ℤ ts.tv_nsec

total_parts :
    (ts : Timespec)
    → pos_part (total ts) + neg_part ts.tv_sec * nsec_per_sec + neg_part ts.tv_nsec
      ≡ neg_part (total ts) + pos_part ts.tv_sec * nsec_per_sec + pos_part ts.tv_nsec
unfolding total ◌*ℤ◌ ◌+ℤ◌
total_parts ts = ground arith

pos_add : (m n : ℕ) → pos m +ℤ pos n ≡ pos (m + n)
unfolding ◌+ℤ◌
pos_add m n = ground arith

pos_sub : (m n : ℕ) → n ≤ m → pos m -ℤ pos n ≡ pos (m - n)
unfolding ◌-ℤ◌
pos_sub m n h = ground arith

abbrev stamp : ℤ → ℕ → Timespec
stamp sec nsec = record { tv_sec = sec; tv_nsec = pos nsec }

stamp-IsNormal : (sec : ℤ) (nsec : ℕ) → nsec < nsec_per_sec → IsNormal (stamp sec nsec)
stamp-IsNormal sec nsec h = record { nsec = nsec; is_nsec = refl; nsec_lt = h }

-- A carry from less than two seconds.
carry_lem :
    (sec : ℤ) (nsec : ℕ)
    → nsec < nsec_per_sec + nsec_per_sec
    → IsNormal (carry (stamp sec nsec)) × (total (carry (stamp sec nsec)) ≡ total (stamp sec nsec))
unfolding carry
carry_lem sec nsec h = elim (dec_lt nsec nsec_per_sec) [
  | yes small ↦
      rw (lt→ltb (nsec + 0) (nsec_per_sec + 0) (omega arith)) (stamp-IsNormal sec nsec small, refl)
  | no large ↦
      rw
        (
          le→ltb (nsec + 0) (nsec_per_sec + 0) (omega arith),
          pos_sub nsec nsec_per_sec (omega arith),
        )
        (
          stamp-IsNormal (sec +ℤ pos 1) (nsec - nsec_per_sec) (omega arith),
          eq_of_parts _ _ (
              omega (
                arith,
                total_parts (stamp sec nsec),
                total_parts (stamp (sec +ℤ pos 1) (nsec - nsec_per_sec)),
                +ℤ_parts sec (pos 1),
              )),
        )
]

stamp_parts :
    {ts : Timespec} (n : IsNormal ts)
    → pos_part (total ts) + neg_part ts.tv_sec * nsec_per_sec
      ≡ neg_part (total ts) + pos_part ts.tv_sec * nsec_per_sec + n.nsec
stamp_parts {ts} n = omega (arith, total_parts ts, ap pos_part n.is_nsec, ap neg_part n.is_nsec)

-- The sum of two normal stamps is normal, and its time is the sum of their times.
pub timespec_add_lem :
    (a b : Timespec)
    → IsNormal a
    → IsNormal b
    → IsNormal (timespec_add a b) × (total (timespec_add a b) ≡ total a +ℤ total b)
unfolding timespec_add
timespec_add_lem a b na nb =
    let sum =
      carry_lem (a.tv_sec +ℤ b.tv_sec) (na.nsec + nb.nsec)
        (omega (arith, na.nsec_lt, nb.nsec_lt)) in
    let e : a.tv_nsec +ℤ b.tv_nsec ≡ pos (na.nsec + nb.nsec) =
      ap₂ (λ x y. x +ℤ y) na.is_nsec nb.is_nsec ∙ pos_add na.nsec nb.nsec in
    rw e (
      sum.0,
      sum.1
          ∙ eq_of_parts _ _ (
              omega (
                arith,
                total_parts (stamp (a.tv_sec +ℤ b.tv_sec) (na.nsec + nb.nsec)),
                stamp_parts na,
                stamp_parts nb,
                +ℤ_parts (total a) (total b),
                +ℤ_parts a.tv_sec b.tv_sec,
              )),
    )

sub_borrow :
    (m n : ℕ)
    → m < n
    → n ≤ nsec_per_sec + m
    → (pos m -ℤ pos n) +ℤ pos nsec_per_sec ≡ pos (nsec_per_sec + m - n)
unfolding ◌-ℤ◌ ◌+ℤ◌
sub_borrow m n h k = ground arith

sub_negative : (m n : ℕ) → ltb_ℤ (pos m -ℤ pos n) (pos 0) ≡ ltb m n
unfolding ◌-ℤ◌
sub_negative m n = ground arith

sub_stamps :
    (sa sb : ℤ) (m n : ℕ)
    → m < nsec_per_sec
    → n < nsec_per_sec
    → let d = timespec_sub (stamp sa m) (stamp sb n) in
      IsNormal d × (total d ≡ total (stamp sa m) -ℤ total (stamp sb n))
unfolding timespec_sub
sub_stamps sa sb m n hm hn = elim (dec_lt m n) [
  | yes borrow ↦
      rw (sub_negative m n, lt→ltb m n borrow, sub_borrow m n borrow (omega arith))
        (
          stamp-IsNormal (sa -ℤ sb -ℤ pos 1) (nsec_per_sec + m - n) (omega arith),
          eq_of_parts _ _ (
              omega (
                arith,
                total_parts (stamp (sa -ℤ sb -ℤ pos 1) (nsec_per_sec + m - n)),
                total_parts (stamp sa m),
                total_parts (stamp sb n),
                -ℤ_parts (total (stamp sa m)) (total (stamp sb n)),
                -ℤ_parts sa sb,
                -ℤ_parts (sa -ℤ sb) (pos 1),
              )),
        )
  | no plain ↦
      rw (sub_negative m n, le→ltb m n (omega arith), pos_sub m n (omega arith))
        (
          stamp-IsNormal (sa -ℤ sb) (m - n) (omega arith),
          eq_of_parts _ _ (
              omega (
                arith,
                total_parts (stamp (sa -ℤ sb) (m - n)),
                total_parts (stamp sa m),
                total_parts (stamp sb n),
                -ℤ_parts (total (stamp sa m)) (total (stamp sb n)),
                -ℤ_parts sa sb,
              )),
        )
]

-- A normal stamp, from its two parts.
stamp_lem : {ts : Timespec} (n : IsNormal ts) → stamp ts.tv_sec n.nsec ≡ ts
stamp_lem {ts} n = ap (λ x. record { tv_sec = ts.tv_sec; tv_nsec = x }) (sym n.is_nsec)

-- The difference of two normal stamps is normal, and its time is the difference of their times.
pub timespec_sub_lem :
    (a b : Timespec)
    → IsNormal a
    → IsNormal b
    → IsNormal (timespec_sub a b) × (total (timespec_sub a b) ≡ total a -ℤ total b)
timespec_sub_lem a b na nb =
    subst (λ x. IsNormal (timespec_sub x b) × (total (timespec_sub x b) ≡ total x -ℤ total b))
      (stamp_lem na)
      (subst
        (λ y.
          IsNormal (timespec_sub (stamp a.tv_sec na.nsec) y)
          × (total (timespec_sub (stamp a.tv_sec na.nsec) y)
              ≡ total (stamp a.tv_sec na.nsec) -ℤ total y))
        (stamp_lem nb) (sub_stamps a.tv_sec b.tv_sec na.nsec nb.nsec na.nsec_lt nb.nsec_lt))

pos_mul : (m n : ℕ) → pos m *ℤ pos n ≡ pos (m * n)
unfolding ◌*ℤ◌
pos_mul m n = ground arith

int_of_long_lem : (n : ℕ) → n < 2 ^ 31 → int_of_long (pos n) ≡ pos n
unfolding int_of_long of_bits
int_of_long_lem n h = ground (arith, mod-eq_of_lt {n = n} {m = u32_mod})

-- A number of milliseconds that an `int` holds and that is not negative becomes a normal stamp, which
-- gives the number back.
pub calc_timespec_lem :
    (milliseconds : ℕ)
    → milliseconds < 2 ^ 31
    → IsNormal (calc_timespec (pos milliseconds))
      × (calc_timespec2ms (calc_timespec (pos milliseconds)) ≡ pos milliseconds)
unfolding calc_timespec calc_timespec2ms div_int mod_int
calc_timespec_lem ms h =
    let rest : ms % 1000 * 1000000 / 1000000 ≡ ms % 1000 = omega arith in
    let back : ms / 1000 * 1000 + ms % 1000 ≡ ms = omega arith in
    rw (pos_mul (ms % 1000) 1000000) (
      stamp-IsNormal (pos (ms / 1000)) (ms % 1000 * 1000000) (omega arith),
      rw (pos_mul (ms / 1000) 1000, rest, pos_add (ms / 1000 * 1000) (ms % 1000), back)
          (int_of_long_lem ms h),
    )

-- A normal stamp moved on by a number of milliseconds that is not negative is normal, and later by
-- that time.
pub get_offset_timestamp_lem :
    (ts : Timespec) (milliseconds : ℕ)
    → IsNormal ts
    → let moved = get_offset_timestamp ts (pos milliseconds) in
      IsNormal moved × (total moved ≡ total ts +ℤ pos (milliseconds * 1000000))
unfolding get_offset_timestamp div_int mod_int
get_offset_timestamp_lem ts ms n =
    let sec = ts.tv_sec +ℤ pos (ms / 1000) in
    let moved = carry_lem sec (n.nsec + ms % 1000 * 1000000) (omega (arith, n.nsec_lt)) in
    let e : ts.tv_nsec +ℤ pos (ms % 1000) *ℤ pos 1000000 ≡ pos (n.nsec + ms % 1000 * 1000000) =
      ap₂ (λ x y. x +ℤ y) n.is_nsec (pos_mul (ms % 1000) 1000000)
      ∙ pos_add n.nsec (ms % 1000 * 1000000) in
    rw e (
      moved.0,
      moved.1
          ∙ eq_of_parts _ _ (
              omega (
                arith,
                total_parts (stamp sec (n.nsec + ms % 1000 * 1000000)),
                stamp_parts n,
                +ℤ_parts (total ts) (pos (ms * 1000000)),
                +ℤ_parts ts.tv_sec (pos (ms / 1000)),
              )),
    )

split_total :
    {ts : Timespec} (n : IsNormal ts) (e : ℕ)
    → total ts ≡ pos e
    → (ts.tv_sec ≡ pos (e / nsec_per_sec)) × (n.nsec ≡ e % nsec_per_sec)
split_total {ts} n e h = (
  eq_of_parts _ _ (omega (arith, stamp_parts n, ap pos_part h, ap neg_part h, n.nsec_lt)),
  omega (arith, stamp_parts n, ap pos_part h, ap neg_part h, n.nsec_lt),
)

diff_pos : (x y : ℤ) (e : ℕ) → x ≡ y +ℤ pos e → x -ℤ y ≡ pos e
diff_pos x y e h =
    eq_of_parts _ _ (omega (arith, ap pos_part h, ap neg_part h, -ℤ_parts x y, +ℤ_parts y (pos e)))

-- Some time after the start, which an `int` holds in milliseconds, em_get_tick_count gives it in whole
-- milliseconds; before em_tick_init it gives -1.
pub get_tick_count_lem :
    (tm : Timemng) (current_ts : Timespec) (e : ℕ)
    → IsNormal tm.init_time
    → IsNormal current_ts
    → total current_ts ≡ total tm.init_time +ℤ pos e
    → e < 2 ^ 31 * 1000000
    → get_tick_count tm current_ts
      ≡ (if tm.is_initialized == 0 then em_error else pos (e / 1000000))
unfolding get_tick_count div_int
get_tick_count_lem tm now e ni nn h small =
    let d = timespec_sub_lem now tm.init_time nn ni in
    let s = split_total d.0 e (d.1 ∙ diff_pos (total now) (total tm.init_time) e h) in
    let ms : e / nsec_per_sec * 1000 + e % nsec_per_sec / 1000000 ≡ e / 1000000 = omega arith in
    let nsec : (timespec_sub now tm.init_time).tv_nsec ≡ pos (e % nsec_per_sec) =
      d.0.is_nsec ∙ ap pos s.1 in
    rw
      (
        s.0,
        nsec,
        pos_mul (e / nsec_per_sec) 1000,
        pos_add (e / nsec_per_sec * 1000) (e % nsec_per_sec / 1000000),
        ms,
        int_of_long_lem (e / 1000000) (omega arith),
      )
      refl

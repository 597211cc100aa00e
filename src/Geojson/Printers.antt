-- ===== src/Geojson/Printers.antt =====
-- What a printer leaves in the buffer, and that one printer after another prints one text after
-- another.
use native.Mathlib.Decide.{dec_lt}
use embedded_middle.Prelude.{
  ℕ, zero, suc, ◌+◌, ◌-◌, ◌≤◌, ◌<◌, ◌≡◌, ◌⊎◌, inl, inr, refl, sym, ap, ap₂, ◌∙◌, arith, none, some,
  List, [], ◌∷◌, ◌++◌, length, length-append, slice, slice-ext, update, update_self, update_ne,
}
use embedded_middle.Geojson.{
  Buffer, Printer, put, take, snprintf, checked, print, then_print, print_more, test_size, advance,
}

-- Nothing outside the `n` places from `dst` on has changed.
abbrev pub Within : Buffer → Buffer → ℕ → ℕ → Type 0
Within buf buf' dst n = (i : ℕ) → (i < dst) ⊎ (dst + n ≤ i) → buf' i ≡ buf i

-- The text is at `dst`, with its end behind it, and nothing else has changed.
pub record Printed (buf : Buffer) (dst : ℕ) (text : List ℕ) (buf' : Buffer) : Type 0 where
  pub here : slice buf' dst (length text) ≡ text
  pub ended : buf' (dst + length text) ≡ 0
  pub frame : Within buf buf' dst (length text + 1)

-- The printer prints the text if it and its end fit in the buffer; if they do not it returns -1, and
-- writes nothing outside the buffer.
abbrev pub PrintsAt : Printer → List ℕ → Buffer → ℕ → ℕ → Type 0
PrintsAt p text buf dst len =
    ((length text < len)
      × ((buf' : Buffer) × (p buf dst len ≡ (some (length text), buf'))
          × Printed buf dst text buf'))
    ⊎ ((len ≤ length text)
        × ((buf' : Buffer) × (p buf dst len ≡ (none, buf')) × Within buf buf' dst len))

abbrev pub Prints : Printer → List ℕ → Type 0
Prints p text = (buf : Buffer) (dst len : ℕ) → PrintsAt p text buf dst len

put-below : (cs : List ℕ) (at i : ℕ) (buf : Buffer) → i < at → put cs at buf i ≡ buf i
unfolding put
put-below [] at i buf h = update_ne buf at i 0 (λ e. omega (arith, e))
put-below (c ∷ cs) at i buf h =
    put-below cs (at + 1) i (update buf at c) (omega arith)
    ∙ update_ne buf at i c (λ e. omega (arith, e))

put-above : (cs : List ℕ) (at i : ℕ) (buf : Buffer) → at + length cs < i → put cs at buf i ≡ buf i
unfolding put
put-above [] at i buf h = update_ne buf at i 0 (λ e. omega (arith, e))
put-above (c ∷ cs) at i buf h =
    put-above cs (at + 1) i (update buf at c) (omega arith)
    ∙ update_ne buf at i c (λ e. omega (arith, e))

put-end : (cs : List ℕ) (at : ℕ) (buf : Buffer) → put cs at buf (at + length cs) ≡ 0
unfolding put
put-end [] at buf = ap (update buf at 0) {x = at + 0} {y = at} (omega arith) ∙ update_self buf at 0
put-end (c ∷ cs) at buf =
    ap (put cs (at + 1) (update buf at c)) {x = at + suc (length cs)} {y = at + 1 + length cs}
      (omega arith)
    ∙ put-end cs (at + 1) (update buf at c)

slice-put : (cs : List ℕ) (at : ℕ) (buf : Buffer) → slice (put cs at buf) at (length cs) ≡ cs
unfolding put
slice-put [] at buf = refl
slice-put (c ∷ cs) at buf =
    ap₂ ◌∷◌ (put-below cs (at + 1) at (update buf at c) (omega arith) ∙ update_self buf at c)
      (slice-put cs (at + 1) (update buf at c))

pub put-Printed : (cs : List ℕ) (at : ℕ) (buf : Buffer) → Printed buf at cs (put cs at buf)
put-Printed cs at buf = record {
  here = slice-put cs at buf;
  ended = put-end cs at buf;
  frame = λ i out. elim out [
    | inl below ↦ put-below cs at i buf below
    | inr above ↦ put-above cs at i buf (omega arith)
  ];
}

take_all : (n : ℕ) (cs : List ℕ) → length cs ≤ n → take n cs ≡ cs
unfolding take
take_all zero [] h = refl
take_all zero (c ∷ cs) h = absurd (omega arith)
take_all (suc n) [] h = refl
take_all (suc n) (c ∷ cs) h = ap (◌∷◌ c) (take_all n cs (omega arith))

length-take : (n : ℕ) (cs : List ℕ) → length (take n cs) ≤ n
unfolding take
length-take zero cs = omega arith
length-take (suc n) [] = omega arith
length-take (suc n) (c ∷ cs) = omega (arith, length-take n cs)

checked_fits :
    (size len : ℕ) (buf : Buffer) → 0 < size → size < len → checked size len buf ≡ (some size, buf)
unfolding checked
checked_fits size len buf p h = ground arith

checked_long : (size len : ℕ) (buf : Buffer) → len ≤ size → checked size len buf ≡ (none, buf)
unfolding checked
checked_long size len buf h = ground arith

pub print-Prints : (text : List ℕ) → 0 < length text → Prints (print text) text
unfolding print snprintf
print-Prints text pos buf dst zero =
    inr (omega arith, (buf, checked_long (length text) 0 buf (omega arith), λ i out. refl))
print-Prints text pos buf dst (suc n) = elim (dec_lt (length text) (suc n)) [
  | yes fits ↦ inl (
    fits,
    (
      put text dst buf,
      rw (take_all n text (omega arith))
          (checked_fits (length text) (suc n) (put text dst buf) pos fits),
      put-Printed text dst buf,
    ),
  )
  | no long ↦ inr (
    omega arith,
    (
      put (take n text) dst buf,
      checked_long (length text) (suc n) (put (take n text) dst buf) (omega arith),
      λ i out.
          (put-Printed (take n text) dst buf).frame i (ground (arith, out, length-take n text)),
    ),
  )
]

pub slice-append : (f : ℕ → ℕ) (i m n : ℕ) → slice f i (m + n) ≡ slice f i m ++ slice f (i + m) n
slice-append f i zero n = ap₂ (λ j k. slice f j k) (omega arith) (omega arith)
slice-append f i (suc m) n =
    ap (slice f i) {x = suc m + n} {y = suc (m + n)} (omega arith)
    ∙ ap (◌∷◌ (f i)) (
        slice-append f (i + 1) m n
        ∙ ap (λ j. slice f (i + 1) m ++ slice f j n) {x = i + 1 + m} {y = i + suc m} (omega arith))

-- One text behind another.
Printed-append :
    (buf buf₁ buf₂ : Buffer) (dst : ℕ) (t u : List ℕ)
    → Printed buf dst t buf₁
    → Printed buf₁ (dst + length t) u buf₂
    → Printed buf dst (t ++ u) buf₂
Printed-append buf buf₁ buf₂ dst t u p q = record {
  here =
      ap (slice buf₂ dst) (length-append t u)
      ∙ slice-append buf₂ dst (length t) (length u)
      ∙ ap₂ ◌++◌ (slice-ext buf₂ buf₁ dst (length t) (λ k a b. q.frame k (inl b)) ∙ p.here) q.here;
  ended =
      ap buf₂ {x = dst + length (t ++ u)} {y = dst + length t + length u}
        (omega (arith, length-append t u))
      ∙ q.ended;
  frame = λ i out.
      q.frame i (ground (arith, out, length-append t u))
      ∙ p.frame i (ground (arith, out, length-append t u));
}

pub then_print-Prints :
    (p q : Printer) (t u : List ℕ)
    → Prints p t
    → Prints q u
    → 0 < length u
    → Prints (then_print p q) (t ++ u)
unfolding then_print print_more test_size advance
then_print-Prints p q t u hp hq pos buf dst len = elim (hp buf dst len) [
  | inr (long, (b, e, w)) ↦ inr (omega (arith, length-append t u), (b, rw e refl, w))
  | inl (fits, (b, e, printed)) ↦ elim (hq b (dst + length t) (len - length t)) [
    | inr (long, (b', e', w)) ↦ inr (
      omega (arith, length-append t u),
      (
        b',
        rw (e, print_more, e') refl,
        λ i out. w i (ground (arith, out)) ∙ printed.frame i (ground (arith, out)),
      ),
    )
    | inl (fits', (b', e', printed')) ↦ inl (
      omega (arith, length-append t u),
      (
        b',
        rw (e, print_more, e', test_size, checked_fits (length u) (len - length t) b' pos fits')
            (ap (λ n. (some n, b')) (sym (length-append t u))),
        Printed-append buf b b' dst t u printed printed',
      ),
    )
  ]
]

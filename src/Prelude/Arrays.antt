-- ===== src/Prelude/Arrays.antt =====
-- C arrays. A table that the code indexes is a function from the index; the invariants of its
-- owner bound each index that is read or written. Sequences are lists with native indices.
use Prim.Native.Nat.{ℕ, zero, suc, ◌+◌, ◌-◌, ◌≤◌, ◌<◌}
use native.Mathlib.Decide.{ℕ_discrete}
use mathlib.Core.Path.{◌≡◌, fun_ext, refl, ap, ap₂, ◌∙◌}
use mathlib.Core.Logic.{◌≢◌}
use mathlib.Core.List.{List, [], ◌∷◌, ◌++◌}
use mathlib.Core.Option.{Option, none, some}
use native.Mathlib.Omega.{arith}
use embedded_middle.Prelude.Tests.{◌==◌, if◌then◌else◌}

-- `f[i] = v`.
abbrev pub update {ℓ} : {A : Type ℓ} → (ℕ → A) → ℕ → A → ℕ → A
update f i v j = if j == i then v else f j

pub update_self {ℓ} : {A : Type ℓ} (f : ℕ → A) (i : ℕ) (v : A) → update f i v i ≡ v
update_self f i v = ground arith

pub update_ne {ℓ} : {A : Type ℓ} (f : ℕ → A) (i j : ℕ) (v : A) → j ≢ i → update f i v j ≡ f j
update_ne f i j v h = ground arith

pub update_same {ℓ} : {A : Type ℓ} (f : ℕ → A) (i : ℕ) → update f i (f i) ≡ f
update_same f i = fun_ext (λ j. elim (ℕ_discrete j i) [
  | yes e ↦ rw e (update_self f i (f i))
  | no n ↦ update_ne f i j (f i) n
])

module _ {ℓ} {A : Type ℓ} where
  abbrev pub length : List A → ℕ
  length [] = 0
  length (x ∷ xs) = suc (length xs)

  abbrev pub get_elem? : List A → ℕ → Option A
  get_elem? [] i = none
  get_elem? (x ∷ xs) zero = some x
  get_elem? (x ∷ xs) (suc i) = get_elem? xs i

  pub length-append : (xs ys : List A) → length (xs ++ ys) ≡ length xs + length ys
  length-append [] ys = omega arith
  length-append (x ∷ xs) ys = omega (arith, length-append xs ys)

  -- The list of `f i, f (i + 1), …`, `n` entries long.
  abbrev pub slice : (ℕ → A) → ℕ → ℕ → List A
  slice f i zero = []
  slice f i (suc n) = f i ∷ slice f (i + 1) n

  pub length-slice : (f : ℕ → A) (i n : ℕ) → length (slice f i n) ≡ n
  length-slice f i zero = refl
  length-slice f i (suc n) = omega (arith, length-slice f (i + 1) n)

module _ {ℓ} {A : Type ℓ} where
  pub drop : ℕ → List A → List A
  drop zero xs = xs
  drop (suc n) [] = []
  drop (suc n) (x ∷ xs) = drop n xs

  pub get_elem?-slice :
      (f : ℕ → A) (i n k : ℕ) → k < n → get_elem? (slice f i n) k ≡ some (f (i + k))
  get_elem?-slice f i zero k h = absurd (omega arith)
  get_elem?-slice f i (suc n) zero h = ap (λ j. some (f j)) (omega arith)
  get_elem?-slice f i (suc n) (suc k) h =
      get_elem?-slice f (i + 1) n k (omega arith) ∙ ap (λ j. some (f j)) (omega arith)

  pub get_elem?-slice_out : (f : ℕ → A) (i n k : ℕ) → n ≤ k → get_elem? (slice f i n) k ≡ none
  get_elem?-slice_out f i zero k h = refl
  get_elem?-slice_out f i (suc n) zero h = absurd (omega arith)
  get_elem?-slice_out f i (suc n) (suc k) h = get_elem?-slice_out f (i + 1) n k (omega arith)

  pub slice-snoc : (f : ℕ → A) (i n : ℕ) → slice f i (suc n) ≡ slice f i n ++ (f (i + n) ∷ [])
  slice-snoc f i zero = ap (λ j. f j ∷ []) (omega arith)
  slice-snoc f i (suc n) =
      ap (◌∷◌ (f i))
        (slice-snoc f (i + 1) n ∙ ap (λ j. slice f (i + 1) n ++ (f j ∷ [])) (omega arith))

  pub slice-ext :
      (f g : ℕ → A) (i n : ℕ)
      → ((k : ℕ) → i ≤ k → k < i + n → f k ≡ g k)
      → slice f i n ≡ slice g i n
  slice-ext f g i zero h = refl
  slice-ext f g i (suc n) h =
      ap₂ ◌∷◌ (h i (omega arith) (omega arith))
        (slice-ext f g (i + 1) n (λ k a b. h k (omega arith) (omega arith)))

  pub slice-shift : (f : ℕ → A) (d i n : ℕ) → slice f (i + d) n ≡ slice (λ k. f (k + d)) i n
  slice-shift f d i zero = refl
  slice-shift f d i (suc n) =
      ap (◌∷◌ (f (i + d))) (ap (λ j. slice f j n) (omega arith) ∙ slice-shift f d (i + 1) n)

  pub drop-slice : (f : ℕ → A) (d i n : ℕ) → drop d (slice f i n) ≡ slice f (i + d) (n - d)
  unfolding drop
  drop-slice f zero i n = ap₂ (λ j m. slice f j m) (omega arith) (omega arith)
  drop-slice f (suc d) i zero = ap (slice f (i + suc d)) {x = 0} {y = 0 - suc d} (omega arith)
  drop-slice f (suc d) i (suc n) =
      drop-slice f d (i + 1) n ∙ ap₂ (λ j m. slice f j m) (omega arith) (omega arith)

pub some-inj {ℓ} : {A : Type ℓ} {x y : A} → some x ≡ some y → x ≡ y
some-inj e = cc e

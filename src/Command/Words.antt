-- ===== src/Command/Words.antt =====
-- The words of a command line.
use embedded_middle.Prelude.{
  ℕ, zero, suc, ◌≤◌, ◌<◌, ◌≡◌, refl, sym, ap, ◌∙◌, arith, true, false, List, [], ◌∷◌, ◌++◌, length,
}
use embedded_middle.Command.{
  is_space, skip_spaces, read_word, scan_from, scan_words, read_line, word_length_max, word_num_max,
}

abbrev pub IsSpaceless : List ℕ → Type 0
IsSpaceless [] = Unit
IsSpaceless (c ∷ cs) = (is_space c ≡ false) × IsSpaceless cs

-- A word that can be read back.
pub record IsWord (w : List ℕ) : Type 0 where
  pub spaceless : IsSpaceless w
  pub nonempty : 0 < length w
  pub short : length w ≤ word_length_max

abbrev pub AreWords : List (List ℕ) → Type 0
AreWords [] = Unit
AreWords (w ∷ ws) = IsWord w × AreWords ws

-- Words with a space between each two.
abbrev pub line : List ℕ → List (List ℕ) → List ℕ
line w [] = w
line w (x ∷ xs) = w ++ (32 ∷ line x xs)

-- What stands behind a word.
abbrev EndsWord : List ℕ → Type 0
EndsWord [] = Unit
EndsWord (c ∷ cs) = is_space c ≡ true

append_nil : (w : List ℕ) → w ++ [] ≡ w
append_nil [] = refl
append_nil (c ∷ cs) = ap (◌∷◌ c) (append_nil cs)

space_lem : is_space 32 ≡ true
unfolding is_space
space_lem = refl

read_word-append :
    (n : ℕ) (w rest : List ℕ)
    → length w ≤ n
    → IsSpaceless w
    → EndsWord rest
    → read_word n (w ++ rest) ≡ (w, rest)
unfolding read_word
read_word-append zero [] rest l s e = refl
read_word-append zero (c ∷ cs) rest l s e = absurd (omega arith)
read_word-append (suc n) [] [] l s e = refl
read_word-append (suc n) [] (c ∷ cs) l s e = rw e refl
read_word-append (suc n) (c ∷ cs) rest l s e =
    rw s.0 (ap (λ p. (c ∷ p.0, p.1)) (read_word-append n cs rest (omega arith) s.1 e))

skip_spaces-word : (w rest : List ℕ) → IsWord w → skip_spaces (w ++ rest) ≡ w ++ rest
unfolding skip_spaces
skip_spaces-word [] rest h = absurd (omega (arith, h.nonempty))
skip_spaces-word (c ∷ cs) rest h = rw h.spaceless.0 refl

scan_words-space : (n : ℕ) (cs : List ℕ) → scan_words n (32 ∷ cs) ≡ scan_words n cs
unfolding scan_words skip_spaces is_space
scan_words-space zero cs = refl
scan_words-space (suc n) cs = refl

scan_words-word :
    (n : ℕ) (w rest : List ℕ)
    → IsWord w
    → EndsWord rest
    → scan_words (suc n) (w ++ rest) ≡ w ∷ scan_words n rest
unfolding scan_words
scan_words-word n [] rest h e = absurd (omega (arith, h.nonempty))
scan_words-word n (c ∷ cs) rest h e =
    rw
      (
        skip_spaces-word (c ∷ cs) rest h,
        scan_from,
        read_word-append word_length_max (c ∷ cs) rest h.short h.spaceless e,
      )
      refl

scan_words-nothing : (n : ℕ) → scan_words n [] ≡ []
unfolding scan_words skip_spaces scan_from
scan_words-nothing zero = refl
scan_words-nothing (suc n) = refl

scan_words-line :
    (n : ℕ) (w : List ℕ) (ws : List (List ℕ))
    → length ws < n
    → IsWord w
    → AreWords ws
    → scan_words n (line w ws) ≡ w ∷ ws
scan_words-line zero w ws l h hs = absurd (omega arith)
scan_words-line (suc n) w [] l h hs =
    ap (scan_words (suc n)) (sym (append_nil w))
    ∙ scan_words-word n w [] h tt
    ∙ ap (◌∷◌ w) (scan_words-nothing n)
scan_words-line (suc n) w (x ∷ xs) l h hs =
    scan_words-word n w (32 ∷ line x xs) h space_lem
    ∙ ap (◌∷◌ w) (scan_words-space n (line x xs) ∙ scan_words-line n x xs (omega arith) hs.0 hs.1)

-- A line of at most ten words, each of at most 128 characters and without white space, and with one
-- space between each two, is read as these words.
pub read_line-line :
    (w : List ℕ) (ws : List (List ℕ))
    → length ws < word_num_max
    → IsWord w
    → AreWords ws
    → read_line (line w ws) ≡ w ∷ ws
unfolding read_line
read_line-line w ws l h hs = scan_words-line word_num_max w ws l h hs

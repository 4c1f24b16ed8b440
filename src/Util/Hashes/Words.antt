-- ===== src/Util/Hashes/Words.antt =====
-- The word order of hashes in Stratum (util/util.go), and how a miner undoes it.
use btcpool.Common.{
  ℕ, zero, suc, ◌+◌, ◌*◌, ◌<◌, ◌≡◌, refl, sym, ap, ◌∙◌, some, [], ◌∷◌, ◌++◌, length, get_elem?,
  arith, append_assoc, length-append, All,
}
use btcpool.Common.Bytes.{Bytes}
use btcpool.Util.Hashes.{word_at, words_from}

-- The bytes of each word of four in the other order.
unfoldable pub swap_words : Bytes → Bytes
swap_words (a ∷ b ∷ c ∷ d ∷ s) = d ∷ c ∷ b ∷ a ∷ swap_words s
swap_words s = s

-- A list of so many words.
abbrev pub IsWords : ℕ → Bytes → Type 0
IsWords zero [] = Unit
IsWords zero (x ∷ s) = ⊥
IsWords (suc n) (a ∷ b ∷ c ∷ d ∷ s) = IsWords n s
IsWords (suc n) s = ⊥

pub length-IsWords : (n : ℕ) (s : Bytes) → length s ≡ n * 4 → IsWords n s
length-IsWords zero [] h = tt
length-IsWords zero (x ∷ s) h = absurd (omega arith)
length-IsWords (suc n) [] h = absurd (omega arith)
length-IsWords (suc n) (a ∷ []) h = absurd (omega arith)
length-IsWords (suc n) (a ∷ b ∷ []) h = absurd (omega arith)
length-IsWords (suc n) (a ∷ b ∷ c ∷ []) h = absurd (omega arith)
length-IsWords (suc n) (a ∷ b ∷ c ∷ d ∷ s) h = length-IsWords n s (omega arith)

pub swap_words_twice : (n : ℕ) (s : Bytes) → IsWords n s → swap_words (swap_words s) ≡ s
unfolding swap_words
swap_words_twice zero [] h = refl
swap_words_twice zero (x ∷ s) h = absurd h
swap_words_twice (suc n) [] h = absurd h
swap_words_twice (suc n) (a ∷ []) h = absurd h
swap_words_twice (suc n) (a ∷ b ∷ []) h = absurd h
swap_words_twice (suc n) (a ∷ b ∷ c ∷ []) h = absurd h
swap_words_twice (suc n) (a ∷ b ∷ c ∷ d ∷ s) h =
    ap (λ t. a ∷ b ∷ c ∷ d ∷ t) (swap_words_twice n s h)

pub swap_words-All :
    (n : ℕ) (s : Bytes) → IsWords n s → All (λ b. b < 256) s → All (λ b. b < 256) (swap_words s)
unfolding swap_words
swap_words-All zero [] h k = tt
swap_words-All zero (x ∷ s) h k = absurd h
swap_words-All (suc n) [] h k = absurd h
swap_words-All (suc n) (a ∷ []) h k = absurd h
swap_words-All (suc n) (a ∷ b ∷ []) h k = absurd h
swap_words-All (suc n) (a ∷ b ∷ c ∷ []) h k = absurd h
swap_words-All (suc n) (a ∷ b ∷ c ∷ d ∷ s) h (p, (q, (r, (t, k)))) =
    (t, (r, (q, (p, swap_words-All n s h k))))

get_elem-append :
    (xs ys : Bytes) (k i : ℕ) → i ≡ length xs + k → get_elem? (xs ++ ys) i ≡ get_elem? ys k
get_elem-append [] ys k i e = let same : i ≡ k = omega arith in rw (same) refl
get_elem-append (x ∷ xs) ys k zero e = absurd (omega arith)
get_elem-append (x ∷ xs) ys k (suc i) e = get_elem-append xs ys k i (omega arith)

-- The loop reads what is behind its first words, in the order of `swap_words`.
words_from-append :
    (n i : ℕ) (before s : Bytes)
    → length before ≡ i * 4
    → IsWords n s
    → words_from n i (before ++ s) ≡ some (swap_words s)
unfolding words_from word_at swap_words
words_from-append zero i before [] l h = refl
words_from-append zero i before (x ∷ s) l h = absurd h
words_from-append (suc n) i before [] l h = absurd h
words_from-append (suc n) i before (a ∷ []) l h = absurd h
words_from-append (suc n) i before (a ∷ b ∷ []) l h = absurd h
words_from-append (suc n) i before (a ∷ b ∷ c ∷ []) l h = absurd h
words_from-append (suc n) i before (a ∷ b ∷ c ∷ d ∷ s) l h =
    let t = a ∷ b ∷ c ∷ d ∷ s in
    let rest : words_from n (i + 1) (before ++ t) ≡ some (swap_words s) =
      ap (λ x. words_from n (i + 1) x) (sym (append_assoc before (a ∷ b ∷ c ∷ d ∷ []) s))
      ∙ words_from-append n (i + 1) (before ++ a ∷ b ∷ c ∷ d ∷ []) s
          (omega (arith, length-append before (a ∷ b ∷ c ∷ d ∷ []))) h in
    rw
      (
        get_elem-append before t 3 (i * 4 + 3) (omega arith),
        get_elem-append before t 2 (i * 4 + 2) (omega arith),
        get_elem-append before t 1 (i * 4 + 1) (omega arith),
        get_elem-append before t 0 (i * 4 + 0) (omega arith),
        rest,
      )
      refl

pub words_from-swap_words :
    (n : ℕ) (s : Bytes) → IsWords n s → words_from n 0 s ≡ some (swap_words s)
words_from-swap_words n s h = words_from-append n 0 [] s refl h

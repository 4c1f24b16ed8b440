-- ===== src/Common/Bytes.antt =====
-- Go strings as lists of bytes: equality, membership, and `strings.Split` and `strings.Join`.
use Prim.Native.Char.{code}
use Prim.Native.String.{String}
use btcpool.Common.{
  ℕ, ◌≡◌, ◌≢◌, refl, ap, Bool, true, false, ◌&&◌, List, [], ◌∷◌, ◌++◌, append_assoc, append-nil,
  arith, ◌==◌, if◌then◌else◌, All,
}

abbrev pub Bytes : Type 0
Bytes = List ℕ

-- The bytes of an ASCII text.
abbrev pub codes : String → Bytes
codes String.[] = []
codes (String.◌∷◌ c s) = code c ∷ codes s

-- `==` on strings.
abbrev pub beq : Bytes → Bytes → Bool
beq [] [] = true
beq [] (y ∷ ys) = false
beq (x ∷ xs) [] = false
beq (x ∷ xs) (y ∷ ys) = x == y && beq xs ys

pub eq_of_beq : (s t : Bytes) → beq s t ≡ true → s ≡ t
eq_of_beq [] [] h = refl
eq_of_beq [] (y ∷ ys) h = cc
eq_of_beq (x ∷ xs) [] h = cc
eq_of_beq (x ∷ xs) (y ∷ ys) h = ground (arith, eq_of_beq xs ys)

pub beq_refl : (s : Bytes) → beq s s ≡ true
beq_refl [] = refl
beq_refl (x ∷ xs) = ground (arith, beq_refl xs)

-- Strings with a common beginning differ only behind it.
pub beq-append : (p s t : Bytes) → beq (p ++ s) (p ++ t) ≡ beq s t
beq-append [] s t = refl
beq-append (x ∷ p) s t = ground (arith, beq-append p s t)

-- `StringInSlice` of util/util.go: a loop that returns at the first equal string.
unfoldable pub string_in_slice : Bytes → List Bytes → Bool
string_in_slice a [] = false
string_in_slice a (b ∷ list) = if beq b a then true else string_in_slice a list

abbrev pub Lacks : ℕ → Bytes → Type 0
Lacks b = All (λ c. c ≢ b)

-- `strings.Split(s, sep)` for a separator of one byte, `cur` being the piece under way.
unfoldable pub split_from : ℕ → Bytes → Bytes → List Bytes
split_from sep cur [] = cur ∷ []
split_from sep cur (c ∷ s) = elim (c == sep) [
  | true ↦ cur ∷ split_from sep [] s
  | false ↦ split_from sep (cur ++ c ∷ []) s
]

unfoldable pub split : Bytes → ℕ → List Bytes
unfolding split_from
split s sep = split_from sep [] s

-- `strings.Join(parts, sep)`.
unfoldable pub join_with : ℕ → List Bytes → Bytes
join_with sep [] = []
join_with sep (p ∷ []) = p
join_with sep (p ∷ q ∷ ps) = p ++ sep ∷ join_with sep (q ∷ ps)

split_from-end : (sep : ℕ) (cur p : Bytes) → Lacks sep p → split_from sep cur p ≡ (cur ++ p) ∷ []
unfolding split_from
split_from-end sep cur [] h = ap (λ t. t ∷ []) (append-nil-sym cur)
  where
    append-nil-sym : (x : Bytes) → x ≡ x ++ []
    append-nil-sym x = cc (append-nil x)
split_from-end sep cur (c ∷ p) h =
    ground (arith, split_from-end sep (cur ++ c ∷ []) p h.1, append_assoc cur (c ∷ []) p)

split_from-sep :
    (sep : ℕ) (cur p rest : Bytes)
    → Lacks sep p
    → split_from sep cur (p ++ sep ∷ rest) ≡ (cur ++ p) ∷ split_from sep [] rest
unfolding split_from
split_from-sep sep cur [] rest h = ground (arith, append-nil cur)
split_from-sep sep cur (c ∷ p) rest h =
    ground (arith, split_from-sep sep (cur ++ c ∷ []) p rest h.1, append_assoc cur (c ∷ []) p)

-- Pieces that hold no separator come back from their join, as long as there is one.
pub split-join :
    (sep : ℕ) (p : Bytes) (ps : List Bytes)
    → All (Lacks sep) (p ∷ ps)
    → split (join_with sep (p ∷ ps)) sep ≡ p ∷ ps
unfolding split join_with
split-join sep p [] h = split_from-end sep [] p h.0
split-join sep p (q ∷ ps) h =
    ground (arith, split_from-sep sep [] p (join_with sep (q ∷ ps)) h.0, split-join sep q ps h.1)

-- Whether `s` begins with `p`.
abbrev pub starts_with : Bytes → Bytes → Bool
starts_with [] s = true
starts_with (x ∷ p) [] = false
starts_with (x ∷ p) (y ∷ s) = x == y && starts_with p s

pub starts_with-append : (p s t : Bytes) → starts_with (p ++ s) (p ++ t) ≡ starts_with s t
starts_with-append [] s t = refl
starts_with-append (x ∷ p) s t = ground (arith, starts_with-append p s t)

-- ===== src/Util/Cipher/RoundTrip.antt =====
-- `Ae64Encode` and `Ae64Decode` of util/ae64.go together, over what Go documents of AES, CBC and base64.
use btcpool.Common.{
  ℕ, zero, suc, ◌+◌, ◌-◌, ◌%◌, ◌≡◌, ◌≤◌, ◌<◌, refl, some, [], ◌∷◌, ◌++◌, length, take, replicate,
  get_elem?, arith, length-append, length-replicate, take-append_left, ◌∙◌,
}
use btcpool.Common.Bytes.{Bytes}
use btcpool.Common.Result.{done}
use btcpool.Util.Cipher.{
  Ciphers, padding, unpadding, fit_key, encrypt_aes, decrypt_aes, ae64_encode, ae64_decode,
}

-- A key of 16 bytes gives a cipher on blocks of 16 bytes; whole blocks are encrypted, with an initial
-- vector of 16 bytes, and come back with the same; base64 comes back.
pub record Documented (c : Ciphers) : Type 0 where
  pub keyed :
      (key : Bytes)
      → length key ≡ 16
      → (block : c.Block) × (c.new_cipher key ≡ some block) × (c.block_size block ≡ 16)
  pub blocks :
      (block : c.Block) (iv src : Bytes)
      → c.block_size block ≡ 16
      → length iv ≡ 16
      → length src % 16 ≡ 0
      → (out : Bytes) × (c.encrypt block iv src ≡ done out) × (c.decrypt block iv out ≡ done src)
  pub base64 : (b : Bytes) → c.decode_base64 (c.encode_base64 b) ≡ some b

length-take : (n : ℕ) (xs : Bytes) → n ≤ length xs → length (take n xs) ≡ n
length-take zero xs h = refl
length-take (suc n) [] h = absurd (omega arith)
length-take (suc n) (x ∷ xs) h = omega (arith, length-take n xs (omega arith))

length-fit_key : (key : Bytes) → length (fit_key key) ≡ 16
unfolding fit_key
length-fit_key key =
    let whole = length-append key (replicate (16 - length key) b' ') in
    let rest = length-replicate {A = ℕ} (16 - length key) b' ' in
    let front = length-take 16 key in ground arith

-- The last element of a list that ends in copies of one.
get_elem-last :
    (xs : Bytes) (p a i : ℕ)
    → i + 1 ≡ length xs + p
    → 0 < p
    → get_elem? (xs ++ replicate p a) i ≡ some a
get_elem-last [] zero a i e h = absurd (omega arith)
get_elem-last [] (suc p) a zero e h = refl
get_elem-last [] (suc p) a (suc i) e h = get_elem-last [] p a i (omega arith) (omega arith)
get_elem-last (x ∷ xs) p a zero e h = absurd (omega arith)
get_elem-last (x ∷ xs) p a (suc i) e h = get_elem-last xs p a i (omega arith) h

-- A text is padded to whole blocks.
padding-blocks : (src : Bytes) → length (padding src 16) % 16 ≡ 0
unfolding padding
padding-blocks src =
    let whole =
      length-append src (replicate (16 - length src % 16) ((16 - length src % 16) % 256)) in
    let rest : length (replicate (16 - length src % 16) ((16 - length src % 16) % 256))
        ≡ 16 - length src % 16 =
      length-replicate _ _ in
    omega arith

unpadding-take :
    (t : Bytes) (n : ℕ)
    → get_elem? t (length t - 1) ≡ some n
    → n ≤ length t
    → unpadding t ≡ done (take (length t - n) t)
unfolding unpadding
unpadding-take t n e h = rw (unpadding, e) (ground arith)

unpadding-append :
    (src : Bytes) (p : ℕ) → 0 < p → p ≤ 16 → unpadding (src ++ replicate p (p % 256)) ≡ done src
unpadding-append src p h k =
    let whole = length-append src (replicate p (p % 256)) in
    let rest = length-replicate p (p % 256) in
    let cut : length (src ++ replicate p (p % 256)) - p % 256 ≡ length src = omega arith in
    unpadding-take (src ++ replicate p (p % 256)) (p % 256)
      (get_elem-last src p (p % 256) (length (src ++ replicate p (p % 256)) - 1) (omega arith) h)
      (omega arith)
    ∙ rw (cut, take-append_left src (replicate p (p % 256))) refl

unpadding-padding : (src : Bytes) → unpadding (padding src 16) ≡ done src
unfolding padding
unpadding-padding src = unpadding-append src (16 - length src % 16) (omega arith) (omega arith)

module _ (c : Ciphers) (d : Documented c) where
  -- Every text is encoded with every key, and the result is decoded to it with the same key.
  pub ae64_decode-ae64_encode :
      (src key : Bytes)
      → (text : Bytes) × (ae64_encode c src key ≡ done text) × (ae64_decode c text key ≡ done src)
  unfolding ae64_encode ae64_decode encrypt_aes decrypt_aes
  ae64_decode-ae64_encode src key =
      let (block, e, size) = d.keyed (fit_key key) (length-fit_key key) in
      let (out, f, g) =
        d.blocks block (fit_key key) (padding src 16) size (length-fit_key key)
          (padding-blocks src) in
      (c.encode_base64 out, rw (e, size, f) refl, rw (d.base64 out, e, g) (unpadding-padding src))
